-- ===== src/Shipping/Locked.antt =====
-- `mutate`: which rows a write is made on.
use mathlib.Core.Path.{subst}
use e_commerce_be.Prelude.{
  ◌≡◌, sym, false, some, ◌==◌, find, arith, inl, inr, Option-cases, Bool-cases, find_holds,
}
use e_commerce_be.Shared.{Uuid, ok}
use e_commerce_be.Words.{cancelled}
use e_commerce_be.Models.{Order, SellerOrder, Shipment}
use e_commerce_be.Store.{Db, Call, ⊤}
use e_commerce_be.Order.Fulfill.{order_is}
use e_commerce_be.Shipping.Rows.{shipment, child, lock_order, shipment_is, live_child, mutate}

-- The rows that `mutate` hands on.
pub record Locked (id : Uuid) (db : Db) (v : Shipment) (c : SellerOrder) (o : Order) : Type 0 where
  pub shipment_row : find (shipment_is id) db.shipments ≡ some v
  pub child_row : find (live_child v.seller_order_id) db.seller_orders ≡ some c
  pub order_row : find (order_is c.order_id) db.orders ≡ some o
  pub open_order : (o.status == cancelled) ≡ false

child_again :
    (k : Uuid) (db : Db) (c : SellerOrder)
    → find (live_child k) db.seller_orders ≡ some c
    → find (live_child c.id) db.seller_orders ≡ some c
child_again k db c e =
    let same : c.id ≡ k = ground (arith, find_holds (live_child k) db.seller_orders c e) in
    subst (λ j. find (live_child j) db.seller_orders ≡ some c) (sym same) e

-- `mutate` succeeds exactly on locked rows, by its function on them.
pub mutate_ok :
    (id : Uuid) (f : Shipment → SellerOrder → Order → Call ⊤) (db db' : Db)
    → mutate id f db ≡ ok (tt, db')
    → (v : Shipment) × (c : SellerOrder) × (o : Order) × Locked id db v c o
      × (f v c o db ≡ ok (tt, db'))
unfolding mutate shipment child lock_order
mutate_ok id f db db' h = elim (Option-cases (find (shipment_is id) db.shipments)) [
  | inl lost ↦ ground arith
  | inr (v, ev) ↦ elim (Option-cases (find (live_child v.seller_order_id) db.seller_orders)) [
    | inl lost ↦ ground arith
    | inr (c, ec) ↦ elim (Option-cases (find (order_is c.order_id) db.orders)) [
      | inl lost ↦ ground (arith, child_again v.seller_order_id db c ec)
      | inr (o, eo) ↦ elim (Bool-cases (o.status == cancelled)) [
        | inl gone ↦ ground (arith, child_again v.seller_order_id db c ec)
        | inr running ↦ (
          v,
          c,
          o,
          record { shipment_row = ev; child_row = ec; order_row = eo; open_order = running },
          ground (arith, child_again v.seller_order_id db c ec),
        )
      ]
    ]
  ]
]

pub mutate-Locked :
    (id : Uuid) (f : Shipment → SellerOrder → Order → Call ⊤) (db : Db) (v : Shipment)
    (c : SellerOrder) (o : Order)
    → Locked id db v c o
    → mutate id f db ≡ f v c o db
unfolding mutate shipment child lock_order
mutate-Locked id f db v c o l = ground (arith, child_again v.seller_order_id db c l.child_row)
