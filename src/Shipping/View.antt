-- ===== src/Shipping/View.antt =====
-- `Detail` of internal/modules/shipping/service.go: who may see a shipment.
use mathlib.Core.Path.{subst}
use e_commerce_be.Prelude.{
  ◌≡◌, ap, ◌∙◌, Bool, true, false, not, ◌&&◌, ◌||◌, none, some, ◌==◌, find, arith, inl, inr, ◌⊎◌,
  Bool-cases, Option-cases,
}
use e_commerce_be.Shared.{Uuid, Result, ok, err, forbidden, Result-cases}
use e_commerce_be.Words.{approved}
use e_commerce_be.Models.{Order, SellerOrder, Shipment, DriverProfile}
use e_commerce_be.Store.{Db, Call, ◌>>=◌, ◌>>◌, pure, gets, first, raise_if, require_admin}
use e_commerce_be.Directory.{Directory, require_seller}
use e_commerce_be.Order.Fulfill.{order_is}
use e_commerce_be.Shipping.Drivers.{active, profile_of}
use e_commerce_be.Shipping.Rows.{shipment, child, shipment_is, live_child}
use e_commerce_be.Shipping.Create.{has_driver}

-- `err == nil`
abbrev pub passes : {A : Type 0} → Result A → Bool
passes (ok a) = true
passes (err e) = false

-- `e == nil && d.Status == "approved"`
abbrev pub approved_driver : Uuid → Db → Bool
approved_driver u db = elim (find (profile_of u) db.drivers) [
  | none ↦ false
  | some d ↦ d.status == approved
]

-- `Repository.orderView`
unfoldable pub order_view : Uuid → Call Order
order_view id = first λ db. find (order_is id) db.orders

-- The buyer, the driver, a member of the shop, or an administrator.
unfoldable pub may_view : Directory → Uuid → Shipment → SellerOrder → Order → Db → Bool
may_view d u v c o db =
    o.user_id == u
    || (has_driver u v && approved_driver u db)
    || passes (require_seller d u c.seller_id db)
    || passes (require_admin u db)

-- `Detail`
unfoldable pub detail : Directory → Uuid → Uuid → Call Shipment
detail d u id = do
  v ← shipment id
  active u
  c ← child v.seller_order_id
  o ← order_view c.order_id
  may ← gets (may_view d u v c o)
  raise_if (not may) forbidden
  pure v

-- Why a user may see a shipment.
abbrev pub Viewer : Directory → Uuid → Shipment → SellerOrder → Order → Db → Type 0
Viewer d u v c o db =
    (o.user_id ≡ u)
    ⊎ (((v.driver_id ≡ some u)
          × ((p : DriverProfile) × (find (profile_of u) db.drivers ≡ some p)
              × (p.status ≡ approved)))
        ⊎ ((require_seller d u c.seller_id db ≡ ok (tt, db)) ⊎ (require_admin u db ≡ ok (tt, db))))

driver_reason :
    (u : Uuid) (v : Shipment) (db : Db)
    → (has_driver u v && approved_driver u db) ≡ true
    → (v.driver_id ≡ some u)
      × ((p : DriverProfile) × (find (profile_of u) db.drivers ≡ some p) × (p.status ≡ approved))
driver_reason u v db h = elim (Option-cases (find (profile_of u) db.drivers)) [
  | inl lost ↦ ground arith
  | inr (p, e) ↦ elim (Option-cases v.driver_id) [
    | inl nobody ↦ ground arith
    | inr (w, f) ↦ (f ∙ ap some (ground arith), (p, e, ground arith))
  ]
]

seller_reason :
    (d : Directory) (u seller : Uuid) (db : Db)
    → passes (require_seller d u seller db) ≡ true
    → require_seller d u seller db ≡ ok (tt, db)
unfolding require_seller
seller_reason d u seller db h = elim (Result-cases (d.check_membership u seller)) [
  | inl (e, r) ↦ ground arith
  | inr ((role, status), r) ↦ ground arith
]

admin_reason :
    (u : Uuid) (db : Db) → passes (require_admin u db) ≡ true → require_admin u db ≡ ok (tt, db)
unfolding require_admin
admin_reason u db h = ground arith

may_view-Viewer :
    (d : Directory) (u : Uuid) (v : Shipment) (c : SellerOrder) (o : Order) (db : Db)
    → may_view d u v c o db ≡ true
    → Viewer d u v c o db
unfolding may_view
may_view-Viewer d u v c o db h = elim (Bool-cases (o.user_id == u)) [
  | inl own ↦ inl (ground arith)
  | inr other ↦ elim (Bool-cases (has_driver u v && approved_driver u db)) [
    | inl drives ↦ inr (inl (driver_reason u v db drives))
    | inr not_driver ↦ elim (Bool-cases (passes (require_seller d u c.seller_id db))) [
      | inl sells ↦ inr (inr (inl (seller_reason d u c.seller_id db sells)))
      | inr stranger ↦ inr (inr (inr (admin_reason u db (ground arith))))
    ]
  ]
]

-- A user to whom `Detail` shows a shipment bought the order that it belongs to, or is its assigned
-- driver and approved, or is a member of the shop that sells it, or an administrator; nothing changes.
pub detail-Viewer :
    (d : Directory) (u id : Uuid) (v : Shipment) (db db' : Db)
    → detail d u id db ≡ ok (v, db')
    → (db' ≡ db)
      × (find (shipment_is id) db.shipments ≡ some v)
      × ((c : SellerOrder) × (o : Order) × (find (live_child v.seller_order_id) db.seller_orders
            ≡ some c)
          × (find (order_is c.order_id) db.orders ≡ some o)
          × Viewer d u v c o db)
unfolding detail shipment child order_view active
detail-Viewer d u id v db db' h = elim (Option-cases (find (shipment_is id) db.shipments)) [
  | inl lost ↦ ground arith
  | inr (w, ew) ↦ elim (Option-cases (find (live_child w.seller_order_id) db.seller_orders)) [
    | inl lost ↦ ground arith
    | inr (c, ec) ↦ elim (Option-cases (find (order_is c.order_id) db.orders)) [
      | inl lost ↦ ground arith
      | inr (o, eo) ↦ elim (Bool-cases (may_view d u w c o db)) [
        | inr hidden ↦ ground arith
        | inl may ↦
            let same : w ≡ v = ground arith in
            (
              ground arith,
              ew ∙ ap some same,
              subst
                  (λ x.
                    (c : SellerOrder) × (o : Order) × (find (live_child x.seller_order_id)
                        db.seller_orders
                      ≡ some c)
                    × (find (order_is c.order_id) db.orders ≡ some o)
                    × Viewer d u x c o db)
                  same (c, o, ec, eo, may_view-Viewer d u w c o db may),
            )
      ]
    ]
  ]
]
