-- ===== src/Shipping/Progress/Cash.antt =====
-- When an administrator's settlement books the cash of an order as paid.
use e_commerce_be.Prelude.{
  ℕ, ◌≡◌, ap, ◌∙◌, true, some, List, [], ◌==◌, find, count, update, arith, inl, inr, ◌⊎◌,
  Bool-cases, Option-cases,
}
use e_commerce_be.Shared.{Uuid, ok, Result-cases}
use e_commerce_be.Words.{cod, delivered, paid}
use e_commerce_be.Models.{Order, SellerOrder, Payment, Shipment}
use e_commerce_be.Store.{Db, Call, ⊤, ◌>>◌, bind_ok, require_admin, insert_shipment_event, enqueue}
use e_commerce_be.Order.Fulfill.{payment_of}
use e_commerce_be.Shipping.Rows.{payment, save, event, unsettled, cod_pending, settle_payment}
use e_commerce_be.Shipping.Locked.{Locked, mutate_ok}
use e_commerce_be.Shipping.Progress.{settled_note, settle_rows, settle}

abbrev paid_cash : Payment → Payment
paid_cash p = record p { status = paid }

-- The cash of the order is booked: every seller order of it is delivered and settled.
abbrev pub Books : Order → Db → Db → Type 0
Books o db db' =
    (count (unsettled o.id db') db'.seller_orders ≡ 0)
    × (db'.payments ≡ update (cod_pending o.id) paid_cash db.payments)

settle_payment_lem :
    (o : Order) (db db' : Db)
    → settle_payment o db ≡ ok (tt, db')
    → (db'.shipments ≡ db.shipments)
      × (db'.seller_orders ≡ db.seller_orders)
      × ((db'.payments ≡ db.payments)
          ⊎ ((count (unsettled o.id db) db.seller_orders ≡ 0)
              × (db'.payments ≡ update (cod_pending o.id) paid_cash db.payments)))
unfolding settle_payment enqueue
settle_payment_lem o db db' h = ground arith

same_count :
    (order : Uuid) (a b : Db)
    → a.shipments ≡ b.shipments
    → a.seller_orders ≡ b.seller_orders
    → count (unsettled order a) a.seller_orders ≡ count (unsettled order b) b.seller_orders
same_count order a b s c = rw (s, c)

abbrev acknowledged : Shipment → Shipment
acknowledged v = record v { cod_settled = true; cod_collected = true }

save-event :
    (v : Shipment) (u : Uuid) (key note : List ℕ) (db d db' : Db)
    → save v db ≡ ok (tt, d)
    → event v u key note d ≡ ok (tt, db')
    → (db'.shipments ≡ update (λ t. t.id == v.id) (λ _. v) db.shipments)
      × (db'.seller_orders ≡ db.seller_orders)
      × (db'.payments ≡ db.payments)
unfolding save event insert_shipment_event enqueue
save-event v u key note db d db' h k = ground arith

-- What a settlement that is new did.
pub record Settled (v : Shipment) (o : Order) (db db' : Db) : Type 0 where
  pub shipments : db'.shipments ≡ update (λ t. t.id == v.id) (λ _. acknowledged v) db.shipments
  pub children : db'.seller_orders ≡ db.seller_orders
  pub payments : (db'.payments ≡ db.payments) ⊎ Books o db db'

written-Settled :
    (u : Uuid) (v : Shipment) (o : Order) (db db' : Db)
    → (save (acknowledged v) >> (event (acknowledged v) u [] settled_note >> settle_payment o)) db
      ≡ ok (tt, db')
    → Settled v o db db'
written-Settled u v o db db' h =
    let tell : Call ⊤ = event (acknowledged v) u [] settled_note in
    let (_, d1, e1, h1) = bind_ok (λ _. tell >> settle_payment o) (save (acknowledged v)) db h in
    let (_, d2, e2, h2) = bind_ok (λ _. settle_payment o) tell d1 h1 in
    let (s, c, p) = save-event (acknowledged v) u [] settled_note db d1 d2 e1 e2 in
    let (s', c', paying) = settle_payment_lem o d2 db' h2 in
    record {
      shipments = s' ∙ s;
      children = c' ∙ c;
      payments = elim paying [
        | inl kept ↦ inl (kept ∙ p)
        | inr (none_left, booked) ↦ inr (
          same_count o.id db' d2 s' c' ∙ none_left,
          booked ∙ ap (update (cod_pending o.id) paid_cash) p,
        )
      ];
    }

admin_frame : (u : Uuid) (db db' : Db) → require_admin u db ≡ ok (tt, db') → db' ≡ db
unfolding require_admin
admin_frame u db db' h = ground arith

settle_rows_ok :
    (u : Uuid) (v : Shipment) (c : SellerOrder) (o : Order) (db db' : Db)
    → settle_rows u v c o db ≡ ok (tt, db')
    → (v.status ≡ delivered)
      × ((p : Payment) × (find (payment_of o.id) db.payments ≡ some p) × (p.method ≡ cod))
      × (((v.cod_settled ≡ true) × (db' ≡ db)) ⊎ Settled v o db db')
unfolding settle_rows payment
settle_rows_ok u v c o db db' h = elim (Result-cases (require_admin u db)) [
  | inl (e, r) ↦ ground arith
  | inr ((t, d), r) ↦
      let same : d ≡ db = admin_frame u db d r in
      let admitted : require_admin u db ≡ ok (tt, db) = r ∙ ap (λ x. ok (tt, x)) same in
      elim (Option-cases (find (payment_of o.id) db.payments)) [
        | inl lost ↦ ground arith
        | inr (p, e) ↦ (
          ground arith,
          (p, e, ground arith),
          elim (Bool-cases v.cod_settled) [
            | inl before ↦ inl (before, ground arith)
            | inr new ↦ inr (written-Settled u v o db db' (ground arith))
          ],
        )
      ]
]

-- A settlement that succeeds is of a delivered shipment of a cash order. It was settled before and
-- nothing changes, or it is marked settled, no seller order changes, and the payments stay as they
-- are or the pending cash payment of the order is booked as paid; it is booked only where now every
-- seller order of the order is delivered with a settled internal shipment.
pub settle-Settled :
    (u id : Uuid) (db db' : Db)
    → settle u id db ≡ ok (tt, db')
    → (v : Shipment) × (c : SellerOrder) × (o : Order) × Locked id db v c o
      × (v.status ≡ delivered)
      × ((p : Payment) × (find (payment_of o.id) db.payments ≡ some p) × (p.method ≡ cod))
      × (((v.cod_settled ≡ true) × (db' ≡ db)) ⊎ Settled v o db db')
unfolding settle
settle-Settled u id db db' h =
    let (v, c, o, l, rows) = mutate_ok id (settle_rows u) db db' h in
    let (arrived, cash, outcome) = settle_rows_ok u v c o db db' rows in
    (v, c, o, l, arrived, cash, outcome)
