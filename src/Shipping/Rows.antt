-- ===== src/Shipping/Rows.antt =====
-- The statements on shipments and their orders in internal/modules/shipping/repository.go, and
-- `mutate` of service.go, which every write goes through.
use e_commerce_be.Prelude.{
  ℕ, Bool, true, false, not, ◌&&◌, ◌||◌, none, some, List, [], ◌∷◌, ◌==◌, if◌then◌else◌, ltb, find,
  count, update, pos,
}
use e_commerce_be.Text.{is_empty}
use e_commerce_be.Shared.{Word, Uuid, ok, err, conflict, constraint, is_some}
use e_commerce_be.Words.{
  cancelled, delivered, processing, internal, cod, pending, paid, of_shipment, of_order,
  shipment_status_changed, payment_succeeded,
}
use e_commerce_be.Models.{Order, SellerOrder, Payment, Shipment}
use e_commerce_be.Store.{
  Db, Call, ⊤, ◌>>=◌, ◌>>◌, gets, first, raise_if, bad_shipment, insert_shipment_event, enqueue,
}
use e_commerce_be.Order.Fulfill.{order_is, payment_of, in_order, set_child_status, set_order_status}

-- `id=? AND carrier='internal' AND deleted_at IS NULL`
abbrev pub shipment_is : Uuid → Shipment → Bool
shipment_is id s = s.id == id && s.carrier == internal && not (is_some s.deleted_at)

abbrev pub live_child : Uuid → SellerOrder → Bool
live_child id c = c.id == id && not (is_some c.deleted_at)

unfoldable pub shipment : Uuid → Call Shipment
shipment id = first λ db. find (shipment_is id) db.shipments

unfoldable pub child : Uuid → Call SellerOrder
child id = first λ db. find (live_child id) db.seller_orders

unfoldable pub lock_order : Uuid → Call Order
lock_order id = first λ db. find (order_is id) db.orders

unfoldable pub payment : Uuid → Call Payment
payment order = first λ db. find (payment_of order) db.payments

-- `Repository.HasExternal`
unfoldable pub has_external : Uuid → Db → Bool
has_external order db = ltb 0 (
    count (λ (s : Shipment). in_order db order s.seller_order_id && not (s.carrier == internal))
      db.shipments)

-- `Save` writes every column of the row.
unfoldable pub save : Shipment → Call ⊤
save s db = elim (bad_shipment s) [
  | true ↦ err constraint
  | false ↦ ok (tt, record db { shipments = update (λ t. t.id == s.id) (λ _. s) db.shipments })
]

-- `Repository.Event`: the event, with the request's key if there is one, and its announcement.
unfoldable pub event : Shipment → Uuid → List ℕ → List ℕ → Call ⊤
event s u key description = do
  insert_shipment_event (record {
    actor_id = some u;
    request_id = if is_empty key then none else some key;
    shipment_id = s.id;
    status = s.status;
    description = description;
  })
  enqueue of_shipment s.id shipment_status_changed (pos s.status ∷ pos s.seller_order_id ∷ [])

-- `status<>'delivered'` among the seller orders of the order.
unfoldable pub undelivered : Uuid → Db → ℕ
undelivered order db =
    count (λ (c : SellerOrder). c.order_id == order && not (c.status == delivered)) db.seller_orders

-- `Repository.SyncOrder`
unfoldable pub sync_order : SellerOrder → Word → Call ⊤
sync_order c status = do
  set_child_status c.id status
  n ← gets (undelivered c.order_id)
  set_order_status c.order_id (if n == 0 then delivered else processing)

-- A seller order that is not delivered, or has no settled internal shipment.
abbrev pub unsettled : Uuid → Db → SellerOrder → Bool
unsettled order db c =
    c.order_id == order
    && (not (c.status == delivered)
        || not (
            is_some (
              find
                (λ (s : Shipment).
                  s.seller_order_id == c.id && s.carrier == internal && s.cod_settled)
                db.shipments)))

abbrev pub cod_pending : Uuid → Payment → Bool
cod_pending order p = p.order_id == order && p.method == cod && p.status == pending

-- `Repository.SettlePayment`
unfoldable pub settle_payment : Order → Call ⊤
settle_payment o db =
    elim (ltb 0 (count (unsettled o.id db) db.seller_orders)
      || count (cod_pending o.id) db.payments == 0) [
        | true ↦ ok (tt, db)
        | false ↦
            enqueue of_order o.id payment_succeeded
              (pos o.id ∷ pos o.user_id ∷ o.total ∷ pos cod ∷ [])
              (record db {
                payments = update (cod_pending o.id) (λ p. record p { status = paid }) db.payments;
              })
      ]

-- `mutate`: the rows are read, the order locked, and the rows read again.
unfoldable pub mutate : Uuid → (Shipment → SellerOrder → Order → Call ⊤) → Call ⊤
mutate id f = do
  before ← shipment id
  c0 ← child before.seller_order_id
  o ← lock_order c0.order_id
  v ← shipment id
  c ← child c0.id
  raise_if (o.status == cancelled) conflict
  f v c o
