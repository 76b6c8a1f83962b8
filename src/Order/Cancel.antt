-- ===== src/Order/Cancel.antt =====
-- `Cancel` of internal/modules/order/repository.go.
pub mod Laws
use e_commerce_be.Prelude.{
  ℕ, Bool, true, false, not, ◌&&◌, ◌||◌, Option, none, some, List, [], ◌∷◌, ltb, ◌==◌,
  if◌then◌else◌, ℤ, pos, find, count, update, select, ◌+ℤ◌,
}
use e_commerce_be.Shared.{Word, Uuid, conflict, constraint, Result, ok, err, is_some}
use e_commerce_be.Words.{
  pending, cancelled, paid, cod, cancellation, of_order, order_status_changed,
}
use e_commerce_be.Models.{Order, SellerOrder, OrderItem, Payment, InventoryMovement}
use e_commerce_be.Store.{
  Db, Call, ⊤, ◌>>=◌, ◌>>◌, pure, gets, first, raise_if, modify, bad_stock, insert_movement,
  enqueue,
}
use e_commerce_be.Inventory.{add_stock}
use e_commerce_be.Order.Fulfill.{child_of, payment_of, in_order, set_order_status}

abbrev pub returned_item : Uuid → OrderItem → InventoryMovement
returned_item order i = record {
  variant_id = i.variant_id;
  quantity = i.quantity;
  kind = cancellation;
  reference_id = some order;
}

-- The loop that gives the stock of each item back.
unfoldable pub restock : Uuid → List OrderItem → Call ⊤
restock order [] = pure tt
restock order (i ∷ items) = do
  add_stock i.variant_id i.quantity
  insert_movement (returned_item order i)
  restock order items

unfoldable pub items_of : Uuid → Db → List OrderItem
items_of order db = select (λ i. in_order db order i.seller_order_id) db.order_items

-- The statuses, and the event.
unfoldable pub mark_cancelled : Order → Uuid → Call ⊤
unfolding set_order_status enqueue
mark_cancelled o id = do
  set_order_status o.id cancelled
  modify λ db. record db {
    seller_orders = update (child_of id) (λ c. record c { status = cancelled }) db.seller_orders;
  }
  modify λ db. record db {
    payments = update (payment_of id) (λ p. record p { status = cancelled }) db.payments;
  }
  enqueue of_order id order_status_changed (pos o.id ∷ pos o.user_id ∷ pos cancelled ∷ [])

unfoldable pub cancel_pending : Order → Uuid → Call ⊤
cancel_pending o id = do
  pay ← first (λ db. find (payment_of id) db.payments)
  raise_if (not (pay.method == cod) && pay.status == paid) conflict
  n ← gets (λ db. count (λ c. c.order_id == id && not (c.status == pending)) db.seller_orders)
  raise_if (ltb 0 n) conflict
  items ← gets (items_of id)
  restock id items
  mark_cancelled o id

-- An order that is cancelled already stays so; one that has moved on is refused.
unfoldable pub cancel_found : Order → Uuid → Call ⊤
cancel_found o id db =
    if o.status == cancelled
    then ok (tt, db)
    else if not (o.status == pending)
    then err conflict
    else cancel_pending o id db

-- `Repository.Cancel`
unfoldable pub cancel : Uuid → Uuid → Call ⊤
cancel user id = do
  o ← first (λ db. find (λ o. o.id == id && o.user_id == user) db.orders)
  cancel_found o id
