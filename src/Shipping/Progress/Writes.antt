-- ===== src/Shipping/Progress/Writes.antt =====
-- What a driver's report writes, on rows that `mutate` handed on.
use e_commerce_be.Prelude.{
  ℕ, ◌≡◌, true, false, ◌&&◌, none, some, List, ◌∷◌, ◌==◌, if◌then◌else◌, find, update, arith, inl,
  inr, Option-cases,
}
use e_commerce_be.Text.{is_empty}
use e_commerce_be.Shared.{Uuid, ok}
use e_commerce_be.Words.{delivered, processing}
use e_commerce_be.Models.{Order, SellerOrder, Shipment}
use e_commerce_be.Store.{Db, insert_shipment_event, enqueue}
use e_commerce_be.Order.Fulfill.{order_is, child_is, payment_of, set_child_status, set_order_status}
use e_commerce_be.Shipping.State.{transition}
use e_commerce_be.Shipping.Rows.{payment, save, event, sync_order, undelivered}
use e_commerce_be.Order.Fulfill.Moves.{with_status, order_with_status}
use e_commerce_be.Shipping.Progress.{Update, cash_differs, child_status, updated_shipment, progress}

-- What a new report wrote, and what it required.
pub record Progressed (u id : Uuid) (key : List ℕ) (input : Update) (v : Shipment) (c : SellerOrder)
    (o : Order) (db db' : Db) : Type 0 where
  pub allowed : transition v.status input.status ≡ true
  pub cash : (input.status == delivered && cash_differs v input) ≡ false
  pub shipments :
      db'.shipments ≡ update (λ t. t.id == v.id) (λ _. updated_shipment input v) db.shipments
  pub children :
      db'.seller_orders
      ≡ update (child_is c.id) (with_status (child_status input.status)) db.seller_orders
  pub parent :
      db'.orders
      ≡ update
          (order_is c.order_id)
          (order_with_status (if undelivered c.order_id db' == 0 then delivered else processing))
          db.orders
  pub events :
      db'.shipment_events
      ≡ record {
        actor_id = some u;
        request_id = if is_empty key then none else some key;
        shipment_id = v.id;
        status = input.status;
        description = input.reason;
      }
        ∷ db.shipment_events
  pub users : db'.users ≡ db.users
  pub drivers : db'.drivers ≡ db.drivers
  pub payments : db'.payments ≡ db.payments

undelivered_rows :
    (order : Uuid) (a b : Db)
    → a.seller_orders ≡ b.seller_orders
    → undelivered order a ≡ undelivered order b
unfolding undelivered
undelivered_rows order a b e = rw e

pub progress-Progressed :
    (u id : Uuid) (key : List ℕ) (input : Update) (v : Shipment) (c : SellerOrder) (o : Order)
    (db db' : Db)
    → progress u key input v c o db ≡ ok (tt, db')
    → Progressed u id key input v c o db db'
unfolding progress payment save sync_order event set_child_status set_order_status
    insert_shipment_event enqueue
progress-Progressed u id key input v c o db db' h =
    elim (Option-cases (find (payment_of o.id) db.payments)) [
      | inl lost ↦ ground arith
      | inr (pay, e) ↦ record {
        allowed = ground arith;
        cash = ground arith;
        shipments = ground arith;
        children = ground arith;
        parent = ground (
          arith,
          undelivered_rows c.order_id db' (record db {
            shipments = update (λ t. t.id == v.id) (λ _. updated_shipment input v) db.shipments;
            seller_orders =
                update (child_is c.id) (with_status (child_status input.status)) db.seller_orders;
          }),
        );
        events = ground arith;
        users = ground arith;
        drivers = ground arith;
        payments = ground arith;
      }
    ]
