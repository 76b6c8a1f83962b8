-- ===== src/Tests/Orders.antt =====
-- The order of Tests.Rows is confirmed, cancelled, and its stock adjusted.
use e_commerce_be.Prelude.{
  ◌≡◌, refl, some, [], pos, find, inr, ◌⊎◌, ◌==◌, ◌&&◌, count, update, select, ◌+ℤ◌, add64,
}
use e_commerce_be.Shared.{ok}
use e_commerce_be.Words.{pending, confirmed, no_text, cancelled}
use e_commerce_be.Models.{Order, SellerOrder}
use e_commerce_be.Store.{Db, commit, enqueue, insert_movement}
use e_commerce_be.Inventory.{adjust_inventory, add_stock}
use e_commerce_be.Inventory.Ledger.{Ledger}
use e_commerce_be.Inventory.Adjust.{adjust_inventory-Ledger}
use e_commerce_be.Order.Fulfill.{
  child_is, fulfill, internal_count, internal_in_order, advance, check_and_move, move_child,
  set_child_status, set_order_status, sync_parent, all_delivered, pay_on_delivery, ship, deliver,
}
use e_commerce_be.Order.Cancel.{
  cancel, cancel_found, cancel_pending, restock, items_of, mark_cancelled,
}
use e_commerce_be.Order.Cancel.Laws.{IsCancelled, cancel-IsCancelled}
use e_commerce_be.Order.Lifecycle.{
  Step, fulfils, cancels, Steps, here, next, Advances, Step-Advances, Steps-IsFinal,
}
use e_commerce_be.Tests.Rows.{placed, seller_order_row}

abbrev confirmed_db : Db
confirmed_db = commit placed (fulfill 3 20 confirmed no_text [] placed)

fulfill_run : fulfill 3 20 confirmed no_text [] placed ≡ ok (tt, confirmed_db)
unfolding fulfill internal_count internal_in_order advance check_and_move move_child
    set_child_status set_order_status sync_parent all_delivered pay_on_delivery ship deliver find
    count update enqueue
fulfill_run = refl

abbrev cancelled_db : Db
cancelled_db = commit placed (cancel 1 10 placed)

cancel_run : cancel 1 10 placed ≡ ok (tt, cancelled_db)
unfolding cancel cancel_found cancel_pending restock items_of mark_cancelled set_order_status
    add_stock insert_movement enqueue find count update select ◌+ℤ◌
cancel_run = refl

cancel-IsCancelled_example :
    (o : Order) × (find (λ o. o.id == 10 && o.user_id == 1) placed.orders ≡ some o)
    × (((o.status ≡ cancelled) × (cancelled_db ≡ placed)) ⊎ IsCancelled o 10 placed cancelled_db)
cancel-IsCancelled_example = cancel-IsCancelled 1 10 placed cancelled_db cancel_run

confirming : Step placed confirmed_db
confirming = fulfils 3 20 confirmed no_text [] fulfill_run

placed_row : find (child_is 20) placed.seller_orders ≡ some (seller_order_row pending)
unfolding find
placed_row = refl

Step-Advances_example :
    (c : SellerOrder) × (find (child_is 20) confirmed_db.seller_orders ≡ some c)
    × Advances pending c.status
Step-Advances_example =
    Step-Advances 20 {db = placed} {db' = confirmed_db} confirming (seller_order_row pending)
      placed_row

-- The cancelled order is cancelled once more.
again_run : cancel 1 10 cancelled_db ≡ ok (tt, cancelled_db)
unfolding cancel cancel_found cancel_pending restock items_of mark_cancelled set_order_status
    add_stock insert_movement enqueue find count update select ◌+ℤ◌
again_run = refl

repeating : Steps cancelled_db cancelled_db
repeating = next {db1 = cancelled_db} here (cancels 1 10 again_run)

cancelled_row : find (child_is 20) cancelled_db.seller_orders ≡ some (seller_order_row cancelled)
unfolding cancel cancel_found cancel_pending restock items_of mark_cancelled set_order_status
    add_stock insert_movement enqueue find count update select ◌+ℤ◌
cancelled_row = refl

Steps-IsFinal_example :
    (c : SellerOrder) × (find (child_is 20) cancelled_db.seller_orders ≡ some c)
    × (c.status ≡ cancelled)
Steps-IsFinal_example =
    Steps-IsFinal 20 {db = cancelled_db} {db' = cancelled_db} repeating (seller_order_row cancelled)
      cancelled_row (inr refl)

abbrev adjusted_db : Db
adjusted_db = commit placed (adjust_inventory 3 40 (pos 5) placed)

adjust_run : adjust_inventory 3 40 (pos 5) placed ≡ ok (tt, adjusted_db)
unfolding adjust_inventory add_stock insert_movement enqueue find update add64
adjust_run = refl

adjust_inventory-Ledger_example : Ledger 40 placed adjusted_db
adjust_inventory-Ledger_example =
    adjust_inventory-Ledger 40 3 40 (pos 5) placed adjusted_db adjust_run
