-- ===== src/Order/Cancel/Laws.antt =====
-- What a cancellation does: the statuses, the stock, and the movements.
use e_commerce_be.Prelude.{
  ℤ, pos, ◌+ℤ◌, int_laws, select, if◌then◌else◌, ℕ, ◌≡◌, ◌≢◌, refl, ap, ◌∙◌, Bool, not, ◌&&◌, some,
  List, [], ◌∷◌, ◌==◌, find, update, count, arith, inl, inr, ◌⊎◌, Option-cases, Bool-cases,
}
use e_commerce_be.Shared.{Uuid, Word, ok, is_some}
use e_commerce_be.Words.{pending, cancelled, cod, paid, cancellation}
use e_commerce_be.Models.{Order, OrderItem, SellerOrder, InventoryMovement, Payment}
use e_commerce_be.Store.{Db, Call, ⊤, ◌>>◌, bind_ok, insert_movement}
use e_commerce_be.Inventory.{add_stock}
use e_commerce_be.Inventory.Ledger.{
  Ledger, Ledger-trans, Ledger-moved, shift-Ledger, same-Ledger, stock_of, moved, taken,
  add_stock_lem, insert_movement_lem,
}
use e_commerce_be.Order.Fulfill.{order_is, child_of, payment_of}
use e_commerce_be.Order.Fulfill.Moves.{with_status, order_with_status}
use e_commerce_be.Order.Cancel.{
  restock, returned_item, items_of, mark_cancelled, cancel_pending, cancel_found, cancel,
}

restock-Ledger :
    (v order : Uuid) (items : List OrderItem) (db db' : Db)
    → restock order items db ≡ ok (tt, db')
    → Ledger v db db'
unfolding restock
restock-Ledger v order [] db db' h = same-Ledger v db db' (ground arith) (ground arith)
restock-Ledger v order (i ∷ items) db db' h =
    let rest : Call ⊤ = restock order items in
    let record_it : Call ⊤ = insert_movement (returned_item order i) in
    let (_, db1, e1, h1) =
      bind_ok (λ _. record_it >> rest) (add_stock i.variant_id i.quantity) db h in
    let (_, db2, e2, h2) = bind_ok (λ _. rest) record_it db1 h1 in
    Ledger-trans v db db2 db'
      (shift-Ledger v i.variant_id i.quantity (returned_item order i) db db1 db2 e1 e2 refl refl)
      (restock-Ledger v order items db2 db' h2)

-- The movements after one for each item, of its variant and by its quantity, as the return of the
-- order.
unfoldable pub with_returns :
    Uuid → List OrderItem → List InventoryMovement → List InventoryMovement
with_returns order [] ms = ms
with_returns order (i ∷ is) ms = with_returns order is (
    record {
      variant_id = i.variant_id;
      quantity = i.quantity;
      kind = cancellation;
      reference_id = some order;
    }
    ∷ ms)

restock-with_returns :
    (order : Uuid) (items : List OrderItem) (db db' : Db)
    → restock order items db ≡ ok (tt, db')
    → db'.movements ≡ with_returns order items db.movements
unfolding restock with_returns
restock-with_returns order [] db db' h = ground arith
restock-with_returns order (i ∷ items) db db' h =
    let rest : Call ⊤ = restock order items in
    let record_it : Call ⊤ = insert_movement (returned_item order i) in
    let (_, db1, e1, h1) =
      bind_ok (λ _. record_it >> rest) (add_stock i.variant_id i.quantity) db h in
    let (_, db2, e2, h2) = bind_ok (λ _. rest) record_it db1 h1 in
    let (_, kept) = add_stock_lem 0 i.variant_id i.quantity db db1 e1 in
    let (_, added, _) = insert_movement_lem (returned_item order i) db1 db2 e2 in
    restock-with_returns order items db2 db' h2
    ∙ ap (with_returns order items) (added ∙ ap (λ ms. returned_item order i ∷ ms) kept)

regroup : (a b c : ℤ) → (b +ℤ a) +ℤ c ≡ a +ℤ (b +ℤ c)
regroup a b c = omega int_laws

moved-with_returns :
    (v order : Uuid) (items : List OrderItem) (ms : List InventoryMovement)
    → moved v (with_returns order items ms) ≡ moved v ms +ℤ taken v items
unfolding with_returns
moved-with_returns v order [] ms = omega int_laws
moved-with_returns v order (i ∷ items) ms =
    moved-with_returns v order items (returned_item order i ∷ ms)
    ∙ regroup (moved v ms) (if i.variant_id == v then i.quantity else pos 0) (taken v items)

-- The items of the order's seller orders.
abbrev pub items_in : Uuid → Db → List OrderItem
items_in order db =
    select
      (λ i. is_some (
        find (λ (c : SellerOrder). c.id == i.seller_order_id && c.order_id == order)
          db.seller_orders))
      db.order_items

abbrev pub payment_with_status : Word → Payment → Payment
payment_with_status status p = record p { status = status }

-- The tables that giving the stock back leaves alone.
abbrev SameRows : Db → Db → Type 0
SameRows db db' =
    (db'.orders ≡ db.orders) × (db'.seller_orders ≡ db.seller_orders) × (db'.payments ≡ db.payments)

restock-SameRows :
    (order : Uuid) (items : List OrderItem) (db db' : Db)
    → restock order items db ≡ ok (tt, db')
    → SameRows db db'
unfolding restock add_stock insert_movement
restock-SameRows order [] db db' h = ground arith
restock-SameRows order (i ∷ items) db db' h =
    let rest : Call ⊤ = restock order items in
    let record_it : Call ⊤ = insert_movement (returned_item order i) in
    let shift : Call ⊤ = add_stock i.variant_id i.quantity in
    let (_, db1, e1, h1) = bind_ok (λ _. record_it >> rest) shift db h in
    let (_, db2, e2, h2) = bind_ok (λ _. rest) record_it db1 h1 in
    let (o, c, p) = restock-SameRows order items db2 db' h2 in ground arith

-- What a cancellation of a pending order wrote, and what it required.
pub record IsCancelled (o : Order) (id : Uuid) (db db' : Db) : Type 0 where
  pub was_pending : o.status ≡ pending
  pub unmoved : count (λ c. c.order_id == id && not (c.status == pending)) db.seller_orders ≡ 0
  pub payment : Payment
  pub found : find (payment_of id) db.payments ≡ some payment
  pub unpaid : (payment.method ≡ cod) ⊎ (payment.status ≢ paid)
  pub parent : db'.orders ≡ update (order_is o.id) (order_with_status cancelled) db.orders
  pub children : db'.seller_orders ≡ update (child_of id) (with_status cancelled) db.seller_orders
  pub payments : db'.payments ≡ update (payment_of id) (payment_with_status cancelled) db.payments
  pub ledger : (v : Uuid) → Ledger v db db'
  pub returned : db'.movements ≡ with_returns id (items_in id db) db.movements
  pub restocked : (v : Uuid) → stock_of v db' ≡ stock_of v db +ℤ taken v (items_in id db)

mark_cancelled_frame :
    (o : Order) (id : Uuid) (db db' : Db)
    → mark_cancelled o id db ≡ ok (tt, db')
    → (db'.orders ≡ update (order_is o.id) (order_with_status cancelled) db.orders)
      × (db'.seller_orders ≡ update (child_of id) (with_status cancelled) db.seller_orders)
      × (db'.payments ≡ update (payment_of id) (payment_with_status cancelled) db.payments)
      × (db'.variants ≡ db.variants)
      × (db'.movements ≡ db.movements)
unfolding mark_cancelled
mark_cancelled_frame o id db db' h = ground arith

moved_children : Uuid → Db → ℕ
moved_children id db = count (λ c. c.order_id == id && not (c.status == pending)) db.seller_orders

-- The guards of `cancel_pending` passed, and the loop and the writes went through.
cancel_pending_ok :
    (o : Order) (id : Uuid) (db db' : Db)
    → cancel_pending o id db ≡ ok (tt, db')
    → (p : Payment) × (find (payment_of id) db.payments ≡ some p)
      × ((p.method ≡ cod) ⊎ (p.status ≢ paid))
      × (moved_children id db ≡ 0)
      × ((restock id (items_of id db) >> mark_cancelled o id) db ≡ ok (tt, db'))
unfolding cancel_pending moved_children
cancel_pending_ok o id db db' h = elim (Option-cases (find (payment_of id) db.payments)) [
  | inl lost ↦ ground arith
  | inr (p, e) ↦ (p, e, ground arith, ground arith, ground arith)
]

cancel_pending-IsCancelled :
    (o : Order) (id : Uuid) (db db' : Db)
    → o.status ≡ pending
    → cancel_pending o id db ≡ ok (tt, db')
    → IsCancelled o id db db'
unfolding moved_children items_of
cancel_pending-IsCancelled o id db db' was h =
    let (p, e, unpaid, unmoved, body) = cancel_pending_ok o id db db' h in
    let items = items_of id db in
    let (_, db1, e1, h1) = bind_ok (λ _. mark_cancelled o id) (restock id items) db body in
    let (o1, c1, p1) = restock-SameRows id items db db1 e1 in
    let (o2, c2, p2, v2, m2) = mark_cancelled_frame o id db1 db' h1 in
    let back : db'.movements ≡ with_returns id items db.movements =
      m2 ∙ restock-with_returns id items db db1 e1 in
    let ledger : (v : Uuid) → Ledger v db db' = λ v.
      Ledger-trans v db db1 db' (restock-Ledger v id items db db1 e1)
        (same-Ledger v db1 db' v2 m2) in
    record {
      was_pending = was;
      unmoved = unmoved;
      payment = p;
      found = e;
      unpaid = unpaid;
      parent = o2 ∙ ap (update (order_is o.id) (order_with_status cancelled)) o1;
      children = c2 ∙ ap (update (child_of id) (with_status cancelled)) c1;
      payments = p2 ∙ ap (update (payment_of id) (payment_with_status cancelled)) p1;
      ledger = ledger;
      returned = back;
      restocked = λ v.
          Ledger-moved v db db' (taken v items) (ledger v)
            (ap (moved v) back ∙ moved-with_returns v id items db.movements);
    }

-- A cancellation that succeeds found an order of the user that was cancelled already, and changed
-- nothing; or the order was pending, none of its seller orders had moved, and it was not a paid
-- online order: then the order, its seller orders and its payment are cancelled, a movement
-- of the kind `cancellation` was added for each item of the order, and the stock of every variant
-- grew by what the items of the order had taken of it.
pub cancel-IsCancelled :
    (user id : Uuid) (db db' : Db)
    → cancel user id db ≡ ok (tt, db')
    → (o : Order) × (find (λ o. o.id == id && o.user_id == user) db.orders ≡ some o)
      × (((o.status ≡ cancelled) × (db' ≡ db)) ⊎ IsCancelled o id db db')
unfolding cancel cancel_found
cancel-IsCancelled user id db db' h =
    let mine : Order → Bool = λ o. o.id == id && o.user_id == user in
    elim (Option-cases (find mine db.orders)) [
      | inl lost ↦ ground arith
      | inr (o, e) ↦ elim (Bool-cases (o.status == cancelled)) [
        | inl done ↦ (o, e, inl (ground arith, ground arith))
        | inr todo ↦ elim (Bool-cases (o.status == pending)) [
          | inl was ↦
              (o, e, inr (cancel_pending-IsCancelled o id db db' (ground arith) (ground arith)))
          | inr late ↦ ground arith
        ]
      ]
    ]
