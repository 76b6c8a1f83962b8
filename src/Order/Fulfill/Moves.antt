-- ===== src/Order/Fulfill/Moves.antt =====
-- What `Fulfill` changes, and under which conditions.
use e_commerce_be.Prelude.{
  ℕ, ◌≡◌, ◌≢◌, Bool, true, false, ◌&&◌, some, List, ◌==◌, if◌then◌else◌, find, update, arith, ◌⊎◌,
  inl, inr, Bool-cases, Option-cases, find_holds,
}
use mathlib.Core.Path.{subst, sym}
use e_commerce_be.Shared.{Word, Uuid, ok}
use e_commerce_be.Words.{delivered, processing, cancelled, cod, paid, shipping}
use e_commerce_be.Models.{Order, SellerOrder, Payment}
use e_commerce_be.Store.{Db, Call, ⊤, when, bind_ok, ◌>>◌}
use e_commerce_be.Order.Fulfill.{
  valid_transition, order_is, child_is, payment_of, all_delivered, move_child, check_and_move,
  advance, fulfill, ship, deliver, sync_parent, set_child_status,
}

abbrev pub with_status : Word → SellerOrder → SellerOrder
with_status status c = record c { status = status }

abbrev pub order_with_status : Word → Order → Order
order_with_status status o = record o { status = status }

-- What a move writes: the status of the seller order, and of its order.
pub record Writes (o : Order) (id : Uuid) (status : Word) (db db' : Db) : Type 0 where
  pub child : db'.seller_orders ≡ update (child_is id) (with_status status) db.seller_orders
  pub parent :
      db'.orders
      ≡ update
          (order_is o.id)
          (order_with_status (if all_delivered o.id db' then delivered else processing))
          db.orders
  pub stock : db'.variants ≡ db.variants
  pub items : db'.order_items ≡ db.order_items

-- The tables that a shipment's own steps leave alone.
abbrev pub SameOrders : Db → Db → Type 0
SameOrders db db' =
    (db'.seller_orders ≡ db.seller_orders)
    × (db'.orders ≡ db.orders)
    × (db'.variants ≡ db.variants)
    × (db'.order_items ≡ db.order_items)

ship-SameOrders :
    (child : Uuid) (status carrier : Word) (tracking : List ℕ) (db db' : Db)
    → ship child status carrier tracking db ≡ ok (tt, db')
    → SameOrders db db'
unfolding ship
ship-SameOrders child status carrier tracking db db' h = ground arith

deliver-SameOrders :
    (child : Uuid) (status : Word) (db db' : Db)
    → deliver child status db ≡ ok (tt, db')
    → SameOrders db db'
unfolding deliver
deliver-SameOrders child status db db' h = ground arith

when-SameOrders :
    (test : Bool) (m : Call ⊤) (db db' : Db)
    → (m db ≡ ok (tt, db') → SameOrders db db')
    → when test m db ≡ ok (tt, db')
    → SameOrders db db'
when-SameOrders true m db db' frame h = frame h
when-SameOrders false m db db' frame h = ground arith

sync_parent_frame :
    (o : Order) (child : Uuid) (status : Word) (db db' : Db)
    → sync_parent o child status db ≡ ok (tt, db')
    → (db'.seller_orders ≡ db.seller_orders)
      × (db'.orders
          ≡ update
              (order_is o.id)
              (order_with_status (if all_delivered o.id db then delivered else processing))
              db.orders)
      × (db'.variants ≡ db.variants)
      × (db'.order_items ≡ db.order_items)
unfolding sync_parent
sync_parent_frame o child status db db' h = ground arith

all_delivered_same :
    (o : Uuid) (db db' : Db)
    → db'.seller_orders ≡ db.seller_orders
    → all_delivered o db ≡ all_delivered o db'
unfolding all_delivered
all_delivered_same o db db' e = rw e

written :
    (o : Order) (id : Uuid) (status : Word) (db db1 db2 db3 db' : Db)
    → set_child_status id status db ≡ ok (tt, db1)
    → SameOrders db1 db2
    → SameOrders db2 db3
    → (db'.seller_orders ≡ db3.seller_orders)
      × (db'.orders
          ≡ update
              (order_is o.id)
              (order_with_status (if all_delivered o.id db3 then delivered else processing))
              db3.orders)
      × (db'.variants ≡ db3.variants)
      × (db'.order_items ≡ db3.order_items)
    → Writes o id status db db'
unfolding set_child_status
written o id status db db1 db2 db3 db' e shipped arrived synced = record {
  child = ground arith;
  parent = ground (arith, all_delivered_same o.id db3 db');
  stock = ground arith;
  items = ground arith;
}

pub move_child-Writes :
    (o : Order) (id : Uuid) (status carrier : Word) (tracking : List ℕ) (db db' : Db)
    → move_child o id status carrier tracking db ≡ ok (tt, db')
    → Writes o id status db db'
unfolding move_child
move_child-Writes o id status carrier tracking db db' h =
    let sync : Call ⊤ = sync_parent o id status in
    let arrive : Call ⊤ = when (status == delivered) (deliver id status) in
    let leave : Call ⊤ = when (status == shipping) (ship id status carrier tracking) in
    let (_, db1, e1, h1) =
      bind_ok (λ _. leave >> (arrive >> sync)) (set_child_status id status) db h in
    let (_, db2, e2, h2) = bind_ok (λ _. arrive >> sync) leave db1 h1 in
    let (_, db3, e3, h3) = bind_ok (λ _. sync) arrive db2 h2 in
    let shipped =
      when-SameOrders (status == shipping) (ship id status carrier tracking) db1 db2
        (ship-SameOrders id status carrier tracking db1 db2) e2 in
    let arrived =
      when-SameOrders (status == delivered) (deliver id status) db2 db3
        (deliver-SameOrders id status db2 db3) e3 in
    let synced = sync_parent_frame o id status db3 db' h3 in
    written o id status db db1 db2 db3 db' e1 shipped arrived synced

-- What the guards of a move establish.
pub record IsAllowed (c : SellerOrder) (o : Order) (status : Word) (db : Db) : Type 0 where
  pub transition : valid_transition c.status status ≡ true
  pub open_order : o.status ≢ cancelled
  pub payment : Payment
  pub found : find (payment_of o.id) db.payments ≡ some payment
  pub settled : (payment.method ≡ cod) ⊎ (payment.status ≡ paid)

check_and_move_lem :
    (c : SellerOrder) (o : Order) (id : Uuid) (status carrier : Word) (tracking : List ℕ)
    (db db' : Db)
    → check_and_move c o id status carrier tracking db ≡ ok (tt, db')
    → IsAllowed c o status db × (move_child o id status carrier tracking db ≡ ok (tt, db'))
unfolding check_and_move
check_and_move_lem c o id status carrier tracking db db' h =
    elim (Option-cases (find (payment_of o.id) db.payments)) [
      | inl lost ↦ ground arith
      | inr (pay, e) ↦ (
        record {
          transition = ground arith;
          open_order = ground arith;
          payment = pay;
          found = e;
          settled = ground arith;
        },
        ground arith,
      )
    ]

-- What a call of `Fulfill` that succeeds has done: nothing, where the seller order has the status
-- already, or an allowed move.
abbrev pub Fulfilled : Uuid → Word → SellerOrder → Order → Db → Db → Type 0
Fulfilled id status c o db db' =
    ((c.status ≡ status) × (db' ≡ db)) ⊎ (IsAllowed c o status db × Writes o id status db db')

advance_lem :
    (c : SellerOrder) (o : Order) (id : Uuid) (status carrier : Word) (tracking : List ℕ)
    (db db' : Db)
    → advance c o id status carrier tracking db ≡ ok (tt, db')
    → Fulfilled id status c o db db'
unfolding advance
advance_lem c o id status carrier tracking db db' h = elim (Bool-cases (c.status == status)) [
  | inl done ↦ inl (ground arith, ground arith)
  | inr todo ↦
      let (allowed, moved) =
        check_and_move_lem c o id status carrier tracking db db' (ground arith) in
      inr (allowed, move_child-Writes o id status carrier tracking db db' moved)
]

find_order :
    (db : Db) (id : Uuid) (o : Order)
    → find (order_is id) db.orders ≡ some o
    → find (order_is o.id) db.orders ≡ some o
find_order db id o e =
    let same : o.id ≡ id = ground (arith, find_holds (order_is id) db.orders o e) in
    subst (λ k. find (order_is k) db.orders ≡ some o) (sym same) e

pub fulfill-Fulfilled :
    (seller id : Uuid) (status carrier : Word) (tracking : List ℕ) (db db' : Db)
    → fulfill seller id status carrier tracking db ≡ ok (tt, db')
    → (c : SellerOrder) × (o : Order) × (find (child_is id) db.seller_orders ≡ some c)
      × (find (order_is o.id) db.orders ≡ some o)
      × Fulfilled id status c o db db'
unfolding fulfill
fulfill-Fulfilled seller id status carrier tracking db db' h =
    let mine : SellerOrder → Bool = λ c. c.id == id && c.seller_id == seller in
    elim (Option-cases (find mine db.seller_orders)) [
      | inl lost ↦ ground arith
      | inr (before, e1) ↦ elim (Option-cases (find (order_is before.order_id) db.orders)) [
        | inl lost ↦ ground arith
        | inr (o, e2) ↦ elim (Option-cases (find (child_is id) db.seller_orders)) [
          | inl lost ↦ ground arith
          | inr (c, e3) ↦ (
            c,
            o,
            e3,
            find_order db before.order_id o e2,
            advance_lem c o id status carrier tracking db db' (ground arith),
          )
        ]
      ]
    ]
