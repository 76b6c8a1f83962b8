-- ===== src/Shipping/Progress/Repeat.antt =====
-- A driver's report that is sent again.
use mathlib.Core.Path.{subst}
use e_commerce_be.Prelude.{
  ℕ, ◌≡◌, refl, ap, sym, ◌∙◌, Bool, true, false, none, some, List, [], ◌∷◌, ◌==◌, if◌then◌else◌,
  find, update, arith, inl, inr, ◌⊎◌, Option-cases, Bool-cases, find-update, find_holds,
  find-update_const,
}
use e_commerce_be.Text.{trim_space, trim_left, trim_right, is_blank, is_empty}
use e_commerce_be.Shared.{Uuid, ok, text_eq_refl, Result-cases}
use e_commerce_be.Words.{cancelled, delivered, processing}
use e_commerce_be.Models.{Order, SellerOrder, Shipment, ShipmentEvent}
use e_commerce_be.Store.{Db, same_request}
use e_commerce_be.Order.Fulfill.{order_is, child_is}
use e_commerce_be.Shipping.Drivers.{require_driver, active, profile}
use e_commerce_be.Shipping.Rows.{shipment_is, live_child, undelivered, mutate}
use e_commerce_be.Shipping.Locked.{Locked, mutate_ok, mutate-Locked}
use e_commerce_be.Order.Fulfill.Moves.{with_status, order_with_status}
use e_commerce_be.Shipping.Create.{has_driver}
use e_commerce_be.Shipping.Progress.Writes.{Progressed, progress-Progressed}
use e_commerce_be.Shipping.Progress.{
  Update, bad_update, contradicts, repeat_update, child_status, updated_shipment, progress,
  update_rows, update_status,
}

-- The event of the report answers for its key.
event_again :
    (u id : Uuid) (key : List ℕ) (input : Update) (v : Shipment) (c : SellerOrder) (o : Order)
    (db db' : Db)
    → v.id ≡ id
    → is_empty key ≡ false
    → Progressed u id key input v c o db db'
    → (e : ShipmentEvent) × (find (same_request id key) db'.shipment_events ≡ some e)
      × (contradicts u input e ≡ false)
unfolding contradicts find
event_again u id key input v c o db db' same named p =
    let e : ShipmentEvent = record {
      actor_id = some u;
      request_id = if is_empty key then none else some key;
      shipment_id = v.id;
      status = input.status;
      description = input.reason;
    } in
    let hit : same_request id key e ≡ true = ground (arith, text_eq_refl key) in
    (e, rw (p.events) (ground (arith, text_eq_refl key)), ground (arith, text_eq_refl input.reason))

parent_open :
    (n : ℕ) (o : Order)
    → ((order_with_status (if n == 0 then delivered else processing) o).status == cancelled) ≡ false
parent_open n o = ground arith

-- The row that a query finds, once it is updated.
row_updated {ℓ} :
    {A : Type ℓ} (q p : A → Bool) (f : A → A) (xs ys : List A) (x : A)
    → ((y : A) → q (f y) ≡ q y)
    → ys ≡ update p f xs
    → find q xs ≡ some x
    → p x ≡ true
    → find q ys ≡ some (f x)
row_updated q p f xs ys x same e row hit =
    ap (find q) e
    ∙ (find-update q p f same xs
        ∙ (ap (λ o. elim o [ none ↦ none | some y ↦ some (if p y then f y else y) ]) row
            ∙ ap (λ t. some (if t then f x else x)) hit))

self_id : (n : ℕ) → (n == n) ≡ true
self_id n = ground arith

-- The rows of the report, after it: `mutate` finds them again.
Locked-again :
    (u id : Uuid) (key : List ℕ) (input : Update) (v : Shipment) (c : SellerOrder) (o : Order)
    (db db' : Db)
    → Locked id db v c o
    → Progressed u id key input v c o db db'
    → (c' : SellerOrder) × (o' : Order) × Locked id db' (updated_shipment input v) c' o'
Locked-again u id key input v c o db db' l p =
    let st = if undelivered c.order_id db' == 0 then delivered else processing in
    let held = find_holds (shipment_is id) db.shipments v l.shipment_row in
    let mine : v.id ≡ id = ground arith in
    (
      with_status (child_status input.status) c,
      order_with_status st o,
      record {
        shipment_row =
            ap (find (shipment_is id)) p.shipments
            ∙ find-update_const (shipment_is id) (λ t. t.id == v.id) (updated_shipment input v) v
                db.shipments (λ x e. ground arith) (ground arith) l.shipment_row;
        child_row =
            row_updated (live_child v.seller_order_id) (child_is c.id)
              (with_status (child_status input.status)) db.seller_orders db'.seller_orders c
              (λ y. refl) p.children l.child_row (self_id c.id);
        order_row =
            row_updated (order_is c.order_id) (order_is c.order_id) (order_with_status st) db.orders
              db'.orders o (λ y. refl) p.parent l.order_row
              (find_holds (order_is c.order_id) db.orders o l.order_row);
        open_order = parent_open (undelivered c.order_id db') o;
      },
    )

shipment_id :
    (id : Uuid) (v : Shipment) (db : Db) (c : SellerOrder) (o : Order)
    → Locked id db v c o
    → v.id ≡ id
shipment_id id v db c o l =
    let held = find_holds (shipment_is id) db.shipments v l.shipment_row in ground arith

require_driver_same :
    (u : Uuid) (db db' : Db)
    → db'.users ≡ db.users
    → db'.drivers ≡ db.drivers
    → require_driver u db ≡ ok (tt, db)
    → require_driver u db' ≡ ok (tt, db')
unfolding require_driver active profile
require_driver_same u db db' a b h = ground arith

-- `require_driver` writes nothing.
require_driver_ok : (u : Uuid) (db db' : Db) → require_driver u db ≡ ok (tt, db') → db' ≡ db
unfolding require_driver active profile
require_driver_ok u db db' h = ground arith

-- What `Update` made of the locked rows: it was a repetition, or the report was new.
rows_ok :
    (u id : Uuid) (key : List ℕ) (input : Update) (v : Shipment) (c : SellerOrder) (o : Order)
    (db db' : Db)
    → update_rows u id key input v c o db ≡ ok (tt, db')
    → (require_driver u db ≡ ok (tt, db))
      × (has_driver u v ≡ true)
      × ((db' ≡ db)
          ⊎ ((find (same_request id key) db.shipment_events ≡ none)
              × (progress u key input v c o db ≡ ok (tt, db'))))
unfolding update_rows repeat_update
rows_ok u id key input v c o db db' h = elim (Result-cases (require_driver u db)) [
  | inl (e, r) ↦ ground arith
  | inr ((t, d), r) ↦
      let same : d ≡ db = require_driver_ok u db d r in
      let driving : require_driver u db ≡ ok (tt, db) = r ∙ ap (λ x. ok (tt, x)) same in
      elim (Bool-cases (has_driver u v)) [
        | inr other ↦ ground arith
        | inl mine ↦ elim (Option-cases (find (same_request id key) db.shipment_events)) [
          | inl fresh ↦ (driving, mine, inr (fresh, ground arith))
          | inr (old, found) ↦ (driving, mine, inl (ground arith))
        ]
      ]
]

-- On rows that a report has written, the same report passes every check and stops.
rows_again :
    (u id : Uuid) (key : List ℕ) (input : Update) (v : Shipment) (c c' : SellerOrder) (o o' : Order)
    (db db' : Db)
    → v.id ≡ id
    → is_empty key ≡ false
    → require_driver u db ≡ ok (tt, db)
    → has_driver u v ≡ true
    → Progressed u id key input v c o db db'
    → update_rows u id key input (updated_shipment input v) c' o' db' ≡ ok (tt, db')
unfolding update_rows repeat_update
rows_again u id key input v c c' o o' db db' same named driving mine p =
    let (e, found, agrees) = event_again u id key input v c o db db' same named p in
    let awake = require_driver_same u db db' p.users p.drivers driving in
    let money = p.cash in ground arith

-- The request's own guards, passed.
guard_ok :
    (u id : Uuid) (key : List ℕ) (input : Update) (db db' : Db)
    → update_status u id key input db ≡ ok (tt, db')
    → (bad_update key input ≡ false) × (mutate id (update_rows u id key input) db ≡ ok (tt, db'))
unfolding update_status
guard_ok u id key input db db' h = elim (Bool-cases (bad_update key input)) [
  | inl bad ↦ ground arith
  | inr good ↦ (good, ground arith)
]

blank_nil : is_blank [] ≡ true
unfolding trim_space trim_left trim_right
blank_nil = refl

named_key : (key : List ℕ) (input : Update) → bad_update key input ≡ false → is_empty key ≡ false
unfolding bad_update
named_key [] input h = ground (arith, blank_nil)
named_key (x ∷ xs) input h = refl

update_again :
    (u id : Uuid) (key : List ℕ) (input : Update) (db : Db)
    → bad_update key input ≡ false
    → update_status u id key input db ≡ mutate id (update_rows u id key input) db
unfolding update_status
update_again u id key input db h = ground arith

-- A driver's report that was accepted is accepted again under the same key, and then changes
-- nothing.
pub update_status_idem :
    (u id : Uuid) (key : List ℕ) (input : Update) (db db' : Db)
    → update_status u id key input db ≡ ok (tt, db')
    → update_status u id key input db' ≡ ok (tt, db')
update_status_idem u id key input db db' h =
    let (good, written) = guard_ok u id key input db db' h in
    let (v, c, o, l, rows) = mutate_ok id (update_rows u id key input) db db' written in
    let (driving, mine, outcome) = rows_ok u id key input v c o db db' rows in
    elim outcome [
      | inl same ↦
          subst (λ d. update_status u id key input d ≡ ok (tt, d)) (sym same)
            (h ∙ ap (λ x. ok (tt, x)) same)
      | inr (fresh, new) ↦
          let p = progress-Progressed u id key input v c o db db' new in
          let (c', o', again) = Locked-again u id key input v c o db db' l p in
          update_again u id key input db' good
          ∙ mutate-Locked id (update_rows u id key input) db' (updated_shipment input v) c' o' again
          ∙ rows_again u id key input v c c' o o' db db' (shipment_id id v db c o l)
              (named_key key input good) driving mine p
    ]
