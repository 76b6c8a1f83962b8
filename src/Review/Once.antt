-- ===== src/Review/Once.antt =====
-- The reviews of one order item, over histories of Create and Hide.
use mathlib.Core.Logic.Or
use mathlib.Core.List.{Mem, mem-cons}
use e_commerce_be.Prelude.{
  Bool, Option, true, none, some, ℕ, ◌≡◌, refl, ◌≤◌, ℤ, pos, ◌≤ℤ◌, inl, inr, Bool-cases, find_holds,
  true, false, none, some, List, [], ◌∷◌, count, find, update, count-update, arith,
}
use e_commerce_be.Shared.{Uuid, ok, is_some}
use e_commerce_be.Text.{byte_len}
use e_commerce_be.Words.{delivered}
use e_commerce_be.Models.{Order, SellerOrder}
use e_commerce_be.Review.{
  Bought, delivered_to, ordered_by, Review, ReviewDb, about, reviewable, create_review,
  insert_review, announce, hide_review, concealed, review_is, bad_review,
}

create_review_ok :
    (user item : Uuid) (rating : ℤ) (comment : List ℕ) (v : Review) (db db' : ReviewDb)
    → create_review user item rating comment db ≡ ok (v, db')
    → (find (about item) db.reviews ≡ none)
      × (db'.reviews ≡ v ∷ db.reviews)
      × (v.order_item_id ≡ some item)
      × (v.user_id ≡ user)
      × (is_some (find (reviewable user item db) db.lines) ≡ true)
      × (bad_review v.rating v.comment ≡ false)
unfolding create_review insert_review announce
create_review_ok user item rating comment v db db' h =
    (ground arith, ground arith, ground arith, ground arith, ground arith, ground arith)

hide_review_ok :
    (user id : Uuid) (db db' : ReviewDb)
    → hide_review user id db ≡ ok (tt, db')
    → db'.reviews ≡ update (review_is id) concealed db.reviews
unfolding hide_review announce
hide_review_ok user id db db' h = ground arith

none_left :
    (item : Uuid) (rs : List Review) → find (about item) rs ≡ none → count (about item) rs ≡ 0
unfolding count find
none_left item [] lost = refl
none_left item (x ∷ xs) lost = ground (arith, none_left item xs)

review_bounds :
    (rating : ℤ) (comment : List ℕ)
    → bad_review rating comment ≡ false
    → (pos 1 ≤ℤ rating) × (rating ≤ℤ pos 5) × (byte_len comment ≤ 5000)
review_bounds rating comment sound = (ground arith, ground arith, ground arith)

-- The row that a query finds is one of the table.
find_Mem {ℓ} : {A : Type ℓ} (p : A → Bool) (xs : List A) (x : A) → find p xs ≡ some x → Mem x xs
unfolding find
find_Mem p [] x found = cc
find_Mem p (y ∷ ys) x found = elim (Bool-cases (p y)) [
  | inl here ↦ mem-cons.1 (Or.inl (ground (arith, found, here)))
  | inr away ↦ mem-cons.1 (Or.inr (find_Mem p ys x (ground (arith, found, away))))
]

-- The user ordered the item, in an order of which the part with the item was delivered.
pub record IsDelivered (user item : Uuid) (db : ReviewDb) : Type 0 where
  pub line : Bought
  pub part : SellerOrder
  pub order : Order
  pub has_line : Mem line db.lines
  pub has_part : Mem part db.seller_orders
  pub has_order : Mem order db.orders
  pub of_item : line.id ≡ item
  pub in_part : part.id ≡ line.seller_order_id
  pub in_order : order.id ≡ part.order_id
  pub was_delivered : part.status ≡ delivered
  pub by_user : order.user_id ≡ user

is_some-found {ℓ} : {A : Type ℓ} (o : Option A) → is_some o ≡ true → (x : A) × (o ≡ some x)
is_some-found none h = cc
is_some-found (some x) h = (x, refl)

reviewable-IsDelivered :
    (user item : Uuid) (db : ReviewDb)
    → is_some (find (reviewable user item db) db.lines) ≡ true
    → IsDelivered user item db
reviewable-IsDelivered user item db h =
    let (line, found) = is_some-found (find (reviewable user item db) db.lines) h in
    let fits = find_holds (reviewable user item db) db.lines line found in
    let parts = delivered_to user line.seller_order_id db in
    let (part, found2) = is_some-found (find parts db.seller_orders) (ground (arith, fits)) in
    let fits2 = find_holds parts db.seller_orders part found2 in
    let orders = ordered_by user part.order_id in
    let (order, found3) = is_some-found (find orders db.orders) (ground (arith, fits2)) in
    let fits3 = find_holds orders db.orders order found3 in
    record {
      line = line;
      part = part;
      order = order;
      has_line = find_Mem (reviewable user item db) db.lines line found;
      has_part = find_Mem parts db.seller_orders part found2;
      has_order = find_Mem orders db.orders order found3;
      of_item = ground (arith, fits);
      in_part = ground (arith, fits2);
      in_order = ground (arith, fits3);
      was_delivered = ground (arith, fits2);
      by_user = ground (arith, fits3);
    }

-- A successful call of Create or Hide, or a change of the other tables by another module.
pub data Step (db db' : ReviewDb) : Type 0 where
  reviewed :
      (user item : Uuid) (rating : ℤ) (comment : List ℕ) (v : Review)
      → create_review user item rating comment db ≡ ok (v, db')
      → Step db db'
  hid : (user id : Uuid) → hide_review user id db ≡ ok (tt, db') → Step db db'
  elsewhere : db'.reviews ≡ db.reviews → Step db db'

pub data Steps (db : ReviewDb) : ReviewDb → Type 0 where
  start : Steps db db
  after : {mid last : ReviewDb} → Steps db mid → Step mid last → Steps db last

Step_keeps :
    (item : Uuid) (db db' : ReviewDb)
    → Step db db'
    → count (about item) db.reviews ≤ count (about item) db'.reviews
unfolding count
Step_keeps item db db' (reviewed user i rating comment v h) =
    let (new, es, at, by, bought, sound) = create_review_ok user i rating comment v db db' h in
    rw es (ground arith)
Step_keeps item db db' (hid user id h) =
    let es = hide_review_ok user id db db' h in
    let same = count-update (about item) (review_is id) concealed (λ r. refl) db.reviews in
    rw es (rw same (ground arith))
Step_keeps item db db' (elsewhere es) = rw es (ground arith)

Steps_keeps :
    (item : Uuid) (db db' : ReviewDb)
    → Steps db db'
    → count (about item) db.reviews ≤ count (about item) db'.reviews
Steps_keeps item db _ start = omega arith
Steps_keeps item db db' (after {mid} steps s) =
    omega (arith, Steps_keeps item db mid steps, Step_keeps item mid db' s)

-- After Create has made a review of an order item, whatever calls of Create and Hide succeed and
-- whatever other modules do to other tables, no further Create of that item succeeds, and that
-- first review was the user's who had ordered the item, of a seller order that was delivered, with a
-- rating from 1 to 5 and a comment of at most 5000 bytes.
pub reviewed_once :
    (user item : Uuid) (rating : ℤ) (comment : List ℕ) (v : Review) (db db1 db2 db3 : ReviewDb)
    (user' : Uuid) (rating' : ℤ) (comment' : List ℕ) (v' : Review)
    → create_review user item rating comment db ≡ ok (v, db1)
    → Steps db1 db2
    → (¬ (create_review user' item rating' comment' db2 ≡ ok (v', db3)))
      × (v.user_id ≡ user)
      × IsDelivered user item db
      × (pos 1 ≤ℤ v.rating)
      × (v.rating ≤ℤ pos 5)
      × (byte_len v.comment ≤ 5000)
unfolding count
reviewed_once user item rating comment v db db1 db2 db3 user' rating' comment' v' h steps =
    let (new, es, at, by, bought, sound) = create_review_ok user item rating comment v db db1 h in
    let le = Steps_keeps item db1 db2 steps in
    let one : 1 ≤ count (about item) db1.reviews = rw es (ground (arith, at)) in
    let twice : ¬ (create_review user' item rating' comment' db2 ≡ ok (v', db3)) = λ h'.
      let again = (create_review_ok user' item rating' comment' v' db2 db3 h').0 in
      let gone = none_left item db2.reviews again in omega (arith, one, le, gone) in
    let (low, high, short) = review_bounds v.rating v.comment sound in
    (twice, by, reviewable-IsDelivered user item db bought, low, high, short)
