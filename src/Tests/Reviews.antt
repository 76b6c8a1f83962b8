-- ===== src/Tests/Reviews.antt =====
-- User 1 reviews item 7, which was delivered; an administrator hides the review.
use e_commerce_be.Prelude.{
  ℕ, ◌≡◌, ◌≤◌, ◌≤ℤ◌, refl, arith, ℤ, pos, Bool, true, false, none, some, List, [], ◌∷◌, find,
}
use e_commerce_be.Shared.{ok, err}
use e_commerce_be.Text.{codes, byte_len}
use e_commerce_be.Words.{no_text, delivered, admin}
use e_commerce_be.Review.{Review, ReviewDb, create_review, hide_review}
use e_commerce_be.Review.Once.{IsDelivered, start, after, hid, reviewed_once}

abbrev delivered_db : ReviewDb
delivered_db = record {
  users = record { id = 1; deleted_at = none } ∷ record { id = 9; deleted_at = none } ∷ [];
  user_roles = record { user_id = 9; role = admin; role_deleted_at = none } ∷ [];
  variants =
      record {
        id = 3;
        product_id = 4;
        sku = no_text;
        name = no_text;
        price = pos 10;
        stock = pos 5;
        deleted_at = none;
      }
      ∷ [];
  orders =
      record {
        id = 5;
        user_id = 1;
        status = no_text;
        currency = no_text;
        subtotal = pos 10;
        discount = pos 0;
        shipping_fee = pos 0;
        total = pos 10;
        shipping_address_id = 0;
        address_snapshot = no_text;
        idempotency_key = [];
        checkout_selection = [];
        coupon_code = [];
        deleted_at = none;
      }
      ∷ [];
  seller_orders =
      record {
        id = 6;
        order_id = 5;
        seller_id = 2;
        status = delivered;
        subtotal = pos 10;
        discount = pos 0;
        commission = pos 0;
        total = pos 10;
        deleted_at = none;
      }
      ∷ [];
  lines = record { id = 7; seller_order_id = 6; variant_id = 3 } ∷ [];
  reviews = [];
  outbox = [];
  next_id = 8;
}

abbrev good : List ℕ
good = codes "good"

abbrev review : Review
review = elim (create_review 1 7 (pos 5) good delivered_db) [
  | ok r ↦ r.0
  | err e ↦ record {
    id = 0;
    user_id = 0;
    product_id = 0;
    order_item_id = none;
    rating = pos 0;
    comment = [];
    status = 0;
    deleted_at = none;
  }
]

abbrev reviewed_db : ReviewDb
reviewed_db = elim (create_review 1 7 (pos 5) good delivered_db) [
  | ok r ↦ r.1
  | err e ↦ delivered_db
]

abbrev hidden_db : ReviewDb
hidden_db = elim (hide_review 9 8 reviewed_db) [ ok r ↦ r.1 | err e ↦ delivered_db ]

review_run : create_review 1 7 (pos 5) good delivered_db ≡ ok (review, reviewed_db)
unfolding create_review e_commerce_be.Text.byte_len find
review_run = refl

hide_run : hide_review 9 8 reviewed_db ≡ ok (tt, hidden_db)
unfolding hide_review e_commerce_be.Prelude.count create_review e_commerce_be.Text.byte_len find
hide_run = refl

reviewed_once_example :
    (¬ (create_review 1 7 (pos 1) [] hidden_db ≡ ok (review, hidden_db)))
    × (review.user_id ≡ 1)
    × IsDelivered 1 7 delivered_db
    × (pos 1 ≤ℤ review.rating)
    × (review.rating ≤ℤ pos 5)
    × (byte_len review.comment ≤ 5000)
reviewed_once_example =
    reviewed_once 1 7 (pos 5) good review delivered_db reviewed_db hidden_db hidden_db 1 (pos 1) []
      review review_run (after start (hid 9 8 hide_run))
