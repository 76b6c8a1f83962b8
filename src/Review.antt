-- ===== src/Review.antt =====
-- internal/modules/review: reviews of delivered order items.
pub mod Once
use e_commerce_be.Prelude.{
  ℕ, suc, Bool, true, false, not, ◌&&◌, ◌||◌, Option, none, some, List, [], ◌∷◌, ◌==◌, ℤ, pos, ltb,
  ltb_ℤ, find, count, update,
}
use e_commerce_be.Shared.{Word, Uuid, forbidden, invalid, not_found, constraint, ok, err, is_some}
use e_commerce_be.Text.{byte_len}
use e_commerce_be.Words.{delivered, published, hidden, admin}
use e_commerce_be.Models.{User, UserRole, ProductVariant, Order, SellerOrder}
use e_commerce_be.Tx.{Tx, ⊤, ◌>>=◌, ◌>>◌, first, modify, raise_if}

-- The columns of order_items that a review reads.
pub record Bought : Type 0 where
  pub id : Uuid
  pub seller_order_id : Uuid
  pub variant_id : Uuid

pub record Review : Type 0 where
  pub id : Uuid
  pub user_id : Uuid
  pub product_id : Uuid
  pub order_item_id : Option Uuid
  pub rating : ℤ
  pub comment : List ℕ
  pub status : Word
  pub deleted_at : Option ℕ

-- `outbox` holds the product of each notice review_search_updated.
pub record ReviewDb : Type 0 where
  pub users : List User
  pub user_roles : List UserRole
  pub variants : List ProductVariant
  pub orders : List Order
  pub seller_orders : List SellerOrder
  pub lines : List Bought
  pub reviews : List Review
  pub outbox : List Uuid
  pub next_id : Uuid

abbrev pub Call : Type 0 → Type 0
Call A = Tx ReviewDb A

abbrev pub ordered_by : Uuid → Uuid → Order → Bool
ordered_by user id o = o.id == id && o.user_id == user

abbrev pub delivered_to : Uuid → Uuid → ReviewDb → SellerOrder → Bool
delivered_to user id db so =
    so.id == id && so.status == delivered && is_some (find (ordered_by user so.order_id) db.orders)

-- The condition of `Create` on the row of order_items.
abbrev pub reviewable : Uuid → Uuid → ReviewDb → Bought → Bool
reviewable user item db l =
    l.id == item && is_some (find (delivered_to user l.seller_order_id db) db.seller_orders)

abbrev reviewed_variant : Uuid → ProductVariant → Bool
reviewed_variant id v = v.id == id

abbrev pub about : Uuid → Review → Bool
about item r = elim r.order_item_id [ none ↦ false | some i ↦ i == item ]

-- review_order_item_once
unfoldable pub insert_review : Uuid → Uuid → Uuid → ℤ → List ℕ → Call Review
insert_review user product item rating comment db =
    let row : Review = record {
      id = db.next_id;
      user_id = user;
      product_id = product;
      order_item_id = some item;
      rating = rating;
      comment = comment;
      status = published;
      deleted_at = none;
    } in
    elim (is_some (find (about item) db.reviews)) [
      | true ↦ err constraint
      | false ↦ ok (row, record db { reviews = row ∷ db.reviews; next_id = suc db.next_id })
    ]

unfoldable pub announce : Uuid → Call ⊤
announce product = modify λ db. record db { outbox = product ∷ db.outbox }

abbrev pub bad_review : ℤ → List ℕ → Bool
bad_review rating comment =
    ltb_ℤ rating (pos 1) || ltb_ℤ (pos 5) rating || ltb 5000 (byte_len comment)

unfoldable pub create_review : Uuid → Uuid → ℤ → List ℕ → Call Review
unfolding insert_review announce
create_review user item rating comment = do
  raise_if (bad_review rating comment) invalid
  line ← first (λ db. find (reviewable user item db) db.lines)
  variant ← first (λ db. find (reviewed_variant line.variant_id) db.variants)
  v ← insert_review user variant.product_id item rating comment
  announce v.product_id
  λ db. ok (v, db)

abbrev live_admin : Uuid → User → Bool
live_admin user u = u.id == user && not (is_some u.deleted_at)

abbrev administers : Uuid → ReviewDb → UserRole → Bool
administers user db r =
    r.user_id == user
    && r.role == admin
    && not (is_some r.role_deleted_at)
    && is_some (find (live_admin user) db.users)

abbrev shown : Uuid → Review → Bool
shown id r = r.id == id && not (is_some r.deleted_at)

abbrev pub review_is : Uuid → Review → Bool
review_is id r = r.id == id

abbrev pub concealed : Review → Review
concealed r = record r { status = hidden }

unfoldable pub hide_review : Uuid → Uuid → Call ⊤
unfolding announce
hide_review user id = do
  λ db. raise_if (count (administers user db) db.user_roles == 0) forbidden db
  v ← first (λ db. find (shown id) db.reviews)
  modify (λ db. record db { reviews = update (review_is id) concealed db.reviews })
  announce v.product_id
