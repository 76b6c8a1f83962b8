-- ===== src/Voucher/Preview.antt =====
-- `Preview` of internal/modules/voucher/service.go, and `CartLines` of repository.go. The price of a
-- line is computed by PostgreSQL, which raises an error where Go would wrap; the rows that the query
-- keeps are far below that.
use e_commerce_be.Prelude.{
  ℕ, Bool, true, false, not, ◌&&◌, ◌||◌, Option, none, some, List, [], ◌∷◌, ltb, ◌==◌,
  if◌then◌else◌, length, find, count, select, ℤ, pos, leb_ℤ, ◌*ℤ◌, add64, sub64,
}
use e_commerce_be.Shared.{Word, Uuid, invalid, conflict, is_some}
use e_commerce_be.Text.{is_empty}
use e_commerce_be.Words.{approved, no_text}
use e_commerce_be.Models.{User, Cart, CartItem, ProductVariant}
use e_commerce_be.Store.{Db, Call, ◌>>=◌, ◌>>◌, pure, gets, lift, raise_if}
use e_commerce_be.Directory.{Directory, SellerInfo}
use e_commerce_be.Cart.{live_variant, on_sale}
use e_commerce_be.Voucher.{Line, calculate}
use e_commerce_be.Voucher.Code.{normalize}
use e_commerce_be.Voucher.Offers.{Preview, find_code, one_rule, used}

abbrev pub is_in : Uuid → List Uuid → Bool
is_in id [] = false
is_in id (x ∷ xs) = (x == id) || is_in id xs

-- The map `seen`: an identifier is nil, or stands earlier in the list.
abbrev pub repeats : List Uuid → List Uuid → Bool
repeats seen [] = false
repeats seen (id ∷ ids) = id == 0 || is_in id seen || repeats (id ∷ seen) ids

-- `ORDER BY variant_id`
unfoldable pub insert_item : CartItem → List CartItem → List CartItem
insert_item i [] = i ∷ []
insert_item i (j ∷ items) =
    let rest = insert_item i items in
    if ltb j.variant_id i.variant_id then j ∷ rest else i ∷ j ∷ items

unfoldable pub by_variant : List CartItem → List CartItem
by_variant [] = []
by_variant (i ∷ items) = insert_item i (by_variant items)

-- `variant_id IN ?`, where there is a selection.
abbrev pub chosen : List Uuid → Uuid → Bool
chosen [] id = true
chosen (x ∷ xs) id = is_in id (x ∷ xs)

-- The rows of the live cart of a live user.
unfoldable pub in_cart : Uuid → List Uuid → Db → CartItem → Bool
in_cart user ids db i =
    is_some (
      find (λ (c : Cart). c.id == i.cart_id && c.user_id == user && not (is_some c.deleted_at))
        db.carts)
    && is_some (find (λ (u : User). u.id == user && not (is_some u.deleted_at)) db.users)
    && not (is_some i.deleted_at)
    && chosen ids i.variant_id

-- The conditions of the query on the variant and the product of a row.
abbrev pub purchasable : ProductVariant → CartItem → Bool
purchasable v i =
    leb_ℤ (pos 1) i.quantity
    && leb_ℤ i.quantity (pos 10000)
    && leb_ℤ (pos 0) v.price
    && leb_ℤ v.price (pos 1000000000000)
    && leb_ℤ i.quantity v.stock

-- The line of a row, where the joins find one.
unfoldable pub line_of : Db → CartItem → Option Line
line_of db i = elim (find (live_variant i.variant_id) db.variants) [
  | none ↦ none
  | some v ↦ elim (find (on_sale v.product_id) db.products) [
    | none ↦ none
    | some p ↦
        if purchasable v i
        then some (record { seller_id = p.seller_id; amount = v.price *ℤ i.quantity })
        else none
  ]
]

unfoldable pub lines_of : Db → List CartItem → List Line
lines_of db [] = []
lines_of db (i ∷ items) = elim (line_of db i) [
  | none ↦ lines_of db items
  | some line ↦ line ∷ lines_of db items
]

-- The sellers of the lines, each once, in the order of the lines.
unfoldable pub sellers_of : List Uuid → List Line → List Uuid
sellers_of seen [] = []
sellers_of seen (line ∷ lines) = elim (is_in line.seller_id seen) [
  | true ↦ sellers_of seen lines
  | false ↦ line.seller_id ∷ sellers_of (line.seller_id ∷ seen) lines
]

-- `shops[seller].Status`; a missing key has the empty status.
abbrev pub status_in : Uuid → List (Uuid × SellerInfo) → Word
status_in seller [] = no_text
status_in seller ((id, info) ∷ shops) = if id == seller then info.status else status_in seller shops

abbrev pub all_approved : List (Uuid × SellerInfo) → List Line → Bool
all_approved shops [] = true
all_approved shops (line ∷ lines) =
    status_in line.seller_id shops == approved && all_approved shops lines

abbrev pub no_ids : List Uuid → Bool
no_ids [] = true
no_ids (id ∷ ids) = false

-- `CartLines`
unfoldable pub cart_lines : Directory → Uuid → List Uuid → Call (List Line)
cart_lines d user ids = do
  n ← gets (λ db. count (in_cart user ids db) db.cart_items)
  raise_if (ltb n 1 || ltb 100 n || (not (no_ids ids) && not (n == length ids))) conflict
  lines ← gets (λ db. lines_of db (by_variant (select (in_cart user ids db) db.cart_items)))
  raise_if (not (length lines == n)) conflict
  shops ← lift (d.batch_info (sellers_of [] lines))
  raise_if (not (all_approved shops lines)) conflict
  pure lines

-- The loop that adds up the amounts.
unfoldable pub add_amounts : ℤ → List Line → ℤ
add_amounts total [] = total
add_amounts total (line ∷ lines) = add_amounts (add64 total line.amount) lines

module _ (upper_other : ℕ → ℕ) where
  -- `Service.Preview`
  unfoldable pub preview : Directory → ℕ → Uuid → List ℕ → List Uuid → Call Preview
  preview d now user text ids = do
    code ← lift (normalize upper_other text)
    raise_if (is_empty code || ltb 100 (length ids)) invalid
    raise_if (repeats [] ids) invalid
    lines ← cart_lines d user ids
    offer ← find_code code
    rule ← one_rule offer
    spent ← gets (used offer.coupon.id user)
    raise_if spent conflict
    q ← lift (calculate offer.coupon rule lines now)
    let subtotal = add_amounts (pos 0) lines
    pure (record {
      discount = q.discount;
      subtotal = subtotal;
      total = sub64 subtotal q.discount;
      coupon_code = code;
    })
