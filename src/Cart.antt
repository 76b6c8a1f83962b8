-- ===== src/Cart.antt =====
-- internal/modules/cart: the cart of a user.
use e_commerce_be.Prelude.{
  Bool, true, false, not, ◌&&◌, ◌||◌, none, ◌∷◌, leb, ◌==◌, find, count, update, delete, ℤ, pos,
  ltb_ℤ, leb_ℤ, ◌==ℤ◌,
}
use e_commerce_be.Shared.{Uuid, invalid, conflict, not_found, constraint, ok, err, is_some}
use e_commerce_be.Words.{published, approved}
use e_commerce_be.Models.{Cart, CartItem, ProductVariant, Product}
use e_commerce_be.Store.{Call, ⊤, ◌>>=◌, ◌>>◌, pure, gets, first, lift, raise_if, modify, new_id}
use e_commerce_be.Directory.{Directory}

abbrev pub cart_of : Uuid → Cart → Bool
cart_of user c = c.user_id == user

abbrev pub live_variant : Uuid → ProductVariant → Bool
live_variant id v = v.id == id && not (is_some v.deleted_at)

-- `id=? AND status='published' AND deleted_at IS NULL`
abbrev pub on_sale : Uuid → Product → Bool
on_sale id p = p.id == id && p.status == published && not (is_some p.deleted_at)

abbrev pub item_at : Uuid → Uuid → CartItem → Bool
item_at cart variant i = i.cart_id == cart && i.variant_id == variant

-- `ON CONFLICT DO NOTHING`: a user has one cart.
unfoldable pub ensure_cart : Uuid → Call ⊤
ensure_cart user = do
  id ← new_id
  known ← gets (λ db. is_some (find (cart_of user) db.carts))
  elim known [
    | true ↦ pure tt
    | false ↦
        modify λ db. record db {
          carts = record { id = id; user_id = user; deleted_at = none } ∷ db.carts;
        }
  ]

-- `ON CONFLICT (cart_id, variant_id) DO UPDATE SET quantity`, with CHECK (quantity > 0).
unfoldable pub put_item : Uuid → Uuid → ℤ → Call ⊤
put_item cart variant qty db = elim (leb_ℤ qty (pos 0)) [
  | true ↦ err constraint
  | false ↦ elim (is_some (find (item_at cart variant) db.cart_items)) [
    | true ↦ ok (
      tt,
      record db {
        cart_items = update (item_at cart variant) (λ i. record i { quantity = qty }) db.cart_items;
      },
    )
    | false ↦ ok (
      tt,
      record db {
        cart_items =
            record { cart_id = cart; variant_id = variant; quantity = qty; deleted_at = none }
            ∷ db.cart_items;
      },
    )
  ]
]

-- The checks on a variant that goes into the cart.
unfoldable pub add_item : Directory → Uuid → Uuid → ℤ → Call ⊤
add_item d cart variant qty = do
  v ← first (λ db. find (live_variant variant) db.variants)
  product ← first (λ db. find (on_sale v.product_id) db.products)
  shop ← lift (d.get_info product.seller_id)
  raise_if (not (shop.status == approved)) not_found
  raise_if (ltb_ℤ v.stock qty) conflict
  n ← gets (λ db.
      count (λ (i : CartItem). i.cart_id == cart && not (i.variant_id == variant)) db.cart_items)
  raise_if (leb 100 n) conflict
  put_item cart variant qty

unfoldable pub remove_item : Uuid → Uuid → Call ⊤
remove_item cart variant =
    modify λ db. record db { cart_items = delete (item_at cart variant) db.cart_items }

-- `Repository.Put`: quantity 0 takes the variant out.
unfoldable pub put : Directory → Uuid → Uuid → ℤ → Call ⊤
put d user variant qty = do
  ensure_cart user
  c ← first (λ db. find (cart_of user) db.carts)
  elim (qty ==ℤ pos 0) [ true ↦ remove_item c.id variant | false ↦ add_item d c.id variant qty ]

-- `Service.Put`
unfoldable pub put_request : Directory → Uuid → Uuid → ℤ → Call ⊤
put_request d user variant qty = do
  raise_if (user == 0 || variant == 0 || ltb_ℤ qty (pos 0) || ltb_ℤ (pos 10000) qty) invalid
  put d user variant qty
