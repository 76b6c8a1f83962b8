-- ===== src/Order/Checkout.antt =====
-- Checkout: `selectionKey` and `CheckoutVoucher` of internal/modules/order/service.go, and `checkout`
-- of repository.go. The directory answers the same to each question of one call, so the map `shops`
-- only saves questions; it is kept, since the commissions read it.
pub mod Place
pub mod Commission
pub mod Frames
pub mod Placed
pub mod Replay
pub mod Stock
pub mod Coupons
pub mod Redeemed
use e_commerce_be.Prelude.{
  ℕ, Bool, true, false, not, ◌&&◌, ◌||◌, Option, none, some, List, [], ◌∷◌, ◌++◌, ltb, ◌==◌,
  if◌then◌else◌, length, find, select, update, delete, ℤ, pos, ltb_ℤ, leb_ℤ, ◌-ℤ◌, add64, sub64,
  mul64, quot64, rem,
}
use e_commerce_be.Text.{is_empty, is_blank, byte_len}
use e_commerce_be.Shared.{
  Word, Uuid, invalid, conflict, not_found, unavailable, constraint, panicked, Result, ok, err,
  fail_if, is_some, text_eq,
}
use e_commerce_be.Words.{pending, approved, vnd, cod, sepay, sale, of_order, order_created}
use e_commerce_be.Models.{
  User, Cart, CartItem, ProductVariant, Product, ShippingAddress, Order, SellerOrder, OrderItem,
  Payment, InventoryMovement,
}
use e_commerce_be.Store.{
  Db, Call, ⊤, ◌>>=◌, ◌>>◌, pure, gets, first, lift, raise, raise_if, modify, when, new_id,
  insert_order, insert_seller_order, insert_order_item, insert_movement, insert_payment, enqueue,
}
use e_commerce_be.Directory.{Directory, SellerInfo}
use e_commerce_be.Inventory.{add_stock}
use e_commerce_be.Cart.{cart_of, live_variant, on_sale}
use e_commerce_be.Payment.Sepay.{Config, enabled, payment_code_of}
use e_commerce_be.Voucher.{Line, Quote}
use e_commerce_be.Voucher.Code.{normalize}
use e_commerce_be.Voucher.Offers.{redeem}
use e_commerce_be.Voucher.Preview.{is_in, repeats, by_variant, chosen, no_ids}
use e_commerce_be.Order.Fulfill.{order_is, payment_of}

-- `sort.Strings` on the texts of the identifiers, which sort as the identifiers do.
unfoldable pub insert_id : Uuid → List Uuid → List Uuid
insert_id id [] = id ∷ []
insert_id id (x ∷ xs) = let rest = insert_id id xs in if ltb x id then x ∷ rest else id ∷ x ∷ xs

unfoldable pub sort_ids : List Uuid → List Uuid
sort_ids [] = []
sort_ids (id ∷ ids) = insert_id id (sort_ids ids)

-- `selectionKey`: the joined text is kept as the list of its identifiers.
unfoldable pub selection_key : List Uuid → Result (List Uuid)
selection_key ids = elim (ltb 100 (length ids) || repeats [] ids) [
  | true ↦ err invalid
  | false ↦ ok (sort_ids ids)
]

-- `Line` of repository.go.
pub record CheckoutLine : Type 0 where
  pub variant : ProductVariant
  pub product : Product
  pub quantity : ℤ

abbrev pub Shops : Type 0
Shops = List (Uuid × SellerInfo)

abbrev pub shop_in : Uuid → Shops → Option SellerInfo
shop_in seller [] = none
shop_in seller ((id, info) ∷ shops) = if id == seller then some info else shop_in seller shops

-- `shops[seller]`, after the directory was asked where it was missing.
unfoldable pub ask_shop : Directory → Uuid → Shops → Call (SellerInfo × Shops)
ask_shop d seller shops = elim (shop_in seller shops) [
  | some shop ↦ pure (shop, shops)
  | none ↦ lift (d.get_info seller) >>= λ shop. pure (shop, (seller, shop) ∷ shops)
]

-- What the loop over the cart collects.
pub record Basket : Type 0 where
  pub lines : List CheckoutLine
  pub shops : Shops
  pub total : ℤ

abbrev pub unavailable_line : ProductVariant → ℤ → Bool
unavailable_line v quantity =
    ltb_ℤ quantity (pos 1)
    || ltb_ℤ (pos 10000) quantity
    || ltb_ℤ v.stock quantity
    || ltb_ℤ v.price (pos 0)
    || ltb_ℤ (pos 1000000000000) v.price

-- The loop that checks the items and adds up the total.
unfoldable pub read_lines : Directory → List CartItem → Shops → ℤ → Call Basket
read_lines d [] shops total = pure (record { lines = []; shops = shops; total = total })
read_lines d (item ∷ items) shops total = do
  v ← first (λ db. find (live_variant item.variant_id) db.variants)
  p ← first (λ db. find (on_sale v.product_id) db.products)
  (shop, known) ← ask_shop d p.seller_id shops
  raise_if (not (shop.status == approved)) not_found
  raise_if (unavailable_line v item.quantity) conflict
  basket ← read_lines d items known (add64 total (mul64 v.price item.quantity))
  pure (record {
    lines = record { variant = v; product = p; quantity = item.quantity } ∷ basket.lines;
    shops = basket.shops;
    total = basket.total;
  })

abbrev pub line_amount : CheckoutLine → ℤ
line_amount line = mul64 line.variant.price line.quantity

-- The lines as the voucher sees them.
unfoldable pub voucher_lines : List CheckoutLine → List Line
voucher_lines [] = []
voucher_lines (line ∷ lines) =
    record { seller_id = line.product.seller_id; amount = line_amount line } ∷ voucher_lines lines

unfoldable pub no_discounts : List CheckoutLine → List ℤ
no_discounts [] = []
no_discounts (line ∷ lines) = pos 0 ∷ no_discounts lines

-- `Save` of an order, with the CHECK clauses of its amounts.
unfoldable pub save_order : Order → Call ⊤
save_order o db =
    elim (ltb_ℤ o.subtotal (pos 0) || ltb_ℤ o.discount (pos 0) || ltb_ℤ o.total (pos 0)) [
      | true ↦ err constraint
      | false ↦ ok (tt, record db { orders = update (order_is o.id) (λ _. o) db.orders })
    ]

abbrev pub reduced : Order → List ℕ → Quote → Order
reduced o code quote = record o {
  coupon_code = code;
  discount = quote.discount;
  total = sub64 o.subtotal quote.discount;
}

-- The coupon, if there is one: the order with its discount, and the discounts of the lines.
unfoldable pub apply_coupon : ℕ → Order → List ℕ → List CheckoutLine → Call (Order × List ℤ)
apply_coupon now o code lines = elim (is_empty code) [
  | true ↦ pure (o, no_discounts lines)
  | false ↦ do
    quote ← redeem now o.user_id o.id code (voucher_lines lines)
    save_order (reduced o code quote)
    pure (reduced o code quote, quote.line_discounts)
]

abbrev pub group_of : Uuid → SellerOrder → Bool
group_of seller g = g.seller_id == seller

-- `groups[seller]`, which is created where it is missing.
unfoldable pub group_for : Uuid → Uuid → List SellerOrder → Call (SellerOrder × List SellerOrder)
group_for order seller groups = elim (find (group_of seller) groups) [
  | some g ↦ pure (g, groups)
  | none ↦ do
    id ← new_id
    let g : SellerOrder = record {
      id = id;
      order_id = order;
      seller_id = seller;
      status = pending;
      subtotal = pos 0;
      discount = pos 0;
      commission = pos 0;
      total = pos 0;
      deleted_at = none;
    }
    insert_seller_order g
    pure (g, groups ++ g ∷ [])
]

-- What a line adds to its group.
abbrev pub grown : CheckoutLine → ℤ → SellerOrder → SellerOrder
grown line discount g =
    let subtotal = add64 g.subtotal (line_amount line) in
    let off = add64 g.discount discount in
    record g { subtotal = subtotal; discount = off; total = sub64 subtotal off }

abbrev pub sold : Uuid → CheckoutLine → ℤ
sold order line = pos 0 -ℤ line.quantity

abbrev pub sold_item : Uuid → CheckoutLine → ℤ → OrderItem
sold_item group line discount = record {
  seller_order_id = group;
  variant_id = line.variant.id;
  product_name = line.product.name;
  sku = line.variant.sku;
  variant_name = line.variant.name;
  unit_price = line.variant.price;
  quantity = line.quantity;
  discount = discount;
}

abbrev pub sold_movement : Uuid → CheckoutLine → InventoryMovement
sold_movement order line = record {
  variant_id = line.variant.id;
  quantity = sold order line;
  kind = sale;
  reference_id = some order;
}

-- The loop that writes the items and takes the stock; `discounts[i]` panics out of range.
unfoldable pub place_lines :
    Uuid → List CheckoutLine → List ℤ → List SellerOrder → Call (List SellerOrder)
place_lines order [] discounts groups = pure groups
place_lines order (line ∷ lines) [] groups = raise panicked
place_lines order (line ∷ lines) (discount ∷ discounts) groups = do
  (g, opened) ← group_for order line.product.seller_id groups
  insert_order_item (sold_item g.id line discount)
  add_stock line.variant.id (sold order line)
  insert_movement (sold_movement order line)
  place_lines order lines discounts
      (update (group_of line.product.seller_id) (grown line discount) opened)

-- `group.Total/10000*commissionRate + (group.Total%10000)*commissionRate/10000`
unfoldable pub commission_of : ℤ → ℤ → ℤ
commission_of total rate =
    add64 (mul64 (quot64 total (pos 10000)) rate)
      (quot64 (mul64 (rem total (pos 10000)) rate) (pos 10000))

-- `shops[seller].CommissionRate`; a missing key has the rate 0.
abbrev pub rate_in : Uuid → Shops → ℤ
rate_in seller shops = elim (shop_in seller shops) [ none ↦ pos 0 | some s ↦ s.commission_rate ]

-- `Save` of a seller order, with CHECK (discount >= 0).
unfoldable pub save_group : SellerOrder → Call ⊤
save_group g db = elim (ltb_ℤ g.discount (pos 0)) [
  | true ↦ err constraint
  | false ↦ ok (
    tt,
    record db {
      seller_orders = update (λ (c : SellerOrder). c.id == g.id) (λ _. g) db.seller_orders;
    },
  )
]

-- The loop over the groups; the rows are apart, so their order does not matter.
unfoldable pub save_groups : Shops → List SellerOrder → Call ⊤
save_groups shops [] = pure tt
save_groups shops (g ∷ groups) = do
  save_group (record g { commission = commission_of g.total (rate_in g.seller_id shops) })
  save_groups shops groups
