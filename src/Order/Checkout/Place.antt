-- ===== src/Order/Checkout/Place.antt =====
-- The transaction of `checkout` in internal/modules/order/repository.go, and the requests of
-- service.go that reach it.
use e_commerce_be.Prelude.{
  ℕ, Bool, not, ◌&&◌, ◌||◌, none, some, List, [], ◌∷◌, ltb, ◌==◌, if◌then◌else◌, length, find,
  select, delete, ℤ, pos, leb_ℤ,
}
use e_commerce_be.Text.{is_blank, byte_len}
use e_commerce_be.Shared.{Word, Uuid, invalid, conflict, unavailable, is_some, text_eq}
use e_commerce_be.Words.{pending, vnd, cod, sepay, of_order, order_created}
use e_commerce_be.Models.{User, CartItem, ShippingAddress, Order, Payment}
use e_commerce_be.Store.{
  Db, Call, ⊤, ◌>>=◌, ◌>>◌, pure, gets, first, lift, raise_if, modify, new_id, insert_order,
  insert_payment, enqueue,
}
use e_commerce_be.Directory.{Directory}
use e_commerce_be.Cart.{cart_of}
use e_commerce_be.Payment.Sepay.{Config, enabled, payment_code_of}
use e_commerce_be.Voucher.Code.{normalize}
use e_commerce_be.Voucher.Preview.{by_variant, chosen, no_ids}
use e_commerce_be.Order.Fulfill.{payment_of}
use e_commerce_be.Order.Checkout.{
  selection_key, read_lines, Basket, apply_coupon, place_lines, save_groups,
}

-- What a checkout asks for.
pub record Request : Type 0 where
  pub user : Uuid
  pub address : Uuid
  pub key : List ℕ
  pub method : Word
  pub selected : List Uuid
  pub selection : List Uuid
  pub coupon_code : List ℕ

abbrev pub key_is : Uuid → List ℕ → Order → Bool
key_is user key o = o.user_id == user && text_eq o.idempotency_key key

-- An order of the same key: it answers, if it was asked for in the same way.
unfoldable pub replay : Request → Order → Call Order
replay r o = do
  previous ← first (λ db. find (payment_of o.id) db.payments)
  raise_if
      (not (previous.method == r.method)
        || not (text_eq o.checkout_selection r.selection)
        || not (text_eq o.coupon_code r.coupon_code))
      conflict
  raise_if (not (o.shipping_address_id == r.address)) conflict
  pure o

-- The rows of the cart that are selected, by variant.
unfoldable pub chosen_items : Uuid → List Uuid → Db → List CartItem
chosen_items cart selected db = by_variant (
    select
      (λ (i : CartItem).
        i.cart_id == cart && not (is_some i.deleted_at) && chosen selected i.variant_id)
      db.cart_items)

abbrev pub new_order : Request → Uuid → Word → ℤ → Order
new_order r id snapshot total = record {
  id = id;
  user_id = r.user;
  status = pending;
  currency = vnd;
  subtotal = total;
  discount = pos 0;
  shipping_fee = pos 0;
  total = total;
  shipping_address_id = r.address;
  address_snapshot = snapshot;
  idempotency_key = r.key;
  checkout_selection = r.selection;
  coupon_code = [];
  deleted_at = none;
}

-- The payment of the order; a bank transfer carries the code and the account.
abbrev pub payment_for : Config → Request → Order → Uuid → Payment
payment_for config r o id = record {
  id = id;
  order_id = o.id;
  code = if r.method == sepay then some (payment_code_of o.id) else none;
  bank = if r.method == sepay then config.bank else [];
  account_number = if r.method == sepay then config.account else [];
  method = r.method;
  status = pending;
  amount = o.total;
  deleted_at = none;
}

unfoldable pub create_payment : Config → Request → Order → Call ⊤
create_payment config r o = do
  raise_if (r.method == sepay && (not (enabled config) || leb_ℤ o.total (pos 0))) invalid
  id ← new_id
  insert_payment (payment_for config r o id)

unfoldable pub empty_cart : Uuid → List Uuid → Call ⊤
empty_cart cart selected = modify λ db. record db {
  cart_items =
      delete (λ (i : CartItem). i.cart_id == cart && chosen selected i.variant_id) db.cart_items;
}

-- The payment, the cart and the event, once the lines are placed.
unfoldable pub conclude : Config → Request → Uuid → Order → Call Order
conclude config r cart o = do
  create_payment config r o
  empty_cart cart r.selected
  enqueue of_order o.id order_created
      (pos o.id ∷ pos o.user_id ∷ o.total ∷ o.discount ∷ pos o.currency ∷ [])
  pure o

-- The lines and the groups, once the order has its discount.
abbrev pub finish_order : Config → Request → Uuid → Basket → Order × List ℤ → Call Order
finish_order config r cart basket (o, discounts) = do
  groups ← place_lines o.id basket.lines discounts []
  save_groups basket.shops groups
  conclude config r cart o

-- The order row, and what hangs on it.
abbrev pub fill_order : Config → ℕ → Request → Uuid → Word → Basket → Call Order
fill_order config now r cart snapshot basket = do
  id ← new_id
  insert_order (new_order r id snapshot basket.total)
  apply_coupon now (new_order r id snapshot basket.total) r.coupon_code basket.lines
      >>= finish_order config r cart basket

-- A new order, from the cart.
unfoldable pub place : Directory → Config → ℕ → Request → Call Order
place d config now r = do
  a ← first (λ db.
      find
        (λ (x : ShippingAddress).
          x.id == r.address && x.user_id == r.user && not (is_some x.deleted_at))
        db.addresses)
  cart ← first (λ db. find (cart_of r.user) db.carts)
  items ← gets (chosen_items cart.id r.selected)
  raise_if
      (length items == 0
        || ltb 100 (length items)
        || (not (no_ids r.selected) && not (length items == length r.selected)))
      conflict
  read_lines d items [] (pos 0) >>= fill_order config now r cart.id a.text

-- `checkout`
unfoldable pub checkout : Directory → Config → ℕ → Request → Call Order
checkout d config now r = do
  user ← first (λ db. find (λ (u : User). u.id == r.user && not (is_some u.deleted_at)) db.users)
  prior ← gets (λ db. find (key_is r.user r.key) db.orders)
  elim prior [ some o ↦ replay r o | none ↦ place d config now r ]

module _ (upper_other : ℕ → ℕ) where
  -- `CheckoutVoucher`
  unfoldable pub checkout_voucher :
      Directory → Config → ℕ → Uuid → Uuid → List ℕ → Word → List Uuid → List ℕ → Call Order
  checkout_voucher d config now user address key method ids coupon = do
    raise_if
        (address == 0
          || user == 0
          || is_blank key
          || ltb 128 (byte_len key)
          || not (method == cod || method == sepay))
        invalid
    raise_if (method == sepay && not (enabled config)) unavailable
    selection ← lift (selection_key ids)
    code ← lift (normalize upper_other coupon)
    checkout d config now (record {
      user = user;
      address = address;
      key = key;
      method = method;
      selected = ids;
      selection = selection;
      coupon_code = code;
    })
