-- ===== src/Tests/Rows.antt =====
-- The rows that the runs start from: order 10 of user 1 with one seller order, 20, and its payment.
use e_commerce_be.Prelude.{ℕ, Option, none, List, [], ◌∷◌, pos}
use e_commerce_be.Shared.{Word}
use e_commerce_be.Words.{pending, cod, vnd}
use e_commerce_be.Models.{Order, SellerOrder, Payment, ProductVariant, Product, OrderItem}
use e_commerce_be.Store.{Db}

abbrev pub empty_db : Db
empty_db = record {
  users = [];
  user_roles = [];
  variants = [];
  products = [];
  movements = [];
  carts = [];
  cart_items = [];
  addresses = [];
  orders = [];
  seller_orders = [];
  order_items = [];
  payments = [];
  transactions = [];
  receipts = [];
  shipments = [];
  shipment_events = [];
  coupons = [];
  coupon_rules = [];
  redemptions = [];
  drivers = [];
  outbox = [];
  next_id = 100;
}

abbrev pub order_row : Word → Order
order_row status = record {
  id = 10;
  user_id = 1;
  status = status;
  currency = vnd;
  subtotal = pos 500;
  discount = pos 0;
  shipping_fee = pos 0;
  total = pos 500;
  shipping_address_id = 5;
  address_snapshot = 6;
  idempotency_key = 7 ∷ [];
  checkout_selection = [];
  coupon_code = [];
  deleted_at = none;
}

abbrev pub seller_order_row : Word → SellerOrder
seller_order_row status = record {
  id = 20;
  order_id = 10;
  seller_id = 3;
  status = status;
  subtotal = pos 500;
  discount = pos 0;
  commission = pos 50;
  total = pos 500;
  deleted_at = none;
}

abbrev pub payment_row : Word → Word → Option (List ℕ) → Payment
payment_row method status code = record {
  id = 30;
  order_id = 10;
  code = code;
  bank = 77 ∷ 66 ∷ [];
  account_number = 49 ∷ 50 ∷ [];
  method = method;
  status = status;
  amount = pos 500;
  deleted_at = none;
}

abbrev pub variant_row : ProductVariant
variant_row = record {
  id = 40;
  product_id = 41;
  sku = 42;
  name = 43;
  price = pos 250;
  stock = pos 7;
  deleted_at = none;
}

abbrev pub product_row : Product
product_row = record { id = 41; seller_id = 3; name = 44; status = 17; deleted_at = none }

abbrev pub item_row : OrderItem
item_row = record {
  seller_order_id = 20;
  variant_id = 40;
  product_name = 44;
  sku = 42;
  variant_name = 43;
  unit_price = pos 250;
  quantity = pos 2;
  discount = pos 0;
}

-- A pending order, paid in cash on delivery.
abbrev pub placed : Db
placed = record empty_db {
  variants = variant_row ∷ [];
  products = product_row ∷ [];
  orders = order_row pending ∷ [];
  seller_orders = seller_order_row pending ∷ [];
  order_items = item_row ∷ [];
  payments = payment_row cod pending none ∷ [];
}
