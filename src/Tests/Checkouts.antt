-- ===== src/Tests/Checkouts.antt =====
-- User 1 buys two of the variant of Tests.Rows with a coupon, by cash on delivery.
use e_commerce_be.Inventory.Ledger.{Ledger, stock_of, taken}
use e_commerce_be.Order.Checkout.Stock.{others, checkout-Ledger}
use e_commerce_be.Inventory.{add_stock}
use e_commerce_be.Voucher.Preview.{by_variant, insert_item}
use e_commerce_be.Prelude.{
  ℕ, ◌≡◌, ◌≢◌, refl, true, none, List, [], ◌∷◌, ◌*◌, ◌/◌, ℤ, pos, arith, delete, mul64, quot64,
  find, select, update, count, add64, sub64, wrap64, ◌+ℤ◌, ◌-ℤ◌, ◌*ℤ◌,
}
use e_commerce_be.Shared.{ok, err, not_found, text_eq}
use e_commerce_be.Words.{cod, fixed, approved}
use e_commerce_be.Models.{Coupon, Order}
use e_commerce_be.Store.{
  Db, commit, insert_order, insert_seller_order, insert_order_item, insert_movement, insert_payment,
  enqueue,
}
use e_commerce_be.Directory.{Directory}
use e_commerce_be.Payment.Sepay.{Config}
use e_commerce_be.Voucher.{
  Line, Quote, calculate, sum_eligible, quote_for, is_closed, raw_discount, fixed_discount,
  allocate, share,
}
use e_commerce_be.Voucher.Offers.{
  Offer, find_code, redeem, get, one_rule, consume, count_use, over_quota, bad_row,
}
use e_commerce_be.Order.Checkout.Redeemed.{start, after, elsewhere, redeem_once}
use e_commerce_be.Order.Checkout.{
  commission_of, read_lines, ask_shop, voucher_lines, no_discounts, save_order, apply_coupon,
  group_for, place_lines, save_group, save_groups,
}
use e_commerce_be.Order.Checkout.Commission.{commission_of_lem}
use e_commerce_be.Order.Checkout.Place.{
  Request, checkout, place, replay, chosen_items, create_payment, empty_cart, conclude,
}
use e_commerce_be.Order.Checkout.Replay.{checkout_idem}
use e_commerce_be.Tests.Rows.{empty_db, variant_row, product_row}

abbrev shops : Directory
shops = record {
  check_membership = λ user seller. err not_found;
  get_info = λ seller. ok (record { status = approved; commission_rate = pos 1000 });
  batch_info = λ sellers. ok [];
  get_operations = λ seller. err not_found;
}

abbrev no_bank : Config
no_bank = record { bank = []; account = []; webhook_secret = [] }

abbrev coupon_text : List ℕ
coupon_text = b'O' ∷ b'F' ∷ b'F' ∷ []

abbrev fifty_off : Coupon
fifty_off = record {
  id = 70;
  active = true;
  max_discount = pos 0;
  code = coupon_text;
  kind = fixed;
  value = pos 50;
  starts_at = 10;
  ends_at = 90;
  usage_limit = pos 5;
  used_count = pos 0;
  deleted_at = none;
}

abbrev shopping : Db
shopping = record empty_db {
  users = record { id = 1; deleted_at = none } ∷ [];
  variants = variant_row ∷ [];
  products = product_row ∷ [];
  carts = record { id = 50; user_id = 1; deleted_at = none } ∷ [];
  cart_items = record { cart_id = 50; variant_id = 40; quantity = pos 2; deleted_at = none } ∷ [];
  addresses = record { id = 5; user_id = 1; text = 6; deleted_at = none } ∷ [];
  coupons = fifty_off ∷ [];
  coupon_rules =
      record { coupon_id = 70; min_order = pos 100; seller_id = none; deleted_at = none } ∷ [];
}

abbrev request : Request
request = record {
  user = 1;
  address = 5;
  key = 7 ∷ [];
  method = cod;
  selected = [];
  selection = [];
  coupon_code = coupon_text;
}

abbrev bought : Db
bought = commit shopping (checkout shops no_bank 50 request shopping)

abbrev order_made : Order
order_made = record {
  id = 100;
  user_id = 1;
  status = 1;
  currency = 35;
  subtotal = pos 500;
  discount = pos 50;
  shipping_fee = pos 0;
  total = pos 450;
  shipping_address_id = 5;
  address_snapshot = 6;
  idempotency_key = 7 ∷ [];
  checkout_selection = [];
  coupon_code = coupon_text;
  deleted_at = none;
}

checkout_run : checkout shops no_bank 50 request shopping ≡ ok (order_made, bought)
unfolding checkout place replay chosen_items create_payment empty_cart conclude read_lines ask_shop
    voucher_lines no_discounts save_order apply_coupon group_for place_lines commission_of
    save_group save_groups by_variant insert_item add_stock insert_order insert_seller_order
    insert_order_item insert_movement insert_payment enqueue delete mul64 quot64 redeem find_code
    get one_rule consume count_use bad_row over_quota find select update count text_eq calculate
    sum_eligible quote_for is_closed raw_discount fixed_discount allocate share add64 sub64 wrap64
    ◌+ℤ◌ ◌-ℤ◌ ◌*ℤ◌ e_commerce_be.Store.bad_payment
checkout_run = refl

checkout_idem_example : checkout shops no_bank 60 request bought ≡ ok (order_made, bought)
checkout_idem_example =
    checkout_idem shops no_bank 50 60 request order_made shopping bought checkout_run

commission_of_lem_example : commission_of (pos 450) (pos 1000) ≡ pos (450 * 1000 / 10000)
commission_of_lem_example = commission_of_lem 450 1000 (omega arith) (omega arith)

abbrev basket : List Line
basket = record { seller_id = 3; amount = pos 500 } ∷ []

abbrev saved : Quote
saved = record { coupon_id = 70; discount = pos 50; line_discounts = pos 50 ∷ [] }

abbrev redeemed : Db
redeemed = commit shopping (redeem 50 1 100 coupon_text basket shopping)

redeem_run : redeem 50 1 100 coupon_text basket shopping ≡ ok (saved, redeemed)
unfolding redeem find_code get one_rule consume count_use bad_row over_quota find select update
    count text_eq calculate sum_eligible quote_for is_closed raw_discount fixed_discount allocate
    share add64 sub64 wrap64 ◌+ℤ◌ ◌-ℤ◌ ◌*ℤ◌
redeem_run = refl

abbrev offer : ℤ → Offer
offer n = record {
  coupon = record fifty_off { used_count = n };
  rules = record { coupon_id = 70; min_order = pos 100; seller_id = none; deleted_at = none } ∷ [];
}

offer_before : find_code coupon_text shopping ≡ ok (offer (pos 0), shopping)
unfolding find_code get find select text_eq
offer_before = refl

-- Later, when the carts have been emptied.
abbrev emptied : Db
emptied = record redeemed { cart_items = [] }

offer_after : find_code coupon_text emptied ≡ ok (offer (pos 1), emptied)
unfolding redeem find_code get one_rule consume count_use bad_row over_quota find select update
    count text_eq calculate sum_eligible quote_for is_closed raw_discount fixed_discount allocate
    share add64 sub64 wrap64 ◌+ℤ◌ ◌-ℤ◌ ◌*ℤ◌
offer_after = refl

redeem_once_example : redeem 60 1 101 coupon_text basket emptied ≢ ok (saved, redeemed)
redeem_once_example =
    redeem_once 50 60 1 100 101 coupon_text coupon_text basket basket saved saved shopping redeemed
      emptied redeemed (offer (pos 0)) (offer (pos 1)) redeem_run offer_before
      (after start (elsewhere refl)) offer_after refl

checkout-Ledger_example :
    Ledger 40 shopping bought
    × (stock_of 40 bought +ℤ taken 40 bought.order_items
        ≡ stock_of 40 shopping +ℤ taken 40 shopping.order_items)
    × (others order_made.id bought ≡ others order_made.id shopping)
checkout-Ledger_example =
    checkout-Ledger 40 shops no_bank 50 request order_made shopping bought checkout_run
