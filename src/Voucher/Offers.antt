-- ===== src/Voucher/Offers.antt =====
-- The offers of internal/modules/voucher: Create, SetActive, Preview and Redeem of service.go, with
-- the statements of repository.go. The clock is the argument `now`.
pub mod Once
use e_commerce_be.Prelude.{
  ℕ, ◌≡◌, Bool, true, false, not, ◌&&◌, ◌||◌, Option, none, some, List, [], ◌∷◌, ltb, leb, ◌==◌,
  if◌then◌else◌, length, find, count, select, update, ℤ, pos, ltb_ℤ, leb_ℤ, ◌==ℤ◌, ◌*ℤ◌, ◌+ℤ◌,
  add64, sub64,
}
use e_commerce_be.Shared.{
  Word, Uuid, Result, invalid, conflict, forbidden, constraint, ok, err, is_some, text_eq,
}
use e_commerce_be.Text.{is_empty}
use e_commerce_be.Words.{fixed, percent, owner, manager, approved}
use e_commerce_be.Models.{
  User, Cart, CartItem, ProductVariant, Product, Coupon, CouponRule, CouponRedemption,
}
use e_commerce_be.Store.{
  Db, Call, ⊤, ◌>>=◌, ◌>>◌, pure, raise, gets, first, lift, raise_if, modify, new_id, require_admin,
}
use e_commerce_be.Directory.{Directory, SellerInfo}
use e_commerce_be.Cart.{live_variant, on_sale}
use e_commerce_be.Voucher.{Line, Quote, calculate}
use e_commerce_be.Voucher.Code.{Input, normalize, validate}

pub record Offer : Type 0 where
  pub coupon : Coupon
  pub rules : List CouponRule

pub record Preview : Type 0 where
  pub discount : ℤ
  pub subtotal : ℤ
  pub total : ℤ
  pub coupon_code : List ℕ

abbrev pub coupon_is : Uuid → Coupon → Bool
coupon_is id c = c.id == id && not (is_some c.deleted_at)

abbrev pub has_text : List ℕ → Coupon → Bool
has_text code c = text_eq c.code code && not (is_some c.deleted_at)

-- `Repository.Get`
unfoldable pub get : Uuid → Call Offer
get id = do
  c ← first (λ db. find (coupon_is id) db.coupons)
  rules ← gets (λ db.
      select (λ (r : CouponRule). r.coupon_id == id && not (is_some r.deleted_at)) db.coupon_rules)
  pure (record { coupon = c; rules = rules })

-- `Repository.FindCode`, and `LockCode`, which also locks the row.
unfoldable pub find_code : List ℕ → Call Offer
find_code code = do c ← first (λ db. find (has_text code) db.coupons); get c.id

abbrev pub redeemed_by : Uuid → Uuid → CouponRedemption → Bool
redeemed_by coupon user r = r.coupon_id == coupon && r.user_id == user

-- `Repository.Used`
unfoldable pub used : Uuid → Uuid → Db → Bool
used coupon user db = ltb 0 (count (redeemed_by coupon user) db.redemptions)

-- `len(offer.Rules) != 1`
unfoldable pub one_rule : Offer → Call CouponRule
one_rule offer db = elim offer.rules [
  | [] ↦ err conflict
  | rule ∷ rules ↦ elim rules [ [] ↦ ok (rule, db) | _ ∷ _ ↦ err conflict ]
]

-- coupon_valid_quota, not met
unfoldable pub over_quota : Coupon → Bool
over_quota c =
    ltb_ℤ c.usage_limit (pos 0)
    || ltb_ℤ c.used_count (pos 0)
    || (not (c.usage_limit ==ℤ pos 0) && ltb_ℤ c.usage_limit c.used_count)

-- The CHECK clauses of a row of coupons that is written.
unfoldable pub bad_row : Coupon → Bool
unfolding over_quota
bad_row c =
    over_quota c
    || not (ltb c.starts_at c.ends_at)
    || not (
        (c.kind == fixed && ltb_ℤ (pos 0) c.value)
        || (c.kind == percent
            && leb_ℤ (pos 1) c.value
            && leb_ℤ c.value (pos 100)
            && ltb_ℤ (pos 0) c.max_discount))
    || ltb_ℤ c.max_discount (pos 0)

abbrev once_more : Coupon → Coupon
once_more c = record c { used_count = c.used_count +ℤ pos 1 }

-- `used_count+1`
unfoldable pub count_use : Uuid → Call ⊤
unfolding bad_row
count_use coupon db =
    elim (is_some (find (λ (c : Coupon). c.id == coupon && bad_row (once_more c)) db.coupons)) [
      | true ↦ err constraint
      | false ↦
          ok (
            tt,
            record db { coupons = update (λ (c : Coupon). c.id == coupon) once_more db.coupons },
          )
    ]

-- `Repository.Consume`: UNIQUE (coupon_id, user_id) stops a second redemption.
unfoldable pub consume : Uuid → Uuid → Uuid → Call ⊤
consume coupon user order = do
  taken ← gets (λ db. is_some (find (redeemed_by coupon user) db.redemptions))
  raise_if taken conflict
  modify λ db. record db {
    redemptions = record { coupon_id = coupon; user_id = user; order_id = order } ∷ db.redemptions;
  }
  count_use coupon

-- `Redeem`
unfoldable pub redeem : ℕ → Uuid → Uuid → List ℕ → List Line → Call Quote
redeem now user order code lines = do
  offer ← find_code code
  rule ← one_rule offer
  quote ← lift (calculate offer.coupon rule lines now)
  consume offer.coupon.id user order
  pure quote

-- `Repository.Manage`: a coupon of a shop is run by its owner or a manager, the others by an admin.
unfoldable pub manage : Directory → Uuid → Option Uuid → Call ⊤
manage d user seller = elim seller [
  | none ↦ require_admin user
  | some shop ↦ do
    (role, status) ← lift (d.check_membership user shop)
    raise_if (not (role == owner || role == manager) || not (status == approved)) forbidden
]

-- The CHECK and UNIQUE clauses of coupons and coupon_rules.
unfoldable pub bad_coupon : Db → Coupon → CouponRule → Bool
unfolding bad_row
bad_coupon db c rule =
    is_some (find (λ (x : Coupon). text_eq x.code c.code) db.coupons)
    || bad_row c
    || ltb_ℤ rule.min_order (pos 0)

-- `Repository.Create`
unfoldable pub insert_offer : Coupon → CouponRule → Call Offer
insert_offer c rule db = elim (bad_coupon db c rule) [
  | true ↦ err constraint
  | false ↦ ok (
    record { coupon = c; rules = rule ∷ [] },
    record db { coupons = c ∷ db.coupons; coupon_rules = rule ∷ db.coupon_rules },
  )
]

-- `Repository.SetActive`
unfoldable pub write_active : Uuid → Bool → Call ⊤
unfolding bad_row
write_active id active db =
    elim (is_some (find (λ (c : Coupon). c.id == id && bad_row c) db.coupons)) [
      | true ↦ err constraint
      | false ↦ ok (
        tt,
        record db {
          coupons =
              update (λ (c : Coupon). c.id == id) (λ c. record c { active = active }) db.coupons;
        },
      )
    ]

-- `Service.SetActive`
unfoldable pub set_active : Directory → Uuid → Uuid → Bool → Call ⊤
set_active d user id active = do
  offer ← get id
  rule ← one_rule offer
  manage d user rule.seller_id
  write_active id active

module _ (upper_other : ℕ → ℕ) where
  -- `Service.Create`
  unfoldable pub create_offer : Directory → Uuid → Option Uuid → Input → Call Offer
  create_offer d user seller input = do
    lift (validate upper_other input)
    manage d user seller
    code ← lift (normalize upper_other input.code)
    id ← new_id
    insert_offer
        (record {
          id = id;
          active = true;
          max_discount = input.max_discount;
          code = code;
          kind = input.kind;
          value = input.value;
          starts_at = input.starts_at;
          ends_at = input.ends_at;
          usage_limit = input.usage_limit;
          used_count = pos 0;
          deleted_at = none;
        })
        (record {
          coupon_id = id;
          min_order = input.min_order;
          seller_id = seller;
          deleted_at = none;
        })
