-- ===== src/Voucher.antt =====
-- internal/modules/voucher/service.go: the normal form of a code, the checks on a new coupon, and
-- the discount with its allocation to the lines of a cart.
pub mod Division
pub mod Allocation
pub mod Sums
pub mod Quotes
pub mod Calculate
pub mod Code
pub mod Pattern
pub mod Offers
pub mod Preview
use e_commerce_be.Prelude.{
  ℕ, Bool, true, false, not, ◌&&◌, ◌||◌, none, some, List, [], ◌∷◌, ltb, ◌==◌, if◌then◌else◌,
  length, ℤ, pos, ltb_ℤ, leb_ℤ, ◌==ℤ◌, ◌*ℤ◌, quot, rem, wrap64, add64, sub64, mul64, quot64,
}
use e_commerce_be.Shared.{
  Uuid, invalid, conflict, panicked, Result, ok, ◌>>=◌, ◌>>◌, fail_if, is_some,
}
use e_commerce_be.Words.{fixed, percent}
use e_commerce_be.Models.{Coupon, CouponRule}

pub record Line : Type 0 where
  pub seller_id : Uuid
  pub amount : ℤ

pub record Quote : Type 0 where
  pub coupon_id : Uuid
  pub discount : ℤ
  pub line_discounts : List ℤ

-- `rule.SellerID == nil || *rule.SellerID == line.SellerID`
abbrev pub covers : CouponRule → Line → Bool
covers rule line = elim rule.seller_id [ none ↦ true | some s ↦ s == line.seller_id ]

-- `line.Amount < 0 || line.Amount > 10000000000000000`
abbrev pub out_of_range : Line → Bool
out_of_range line = ltb_ℤ line.amount (pos 0) || ltb_ℤ (pos 10000000000000000) line.amount

-- The loop that checks the amounts and adds up those that the rule covers.
unfoldable pub sum_eligible : CouponRule → List Line → ℤ → Result ℤ
sum_eligible rule [] eligible = ok eligible
sum_eligible rule (line ∷ lines) eligible = do
  fail_if (out_of_range line) invalid
  sum_eligible rule lines (if covers rule line then add64 eligible line.amount else eligible)

-- `eligible/100*c.Value + (eligible%100)*c.Value/100`
unfoldable pub percent_of : ℤ → ℤ → ℤ
unfolding add64 mul64 quot64
percent_of eligible value =
    add64 (mul64 (quot64 eligible (pos 100)) value)
      (quot64 (mul64 (rem eligible (pos 100)) value) (pos 100))

-- The branch of a percentage: it is capped by `MaxDiscount`.
unfoldable pub percent_discount : Coupon → ℤ → Result ℤ
unfolding percent_of
percent_discount c eligible = do
  fail_if (ltb_ℤ c.value (pos 1) || ltb_ℤ (pos 100) c.value || leb_ℤ c.max_discount (pos 0)) invalid
  let d = percent_of eligible c.value
  ok (if ltb_ℤ c.max_discount d then c.max_discount else d)

-- The other branch: the coupon must be `fixed`, with a positive value.
unfoldable pub fixed_discount : Coupon → Result ℤ
fixed_discount c = do fail_if (not (c.kind == fixed) || leb_ℤ c.value (pos 0)) invalid; ok c.value

-- The discount before it is capped by the eligible amount.
unfoldable pub raw_discount : Coupon → ℤ → Result ℤ
unfolding percent_discount fixed_discount
raw_discount c eligible =
    if c.kind == percent then percent_discount c eligible else fixed_discount c

-- `n.Mul(remaining, amount); n.Quo(n, base); n.Int64()`, over big integers. Division by 0 panics.
unfoldable pub share : ℤ → ℤ → ℤ → Result ℤ
unfolding ◌*ℤ◌ wrap64
share remaining amount base = do
  fail_if (base ==ℤ pos 0) panicked
  ok (wrap64 (quot (remaining *ℤ amount) base))

-- `line.Amount == 0 || (rule.SellerID != nil && *rule.SellerID != line.SellerID)`
abbrev pub skips : CouponRule → Line → Bool
skips rule line = line.amount ==ℤ pos 0 || not (covers rule line)

-- The loop that fills `LineDiscounts`.
unfoldable pub allocate : CouponRule → List Line → ℤ → ℤ → Result (List ℤ)
unfolding share
allocate rule [] remaining base = ok []
allocate rule (line ∷ lines) remaining base = elim (skips rule line) [
  | true ↦ allocate rule lines remaining base >>= λ rest. ok (pos 0 ∷ rest)
  | false ↦ share remaining line.amount base >>= λ n.
      allocate rule lines (sub64 remaining n) (sub64 base line.amount) >>= λ rest. ok (n ∷ rest)
]

-- The coupon is switched off, deleted, outside its window or used up.
unfoldable pub is_closed : Coupon → ℕ → Bool
is_closed c now =
    not c.active
    || is_some c.deleted_at
    || ltb now c.starts_at
    || not (ltb now c.ends_at)
    || (ltb_ℤ (pos 0) c.usage_limit && leb_ℤ c.usage_limit c.used_count)

-- The second half of `Calculate`: the discount on the eligible amount, and its allocation.
unfoldable pub quote_for : Coupon → CouponRule → List Line → ℤ → Result Quote
unfolding raw_discount allocate
quote_for c rule lines eligible = do
  fail_if (leb_ℤ eligible (pos 0) || ltb_ℤ eligible rule.min_order) conflict
  d ← raw_discount c eligible
  let capped = if ltb_ℤ eligible d then eligible else d
  shares ← allocate rule lines capped eligible
  ok (record { coupon_id = c.id; discount = capped; line_discounts = shares })

unfoldable pub calculate : Coupon → CouponRule → List Line → ℕ → Result Quote
unfolding sum_eligible quote_for is_closed
calculate c rule lines now = do
  fail_if (ltb 100 (length lines)) invalid
  fail_if (is_closed c now) conflict
  eligible ← sum_eligible rule lines (pos 0)
  quote_for c rule lines eligible
