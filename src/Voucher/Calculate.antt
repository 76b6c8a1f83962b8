-- ===== src/Voucher/Calculate.antt =====
-- `Calculate` as a whole: its quotes, and the requests that get one.
use e_commerce_be.Prelude.{
  ℕ, ◌+◌, ◌≤◌, ◌<◌, ◌≡◌, ◌≢◌, refl, false, List, inl, inr, arith, Bool-cases, ℤ, pos, ◌≤ℤ◌, length,
  ltb,
}
use mathlib.Core.Path.{subst}
use e_commerce_be.Shared.{Result, ok, err, ◌>>=◌, panicked}
use e_commerce_be.Models.{Coupon, CouponRule}
use e_commerce_be.Voucher.{Line, Quote, sum_eligible, is_closed, quote_for, calculate}
use e_commerce_be.Voucher.Allocation.{InRange, eligible_total}
use e_commerce_be.Voucher.Sums.{Sums, sum_eligible-Sums, sum_eligible_accepts, eligible_total_le}
use e_commerce_be.Voucher.Quotes.{
  IsPriced, IsExact, Promises, quote_for-Promises, quote_for_accepts,
}

-- A request that `Calculate` should grant.
pub record IsRedeemable (c : Coupon) (rule : CouponRule) (lines : List Line) (now : ℕ)
    : Type 0 where
  pub short : length lines ≤ 100
  pub running : is_closed c now ≡ false
  pub range : InRange lines
  pub positive : 0 < eligible_total rule lines
  pub enough : rule.min_order ≤ℤ pos (eligible_total rule lines)
  pub priced : IsPriced c

abbrev Grants : Coupon → CouponRule → List Line → ℕ → Result Quote → Type 0
Grants c rule lines now (err x) = x ≢ panicked
Grants c rule lines now (ok q) = IsRedeemable c rule lines now × IsExact c rule lines q

grant :
    (c : Coupon) (rule : CouponRule) (lines : List Line) (now : ℕ) (r : Result Quote)
    → length lines ≤ 100
    → is_closed c now ≡ false
    → InRange lines
    → Promises c rule lines r
    → Grants c rule lines now r
grant c rule lines now (err x) short running range p = p
grant c rule lines now (ok q) short running range p = (
  record {
    short = short;
    running = running;
    range = range;
    positive = p.positive;
    enough = p.enough;
    priced = p.priced;
  },
  p,
)

after_sum :
    (c : Coupon) (rule : CouponRule) (lines : List Line) (now : ℕ) (r : Result ℤ)
    → length lines ≤ 100
    → is_closed c now ≡ false
    → Sums rule lines 0 r
    → Grants c rule lines now (r >>= quote_for c rule lines)
after_sum c rule lines now (err x) short running h = h
after_sum c rule lines now (ok z) short running (range, e) = rw e (
    grant c rule lines now _ short running range (
      quote_for-Promises c rule lines (0 + eligible_total rule lines) range (omega arith)
        (omega (arith, eligible_total_le rule lines range))))

calculate-Grants :
    (c : Coupon) (rule : CouponRule) (lines : List Line) (now : ℕ)
    → Grants c rule lines now (calculate c rule lines now)
unfolding calculate
calculate-Grants c rule lines now = elim (Bool-cases (ltb 100 (length lines))) [
  | inl long ↦ rw (long, calculate, Grants) (λ x. cc)
  | inr short ↦ elim (Bool-cases (is_closed c now)) [
    | inl closed ↦ rw (short, calculate) (rw closed (λ x. cc))
    | inr running ↦
        rw (short, calculate)
          (rw running (
            after_sum c rule lines now (sum_eligible rule lines (pos 0)) (ground arith) running
              (sum_eligible-Sums rule lines 0 (ground arith))))
  ]
]

-- Whenever `Calculate` gives a quote, the request was sound, each line's share lies between 0 and
-- what the rule covers of the line, the shares add up to the discount exactly, and the discount is
-- what the coupon offers, capped by the eligible amount; no sum or product overflows on the way.
pub calculate-IsExact :
    (c : Coupon) (rule : CouponRule) (lines : List Line) (now : ℕ) (q : Quote)
    → calculate c rule lines now ≡ ok q
    → IsRedeemable c rule lines now × IsExact c rule lines q
calculate-IsExact c rule lines now q e =
    subst (Grants c rule lines now) e (calculate-Grants c rule lines now)

-- No input makes `Calculate` divide by zero: the allocation never panics.
pub calculate-ne-panicked :
    (c : Coupon) (rule : CouponRule) (lines : List Line) (now : ℕ)
    → calculate c rule lines now ≢ err panicked
calculate-ne-panicked c rule lines now e =
    subst (Grants c rule lines now) e (calculate-Grants c rule lines now) refl

-- Every sound request gets a quote.
pub calculate_accepts :
    (c : Coupon) (rule : CouponRule) (lines : List Line) (now : ℕ)
    → IsRedeemable c rule lines now
    → (q : Quote) × (calculate c rule lines now ≡ ok q)
unfolding calculate
calculate_accepts c rule lines now h =
    let short : ltb 100 (length lines) ≡ false = ground arith in
    let sum = sum_eligible_accepts rule lines 0 h.range (omega arith) in
    let (q, e) =
      quote_for_accepts c rule lines (0 + eligible_total rule lines) h.range (omega arith)
        (omega (arith, eligible_total_le rule lines h.range)) (omega arith) (omega arith)
        h.priced in
    (q, rw (short, calculate) (rw h.running (rw sum e)))
