-- ===== src/Voucher/Quotes.antt =====
-- What `Calculate` promises of a quote, and when it gives one.
use e_commerce_be.Prelude.{
  ℕ, ◌*◌, ◌/◌, ◌≤◌, ◌<◌, ◌≡◌, ◌≢◌, refl, ap, false, List, inl, inr, arith, Bool-cases, ◌==◌, ◌||◌,
  min, if◌then◌else◌, ℤ, pos, pos_part, ◌≤ℤ◌, ltb_ℤ, leb_ℤ, ◌⊎◌,
}
use e_commerce_be.Words.{percent, fixed}
use e_commerce_be.Shared.{Result, ok, err, ◌>>=◌, invalid, panicked}
use e_commerce_be.Models.{Coupon, CouponRule}
use e_commerce_be.Voucher.{Line, Quote, percent_of, raw_discount, quote_for}
use e_commerce_be.Voucher.Allocation.{
  InRange, eligible_total, Splits, total, Allocates, allocate-Allocates, nonneg,
}
use e_commerce_be.Voucher.Sums.{percent_of_lem}

-- The discount that a coupon offers on an eligible amount: the stated percentage, rounded down and
-- capped, or the fixed value.
abbrev pub offered : Coupon → ℕ → ℕ
offered c e =
    if c.kind == percent
    then min (pos_part c.max_discount) (e * pos_part c.value / 100)
    else pos_part c.value

-- The checks on the coupon's own numbers.
abbrev pub IsPriced : Coupon → Type 0
IsPriced c =
    ((c.kind ≡ percent) × (pos 1 ≤ℤ c.value) × (c.value ≤ℤ pos 100) × (pos 1 ≤ℤ c.max_discount))
    ⊎ ((c.kind ≡ fixed) × (pos 1 ≤ℤ c.value))

abbrev Offers : Coupon → ℕ → Result ℤ → Type 0
Offers c e (err x) = x ≢ panicked
Offers c e (ok d) = d ≡ pos (offered c e)

raw_discount-percent :
    (c : Coupon) (e : ℕ)
    → e ≤ 1000000000000000000
    → c.kind ≡ percent
    → pos 1 ≤ℤ c.value
    → c.value ≤ℤ pos 100
    → pos 1 ≤ℤ c.max_discount
    → raw_discount c (pos e) ≡ ok (pos (offered c e))
unfolding raw_discount
raw_discount-percent c e he k low high cap =
    ground (arith, percent_of_lem e (pos_part c.value) he, nonneg c.value, nonneg c.max_discount)

raw_discount-fixed :
    (c : Coupon) (e : ℕ)
    → c.kind ≡ fixed
    → pos 1 ≤ℤ c.value
    → raw_discount c (pos e) ≡ ok (pos (offered c e))
unfolding raw_discount
raw_discount-fixed c e k low = ground (arith, nonneg c.value)

raw_discount_priced :
    (c : Coupon) (e : ℕ)
    → e ≤ 1000000000000000000
    → IsPriced c
    → raw_discount c (pos e) ≡ ok (pos (offered c e))
raw_discount_priced c e he (inl (k, low, high, cap)) = raw_discount-percent c e he k low high cap
raw_discount_priced c e he (inr (k, low)) = raw_discount-fixed c e k low

raw_discount_unpriced : (c : Coupon) (e : ℕ) → ((raw_discount c (pos e) ≡ err invalid) ⊎ IsPriced c)
unfolding raw_discount percent_of
raw_discount_unpriced c e = ground arith

-- What holds of a quote that is given.
pub record IsExact (c : Coupon) (rule : CouponRule) (lines : List Line) (q : Quote) : Type 0 where
  pub splits : Splits rule lines q.line_discounts
  pub sum : total q.line_discounts ≡ q.discount
  pub best :
      q.discount ≡ pos (min (eligible_total rule lines) (offered c (eligible_total rule lines)))
  pub positive : 0 < eligible_total rule lines
  pub enough : rule.min_order ≤ℤ pos (eligible_total rule lines)
  pub priced : IsPriced c
  pub owned : q.coupon_id ≡ c.id

abbrev pub Promises : Coupon → CouponRule → List Line → Result Quote → Type 0
Promises c rule lines (err x) = x ≢ panicked
Promises c rule lines (ok q) = IsExact c rule lines q

-- The end of `quote_for`, once the discount is known.
shared_quote :
    (c : Coupon) (rule : CouponRule) (lines : List Line) (e d : ℕ) (r : Result (List ℤ))
    → d ≡ min e (offered c e)
    → eligible_total rule lines ≡ e
    → 0 < e
    → rule.min_order ≤ℤ pos e
    → IsPriced c
    → Allocates rule lines d r
    → Promises c rule lines (
        r >>= λ shares. ok (record { coupon_id = c.id; discount = pos d; line_discounts = shares }))
shared_quote c rule lines e d (err x) best sum pos_e enough priced h = elim h [ ]
shared_quote c rule lines e d (ok shares) best sum pos_e enough priced h = record {
  splits = h.0;
  sum = h.1;
  best = rw sum (ap pos best);
  positive = omega arith;
  enough = rw sum enough;
  priced = priced;
  owned = refl;
}

cap_lem : (e d : ℕ) → (if ltb_ℤ (pos e) (pos d) then pos e else pos d) ≡ pos (min e d)
cap_lem e d = ground arith

pub quote_for-Promises :
    (c : Coupon) (rule : CouponRule) (lines : List Line) (e : ℕ)
    → InRange lines
    → eligible_total rule lines ≡ e
    → e ≤ 1000000000000000000
    → Promises c rule lines (quote_for c rule lines (pos e))
unfolding quote_for
quote_for-Promises c rule lines e range sum bound =
    elim (Bool-cases (leb_ℤ (pos e) (pos 0) || ltb_ℤ (pos e) rule.min_order)) [
      | inl low ↦ rw (low, quote_for, Promises) (λ x. cc)
      | inr enough ↦ elim (raw_discount_unpriced c e) [
        | inl bad ↦ rw (enough, quote_for) (rw bad (λ x. cc))
        | inr priced ↦
            rw (enough, quote_for)
              (rw (raw_discount_priced c e bound priced) (
                rw (cap_lem e (offered c e)) (
                  shared_quote c rule lines e (min e (offered c e)) _ refl sum (ground arith)
                    (ground arith) priced
                    (allocate-Allocates rule lines (min e (offered c e)) e range sum (omega arith)
                      (omega arith)))))
      ]
    ]

ok_of_Allocates :
    (rule : CouponRule) (lines : List Line) (d : ℕ) (r : Result (List ℤ))
    → Allocates rule lines d r
    → (shares : List ℤ) × (r ≡ ok shares)
ok_of_Allocates rule lines d (err x) h = elim h [ ]
ok_of_Allocates rule lines d (ok shares) h = (shares, refl)

-- A priced coupon with enough to cover gives a quote.
pub quote_for_accepts :
    (c : Coupon) (rule : CouponRule) (lines : List Line) (e : ℕ)
    → InRange lines
    → eligible_total rule lines ≡ e
    → e ≤ 1000000000000000000
    → 0 < e
    → rule.min_order ≤ℤ pos e
    → IsPriced c
    → (q : Quote) × (quote_for c rule lines (pos e) ≡ ok q)
unfolding quote_for
quote_for_accepts c rule lines e range sum bound positive enough priced =
    let d = min e (offered c e) in
    let test : (leb_ℤ (pos e) (pos 0) || ltb_ℤ (pos e) rule.min_order) ≡ false = ground arith in
    let (shares, given) =
      ok_of_Allocates rule lines d _
        (allocate-Allocates rule lines d e range sum (omega arith) (omega arith)) in
    (
      record { coupon_id = c.id; discount = pos d; line_discounts = shares },
      rw (test, quote_for)
          (rw (raw_discount_priced c e bound priced) (rw (cap_lem e (offered c e)) (rw given))),
    )
