-- ===== src/Voucher/Sums.antt =====
-- The sum of the eligible amounts in `Calculate`, and the percentage.
use e_commerce_be.Prelude.{
  ℕ, ◌+◌, ◌*◌, ◌/◌, ◌%◌, ◌^◌, ◌≤◌, ◌<◌, ◌≡◌, ◌≢◌, refl, ap, false, List, [], ◌∷◌, inl, inr, arith,
  Bool-cases, if◌then◌else◌, ℤ, pos, pos_part, ◌≤ℤ◌, length, add64, add64_fits, mul64_fits,
  quot64_fits,
}
use e_commerce_be.Shared.{Result, ok, err, panicked}
use e_commerce_be.Models.{CouponRule}
use e_commerce_be.Voucher.{Line, covers, out_of_range, sum_eligible, percent_of}
use e_commerce_be.Voucher.Division.{percent_split}
use e_commerce_be.Voucher.Allocation.{InRange, covered, eligible_total, nonneg}

abbrev pub line_limit : ℕ
line_limit = 10000000000000000

pub eligible_total_le :
    (rule : CouponRule) (lines : List Line)
    → InRange lines
    → eligible_total rule lines ≤ length lines * line_limit
eligible_total_le rule [] h = omega arith
eligible_total_le rule (line ∷ lines) h = ground (arith, eligible_total_le rule lines h.2)

-- What the checking loop promises: an error, or the exact sum over amounts that are all in range.
abbrev pub Sums : CouponRule → List Line → ℕ → Result ℤ → Type 0
Sums rule lines acc (err e) = e ≢ panicked
Sums rule lines acc (ok z) = InRange lines × (z ≡ pos (acc + eligible_total rule lines))

cons-Sums :
    (rule : CouponRule) (line : Line) (lines : List Line) (acc acc' : ℕ) (rest : Result ℤ)
    → pos 0 ≤ℤ line.amount
    → line.amount ≤ℤ pos line_limit
    → acc' ≡ acc + covered rule line
    → Sums rule lines acc' rest
    → Sums rule (line ∷ lines) acc rest
cons-Sums rule line lines acc acc' (err x) low high e h = h
cons-Sums rule line lines acc acc' (ok z) low high e h = ((low, high, h.0), ground arith)

next_sum :
    (rule : CouponRule) (line : Line) (acc : ℕ)
    → out_of_range line ≡ false
    → acc + line_limit < 2 ^ 63
    → (if covers rule line then add64 (pos acc) line.amount else pos acc)
      ≡ pos (acc + covered rule line)
next_sum rule line acc range bound =
    ground (arith, add64_fits acc (pos_part line.amount), nonneg line.amount)

sum_eligible_step :
    (rule : CouponRule) (line : Line) (lines : List Line) (acc : ℕ)
    → out_of_range line ≡ false
    → acc + line_limit < 2 ^ 63
    → sum_eligible rule (line ∷ lines) (pos acc)
      ≡ sum_eligible rule lines (pos (acc + covered rule line))
unfolding sum_eligible
sum_eligible_step rule line lines acc range bound =
    rw (range, sum_eligible) (rw (next_sum rule line acc range bound))

pub sum_eligible-Sums :
    (rule : CouponRule) (lines : List Line) (acc : ℕ)
    → acc + length lines * line_limit < 2 ^ 63
    → Sums rule lines acc (sum_eligible rule lines (pos acc))
unfolding sum_eligible
sum_eligible-Sums rule [] acc bound = (tt, ground arith)
sum_eligible-Sums rule (line ∷ lines) acc bound = elim (Bool-cases (out_of_range line)) [
  | inl bad ↦ rw (bad, sum_eligible, Sums) (λ e. cc)
  | inr range ↦ rw (sum_eligible_step rule line lines acc range (omega arith)) (
      cons-Sums rule line lines acc (acc + covered rule line) _ (ground arith) (ground arith) refl
        (sum_eligible-Sums rule lines (acc + covered rule line) (ground arith)))
]

pub percent_of_lem :
    (e v : ℕ) → e ≤ 1000000000000000000 → v ≤ 100 → percent_of (pos e) (pos v) ≡ pos (e * v / 100)
unfolding percent_of
percent_of_lem e v he hv = rw (quot64_fits e 100 (omega arith) (omega arith)) (
    rw (mul64_fits (e / 100) v (grind arith), mul64_fits (e % 100) v (grind arith))
      (rw (quot64_fits (e % 100 * v) 100 (grind arith) (omega arith)) (
        rw (add64_fits (e / 100 * v) (e % 100 * v / 100) (grind arith))
          (ap pos (percent_split e v)))))

-- Amounts in range are all accepted.
pub sum_eligible_accepts :
    (rule : CouponRule) (lines : List Line) (acc : ℕ)
    → InRange lines
    → acc + length lines * line_limit < 2 ^ 63
    → sum_eligible rule lines (pos acc) ≡ ok (pos (acc + eligible_total rule lines))
unfolding sum_eligible
sum_eligible_accepts rule [] acc range bound = ground arith
sum_eligible_accepts rule (line ∷ lines) acc (low, high, range) bound =
    rw (sum_eligible_step rule line lines acc (ground arith) (omega arith)) (
      rw (sum_eligible_accepts rule lines (acc + covered rule line) range (ground arith))
        (ground arith))
