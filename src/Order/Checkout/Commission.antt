-- ===== src/Order/Checkout/Commission.antt =====
-- The commission of a seller order, against the share of its total.
use e_commerce_be.Prelude.{
  ℕ, ◌+◌, ◌*◌, ◌/◌, ◌%◌, ◌≤◌, ◌≡◌, ap, arith, pos, add64_fits, mul64_fits, quot64_fits,
}
use native.Mathlib.Nat.{mul-add-div}
use e_commerce_be.Order.Checkout.{commission_of}

ten_thousands : (t q m r : ℕ) → 10000 * q + m ≡ t → t * r ≡ 10000 * (q * r) + m * r
ten_thousands t q m r h = rw (← h) (omega arith)

rate_split : (t r : ℕ) → t / 10000 * r + t % 10000 * r / 10000 ≡ t * r / 10000
rate_split t r =
    rw (
      ten_thousands t (t / 10000) (t % 10000) r (omega arith),
      mul-add-div {m = 10000} (omega arith),
    )

-- For a total of at most 10^18 and a rate of at most 10000 hundredths of a percent, the commission is
-- the total times the rate over 10000, rounded down; no product overflows on the way.
pub commission_of_lem :
    (t r : ℕ)
    → t ≤ 1000000000000000000
    → r ≤ 10000
    → commission_of (pos t) (pos r) ≡ pos (t * r / 10000)
unfolding commission_of
commission_of_lem t r ht hr = rw (quot64_fits t 10000 (omega arith) (omega arith)) (
    rw (mul64_fits (t / 10000) r (grind arith), mul64_fits (t % 10000) r (grind arith))
      (rw (quot64_fits (t % 10000 * r) 10000 (grind arith) (omega arith)) (
        rw (add64_fits (t / 10000 * r) (t % 10000 * r / 10000) (grind arith))
          (ap pos (rate_split t r)))))
