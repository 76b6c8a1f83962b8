-- ===== src/Voucher/Division.antt =====
-- Facts about division on the natural numbers that the voucher arithmetic rests on.
use e_commerce_be.Prelude.{
  ℕ, ◌+◌, ◌-◌, ◌*◌, ◌/◌, ◌%◌, ◌≤◌, ◌<◌, ◌≡◌, arith, Bool-cases, leb, inl, inr,
}
use native.Mathlib.Nat.{mul-add-div}

-- The quotient is at most any bound that the product with the divisor meets.
div-le : (n b k : ℕ) → 0 < b → n ≤ b * k → n / b ≤ k
div-le n b k h p = grind arith

le-div : (n b k : ℕ) → 0 < b → b * k ≤ n → k ≤ n / b
le-div n b k h p = grind arith

-- With r ≤ b the share of an amount a is at most the amount.
pub share-le-amount : (r a b : ℕ) → 0 < b → r ≤ b → r * a / b ≤ a
share-le-amount r a b h p = grind arith

pub share-le-remaining : (r a b : ℕ) → 0 < b → a ≤ b → r * a / b ≤ r
share-le-remaining r a b h p = grind arith

cross : (r x k : ℕ) → k ≤ r → (r + x) * k ≤ r * (x + k)
cross r x k h = grind arith

cross_split : (r x k a b : ℕ) → k ≤ r → r + x ≡ b → x + k ≡ a → b * k ≤ r * a
cross_split r x k a b h eb ea = rw (← eb, ← ea) (cross r x k h)

-- What is left of the discount fits in what is left of the amounts.
pub share_leaves : (r a b : ℕ) → 0 < b → r ≤ b → a ≤ b → r + a ≤ b + r * a / b
share_leaves r a b h p q = elim (Bool-cases (leb (r + a) b)) [
  | inl small ↦ ground arith
  | inr large ↦
      let over : b ≤ r + a = ground arith in
      let c = cross_split r (b - r) (r + a - b) a b (omega arith) (omega arith) (omega arith) in
      omega (arith, le-div (r * a) b (r + a - b) h c)
]

hundreds : (e q m v : ℕ) → 100 * q + m ≡ e → e * v ≡ 100 * (q * v) + m * v
hundreds e q m v h = rw (← h) (omega arith)

-- Taking the percentage of the hundreds and of the rest apart loses nothing.
pub percent_split : (e v : ℕ) → e / 100 * v + e % 100 * v / 100 ≡ e * v / 100
percent_split e v =
    rw (hundreds e (e / 100) (e % 100) v (omega arith), mul-add-div {m = 100} (omega arith))
