-- ===== src/Voucher/Allocation.antt =====
-- The allocation loop of `Calculate`: what the shares of the lines add up to, and their bounds.
use e_commerce_be.Prelude.{
  ℕ, ◌+◌, ◌-◌, ◌*◌, ◌/◌, ◌^◌, ◌≤◌, ◌<◌, ◌≡◌, refl, ap, pos-+ℤ, true, false, List, [], ◌∷◌, inl, inr,
  arith, Bool-cases, if◌then◌else◌, ℤ, pos, negsuc, pos_part, ◌+ℤ◌, ◌≤ℤ◌, wrap64_fits, sub64_fits,
  sub64,
}
use e_commerce_be.Shared.{Result, ok, err, ◌>>=◌}
use e_commerce_be.Models.{CouponRule}
use e_commerce_be.Voucher.{Line, covers, skips, share, allocate}
use e_commerce_be.Voucher.Division.{share-le-amount, share-le-remaining, share_leaves}

-- Every amount lies between 0 and the limit that `Calculate` checks.
abbrev pub InRange : List Line → Type 0
InRange [] = Unit
InRange (line ∷ lines) =
    (pos 0 ≤ℤ line.amount) × (line.amount ≤ℤ pos 10000000000000000) × InRange lines

-- What the rule covers of a line, and of a cart.
abbrev pub covered : CouponRule → Line → ℕ
covered rule line = if covers rule line then pos_part line.amount else 0

abbrev pub eligible_total : CouponRule → List Line → ℕ
eligible_total rule [] = 0
eligible_total rule (line ∷ lines) = covered rule line + eligible_total rule lines

-- One share for each line, between 0 and what the rule covers of it.
abbrev pub Splits : CouponRule → List Line → List ℤ → Type 0
Splits rule [] [] = Unit
Splits rule [] (s ∷ shares) = ⊥
Splits rule (line ∷ lines) [] = ⊥
Splits rule (line ∷ lines) (s ∷ shares) =
    (pos 0 ≤ℤ s) × (s ≤ℤ pos (covered rule line)) × Splits rule lines shares

abbrev pub total : List ℤ → ℤ
total [] = pos 0
total (s ∷ shares) = s +ℤ total shares

pub nonneg : (z : ℤ) → pos 0 ≤ℤ z → z ≡ pos (pos_part z)
nonneg (pos n) h = refl
nonneg (negsuc n) h = absurd (omega arith)

share_lem :
    (r a b : ℕ) → 0 < b → r ≤ b → a < 2 ^ 63 → share (pos r) (pos a) (pos b) ≡ ok (pos (r * a / b))
unfolding share
share_lem r a b hb hr ha = ground (arith, share-le-amount r a b hb hr, wrap64_fits (r * a / b))

share_of :
    (r a b : ℕ) (z : ℤ)
    → z ≡ pos a
    → 0 < b
    → r ≤ b
    → a < 2 ^ 63
    → share (pos r) z (pos b) ≡ ok (pos (r * a / b))
share_of r a b z e hb hr ha = rw e (share_lem r a b hb hr ha)

base_after : (b a : ℕ) (z : ℤ) → z ≡ pos a → a ≤ b → b < 2 ^ 63 → sub64 (pos b) z ≡ pos (b - a)
base_after b a z e h k = rw e (sub64_fits b a h k)

-- What the loop promises from a remaining discount and the amounts still to come.
abbrev pub Allocates : CouponRule → List Line → ℕ → Result (List ℤ) → Type 0
Allocates rule lines r (err e) = ⊥
Allocates rule lines r (ok shares) = Splits rule lines shares × (total shares ≡ pos r)

cons-Allocates :
    (rule : CouponRule) (line : Line) (lines : List Line) (s r' r : ℕ) (rest : Result (List ℤ))
    → s ≤ covered rule line
    → s + r' ≡ r
    → Allocates rule lines r' rest
    → Allocates rule (line ∷ lines) r (rest >>= λ shares. ok (pos s ∷ shares))
cons-Allocates rule line lines s r' r (ok shares) hs e (splits, sum) =
    ((omega arith, omega arith, splits), rw (sum, pos-+ℤ s r') (ap pos e))
cons-Allocates rule line lines s r' r (err x) hs e h = h

covered-skips : (rule : CouponRule) (line : Line) → skips rule line ≡ true → covered rule line ≡ 0
covered-skips rule line h = ground arith

amount-covered :
    (rule : CouponRule) (line : Line)
    → skips rule line ≡ false
    → pos 0 ≤ℤ line.amount
    → (line.amount ≡ pos (covered rule line)) × (0 < covered rule line)
amount-covered rule line h p = ground arith

allocate_skip :
    (rule : CouponRule) (line : Line) (lines : List Line) (r b : ℤ)
    → skips rule line ≡ true
    → allocate rule (line ∷ lines) r b ≡ (allocate rule lines r b >>= λ rest. ok (pos 0 ∷ rest))
unfolding allocate
allocate_skip rule line lines r b h = rw (h, allocate)

allocate_keep :
    (rule : CouponRule) (line : Line) (lines : List Line) (r b s : ℤ)
    → skips rule line ≡ false
    → share r line.amount b ≡ ok s
    → allocate rule (line ∷ lines) r b
      ≡ (allocate rule lines (sub64 r s) (sub64 b line.amount) >>= λ rest. ok (s ∷ rest))
unfolding allocate
allocate_keep rule line lines r b s h e = rw (h, allocate) (rw e)

pub allocate-Allocates :
    (rule : CouponRule) (lines : List Line) (r b : ℕ)
    → InRange lines
    → eligible_total rule lines ≡ b
    → r ≤ b
    → b < 2 ^ 63
    → Allocates rule lines r (allocate rule lines (pos r) (pos b))
unfolding allocate
allocate-Allocates rule [] r b range e hr hb = (tt, ground arith)
allocate-Allocates rule (line ∷ lines) r b (low, high, range) e hr hb =
    elim (Bool-cases (skips rule line)) [
      | inl skip ↦ rw (allocate_skip rule line lines (pos r) (pos b) skip) (
          cons-Allocates rule line lines 0 r r _ (omega arith) (omega arith) (
            allocate-Allocates rule lines r b range (omega (arith, covered-skips rule line skip)) hr
              hb))
      | inr keep ↦
          let (amount, positive) = amount-covered rule line keep low in
          let a = covered rule line in
          let s = r * a / b in
          let rest = eligible_total rule lines in
          let s-le = share-le-amount r a b (omega arith) hr in
          let s-le-r = share-le-remaining r a b (omega arith) (omega arith) in
          let leaves = share_leaves r a b (omega arith) hr (omega arith) in
          let shared : share (pos r) line.amount (pos b) ≡ ok (pos s) =
            share_of r a b line.amount amount (omega arith) hr (omega arith) in
          let left : sub64 (pos r) (pos s) ≡ pos (r - s) = sub64_fits r s s-le-r (omega arith) in
          let base : sub64 (pos b) line.amount ≡ pos (b - a) =
            base_after b a line.amount amount (omega arith) hb in
          rw (allocate_keep rule line lines (pos r) (pos b) (pos s) keep shared, left, base)
            (cons-Allocates rule line lines s (r - s) r _ s-le (omega arith) (
              allocate-Allocates rule lines (r - s) (b - a) range (omega arith) (omega arith)
                (omega arith)))
    ]
