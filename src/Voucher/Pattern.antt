-- ===== src/Voucher/Pattern.antt =====
-- The pattern of a voucher's code, `^[A-Z0-9_-]{3,40}$`, apart from the test of it.
use e_commerce_be.Prelude.{
  ℕ, suc, ◌≡◌, ◌↔◌, ◌⊎◌, ◌≤◌, refl, inl, inr, true, List, [], ◌∷◌, length, map, arith,
}
use e_commerce_be.Shared.{ok}
use e_commerce_be.Text.{all, trim_space, to_upper}
use e_commerce_be.Voucher.Code.{
  is_code_char, is_code, folded, normalize, normalize_ok, normalize_accepts,
}

-- `[A-Z0-9_-]`
abbrev pub InClass : ℕ → Type 0
InClass c = ((b'A' ≤ c) × (c ≤ b'Z')) ⊎ (((b'0' ≤ c) × (c ≤ b'9')) ⊎ ((c ≡ b'_') ⊎ (c ≡ b'-')))

-- Exactly `n` characters of the class.
unfoldable pub Repeats : ℕ → List ℕ → Type 0
Repeats n [] = n ≡ 0
Repeats n (c ∷ s) = (m : ℕ) × (n ≡ suc m) × InClass c × Repeats m s

-- Between 3 and 40 of them, and no more.
abbrev pub Matches : List ℕ → Type 0
Matches s = (n : ℕ) × (3 ≤ n) × (n ≤ 40) × Repeats n s

class_of : (c : ℕ) → is_code_char c ≡ true → InClass c
unfolding is_code_char
class_of c h = ground arith

of_class : (c : ℕ) → InClass c → is_code_char c ≡ true
unfolding is_code_char
of_class c h = ground arith

repeats : (s : List ℕ) → all is_code_char s ≡ true → Repeats (length s) s
unfolding Repeats all
repeats [] h = refl
repeats (c ∷ s) h = (length s, refl, class_of c (ground arith), repeats s (ground arith))

repeated : (n : ℕ) (s : List ℕ) → Repeats n s → (length s ≡ n) × (all is_code_char s ≡ true)
unfolding Repeats all
repeated n [] h = (ground arith, refl)
repeated n (c ∷ s) (m, count, here, rest) =
    let (size, others) = repeated m s rest in
    let first = of_class c here in (ground arith, ground (arith, first, others))

is_code-Matches : (s : List ℕ) → is_code s ≡ true → Matches s
unfolding is_code
is_code-Matches s h = (length s, ground arith, ground arith, repeats s (ground arith))

Matches-is_code : (s : List ℕ) → Matches s → is_code s ≡ true
unfolding is_code
Matches-is_code s (n, low, high, rest) =
    let (size, others) = repeated n s rest in ground (arith, size, others)

-- Normalize gives the trimmed text in upper case where that is empty or matches
-- `^[A-Z0-9_-]{3,40}$`, and succeeds for no other text, whatever the case table does beyond ASCII.
pub normalize-Matches :
    (upper_other : ℕ → ℕ) (s c : List ℕ)
    → (normalize upper_other s ≡ ok c)
      ↔ ((c ≡ map (to_upper upper_other) (trim_space s)) × ((c ≡ []) ⊎ Matches c))
unfolding folded
normalize-Matches upper_other s c = (
  λ h.
      let (same, good) = normalize_ok upper_other s c h in
      (same, elim good [ inl e ↦ inl e | inr code ↦ inr (is_code-Matches c code) ]),
  λ h. elim h.1 [
    | inl e ↦ normalize_accepts upper_other s c h.0 (inl e)
    | inr match ↦ normalize_accepts upper_other s c h.0 (inr (Matches-is_code c match))
  ],
)
