-- ===== src/Voucher/Code.antt =====
-- `Normalize` and `Input.Validate` of internal/modules/voucher/service.go.
use e_commerce_be.Prelude.{
  ℕ, ◌≡◌, refl, sym, Bool, true, false, ◌&&◌, ◌||◌, not, List, [], ◌∷◌, map, arith, ltb, leb, ◌==◌,
  Bool-cases, inl, inr, length, ℤ, pos, ltb_ℤ, leb_ℤ, ◌==ℤ◌, ◌⊎◌,
}
use mathlib.Core.Path.{subst}
use e_commerce_be.Shared.{Word, Result, ok, err, ◌>>=◌, ◌>>◌, fail_if, invalid}
use e_commerce_be.Text.{trim_space, to_upper, is_space, is_empty, all, trim_space-all, map-all}
use e_commerce_be.Words.{fixed, percent}

-- `[A-Z0-9_-]`
unfoldable pub is_code_char : ℕ → Bool
is_code_char c = (leb b'A' c && leb c b'Z') || (leb b'0' c && leb c b'9') || c == b'_' || c == b'-'

-- `^[A-Z0-9_-]{3,40}$`
unfoldable pub is_code : List ℕ → Bool
unfolding is_code_char all
is_code s = leb 3 (length s) && leb (length s) 40 && all is_code_char s

pub record Input : Type 0 where
  pub code : List ℕ
  pub kind : Word
  pub value : ℤ
  pub max_discount : ℤ
  pub min_order : ℤ
  pub usage_limit : ℤ
  pub starts_at : ℕ
  pub ends_at : ℕ

is_code_char-upper : (f : ℕ → ℕ) (c : ℕ) → is_code_char c ≡ true → to_upper f c ≡ c
unfolding is_code_char to_upper
is_code_char-upper f c h = ground arith

is_code_char-space : (c : ℕ) → is_code_char c ≡ true → is_space c ≡ false
unfolding is_code_char is_space
is_code_char-space c h = ground arith

-- `if code != "" && !codePattern.MatchString(code)`
unfoldable pub checked : List ℕ → Result (List ℕ)
unfolding is_code
checked code = do fail_if (not (is_empty code) && not (is_code code)) invalid; ok code

checked_cases :
    (s : List ℕ)
    → ((checked s ≡ ok s) × ((s ≡ []) ⊎ (is_code s ≡ true))) ⊎ (checked s ≡ err invalid)
unfolding checked
checked_cases [] = inl (refl, inl refl)
checked_cases (c ∷ s) = elim (Bool-cases (is_code (c ∷ s))) [
  | inl good ↦ inl (rw (good, checked), inr good)
  | inr bad ↦ inr (rw (bad, checked))
]

checked_code : (s : List ℕ) → is_code s ≡ true → checked s ≡ ok s
unfolding checked
checked_code s h = ground arith

all-is_code : (s : List ℕ) → is_code s ≡ true → all is_code_char s ≡ true
unfolding is_code
all-is_code s h = ground arith

module _ (upper_other : ℕ → ℕ) where
  -- `strings.ToUpper(strings.TrimSpace(code))`
  unfoldable pub folded : List ℕ → List ℕ
  unfolding trim_space to_upper
  folded s = map (to_upper upper_other) (trim_space s)

  unfoldable pub normalize : List ℕ → Result (List ℕ)
  unfolding folded checked
  normalize s = checked (folded s)

  -- The checks of `Input.Validate`.
  unfoldable pub out_of_bounds : Input → Bool
  out_of_bounds input =
      leb_ℤ input.value (pos 0)
      || ltb_ℤ (pos 1000000000000) input.value
      || ltb_ℤ input.min_order (pos 0)
      || ltb_ℤ (pos 1000000000000000000) input.min_order
      || ltb_ℤ input.max_discount (pos 0)
      || ltb_ℤ (pos 1000000000000) input.max_discount
      || ltb_ℤ input.usage_limit (pos 0)
      || ltb_ℤ (pos 1000000000) input.usage_limit
      || input.starts_at == 0
      || not (ltb input.starts_at input.ends_at)

  unfoldable pub mispriced : Input → Bool
  mispriced input =
      not (input.kind == fixed)
      && (not (input.kind == percent)
          || ltb_ℤ (pos 100) input.value
          || input.max_discount ==ℤ pos 0)

  unfoldable pub validate : Input → Result (Unit {0})
  unfolding normalize out_of_bounds mispriced
  validate input = do
    code ← normalize input.code
    fail_if (is_empty code || out_of_bounds input) invalid
    fail_if (mispriced input) invalid

  -- What a successful call gives is the folded text, and empty or past the check.
  pub normalize_ok :
      (s c : List ℕ) → normalize s ≡ ok c → (c ≡ folded s) × ((c ≡ []) ⊎ (is_code c ≡ true))
  unfolding normalize
  normalize_ok s c h = elim (checked_cases (folded s)) [
    | inl (e, good) ↦
        let same : c ≡ folded s = cc in
        (same, subst (λ d. (d ≡ []) ⊎ (is_code d ≡ true)) (sym same) good)
    | inr bad ↦ cc
  ]

  pub normalize_accepts :
      (s c : List ℕ) → c ≡ folded s → (c ≡ []) ⊎ (is_code c ≡ true) → normalize s ≡ ok c
  unfolding normalize
  normalize_accepts s c same (inl e) = rw (sym same) (rw e refl)
  normalize_accepts s c same (inr good) = rw (sym same) (checked_code c good)

  folded-code : (c : List ℕ) → is_code c ≡ true → folded c ≡ c
  unfolding folded
  folded-code c h = rw (trim_space-all is_code_char c is_code_char-space (all-is_code c h)) (
      map-all is_code_char (to_upper upper_other) c (is_code_char-upper upper_other)
        (all-is_code c h))

  normalize_code : (c : List ℕ) → is_code c ≡ true → normalize c ≡ ok c
  unfolding normalize
  normalize_code c h = rw (folded-code c h) (checked_code c h)

  normalize_of_cases : (c : List ℕ) → (c ≡ []) ⊎ (is_code c ≡ true) → normalize c ≡ ok c
  unfolding normalize
  normalize_of_cases c (inl e) = rw e
  normalize_of_cases c (inr h) = normalize_code c h

  -- Normalizing a normalized code changes nothing, whatever the case table does beyond ASCII.
  pub normalize_idem : (s c : List ℕ) → normalize s ≡ ok c → normalize c ≡ ok c
  normalize_idem s c h = normalize_of_cases c ((normalize_ok s c h).1)
