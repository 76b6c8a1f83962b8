-- ===== src/Shared.antt =====
-- internal/modules/shared/repository.go: the errors that the modules return, and a fallible call.
-- A string that the program only compares is a number here, a `Word`; a uuid is a number too,
-- with 0 for uuid.Nil. A string whose bytes or characters matter is a list of numbers.
use e_commerce_be.Prelude.{
  ℕ, ◌≡◌, refl, Bool, true, false, Option, none, some, List, [], ◌∷◌, ◌&&◌, ◌==◌, arith, ◌⊎◌, inl,
  inr,
}

abbrev pub Word : Type 0
Word = ℕ

abbrev pub Uuid : Type 0
Uuid = ℕ

-- `constraint` is an error that a CHECK or UNIQUE clause of the schema raises, and `panicked` is a
-- run-time panic.
pub data Err : Type 0 where
  forbidden unauthorized invalid conflict unavailable rate_limited not_found : Err
  constraint panicked : Err
  invalid_credentials email_exists invalid_token email_unavailable internal_error : Err

pub data Result {ℓ} (A : Type ℓ) : Type ℓ where
  err : Err → Result A
  ok : A → Result A

-- `if err != nil { return err }`, after a call that gives a value.
infixl 5 ◌>>=◌
abbrev pub ◌>>=◌ {ℓ κ} : {A : Type ℓ} {B : Type κ} → Result A → (A → Result B) → Result B
err e >>= rest = err e
ok a >>= rest = rest a

-- The same, after a call that gives none.
infixl 5 ◌>>◌
abbrev pub ◌>>◌ {ℓ} : {B : Type ℓ} → Result (Unit {0}) → Result B → Result B
check >> rest = check >>= λ done. rest

-- `if test { return e }`
abbrev pub fail_if : Bool → Err → Result (Unit {0})
fail_if true e = err e
fail_if false e = ok tt

abbrev pub is_some {ℓ} : {A : Type ℓ} → Option A → Bool
is_some none = false
is_some (some _) = true

-- Two strings, character by character.
unfoldable pub text_eq : List ℕ → List ℕ → Bool
text_eq [] [] = true
text_eq [] (y ∷ ys) = false
text_eq (x ∷ xs) [] = false
text_eq (x ∷ xs) (y ∷ ys) = (x == y) && text_eq xs ys

pub text_eq_refl : (xs : List ℕ) → text_eq xs xs ≡ true
unfolding text_eq
text_eq_refl [] = refl
text_eq_refl (x ∷ xs) = ground (arith, text_eq_refl xs)

pub eq_of_text_eq : (xs ys : List ℕ) → text_eq xs ys ≡ true → xs ≡ ys
unfolding text_eq
eq_of_text_eq [] [] h = refl
eq_of_text_eq [] (y ∷ ys) h = ground arith
eq_of_text_eq (x ∷ xs) [] h = ground arith
eq_of_text_eq (x ∷ xs) (y ∷ ys) h = ground (arith, eq_of_text_eq xs ys)

pub Result-cases {ℓ} :
    {A : Type ℓ} (r : Result A) → ((e : Err) × (r ≡ err e)) ⊎ ((a : A) × (r ≡ ok a))
Result-cases (ok a) = inr (a, refl)
Result-cases (err e) = inl (e, refl)
