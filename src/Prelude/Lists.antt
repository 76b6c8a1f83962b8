-- ===== src/Prelude/Lists.antt =====
-- Lists measured by native numbers, and queries over a table held as a list of rows.
use Prim.Native.Nat.{ℕ, zero, suc, ◌+◌}
use mathlib.Core.Path.{◌≡◌, refl}
use mathlib.Core.Bool.{Bool, true, false}
use mathlib.Core.List.{List, [], ◌∷◌, ◌++◌}
use mathlib.Core.Option.{Option, none, some}
use native.Mathlib.Omega.{arith}
use e_commerce_be.Prelude.Tests.{if◌then◌else◌}

module _ {ℓ} {A : Type ℓ} where
  abbrev pub length : List A → ℕ
  length [] = 0
  length (x ∷ xs) = suc (length xs)

  -- `SELECT ... WHERE p LIMIT 1`: the first row that the condition holds of.
  unfoldable pub find : (A → Bool) → List A → Option A
  find p [] = none
  find p (x ∷ xs) = if p x then some x else find p xs

  -- `SELECT ... WHERE p`
  unfoldable pub select : (A → Bool) → List A → List A
  select p [] = []
  select p (x ∷ xs) = if p x then x ∷ select p xs else select p xs

  pub select-hit :
      (p : A → Bool) (x : A) (xs : List A) → p x ≡ true → select p (x ∷ xs) ≡ x ∷ select p xs
  unfolding select
  select-hit p x xs h = rw h

  pub select-miss :
      (p : A → Bool) (x : A) (xs : List A) → p x ≡ false → select p (x ∷ xs) ≡ select p xs
  unfolding select
  select-miss p x xs h = rw h

  -- `SELECT COUNT(*) WHERE p`
  unfoldable pub count : (A → Bool) → List A → ℕ
  count p [] = 0
  count p (x ∷ xs) = (if p x then 1 else 0) + count p xs

  -- `UPDATE ... SET f WHERE p`
  unfoldable pub update : (A → Bool) → (A → A) → List A → List A
  update p f [] = []
  update p f (x ∷ xs) = (if p x then f x else x) ∷ update p f xs

  -- `DELETE ... WHERE p`
  unfoldable pub delete : (A → Bool) → List A → List A
  delete p [] = []
  delete p (x ∷ xs) = if p x then delete p xs else x ∷ delete p xs

  -- `LIMIT n`
  unfoldable pub take : ℕ → List A → List A
  take n [] = []
  take n (x ∷ xs) = elim n [ zero ↦ [] | suc k ↦ x ∷ take k xs ]

  -- `OFFSET n`
  unfoldable pub drop : ℕ → List A → List A
  drop n [] = []
  drop n (x ∷ xs) = elim n [ zero ↦ x ∷ xs | suc k ↦ drop k xs ]

  unfoldable pub reverse : List A → List A
  reverse [] = []
  reverse (x ∷ xs) = reverse xs ++ (x ∷ [])

  -- `ORDER BY`, where `before` tells which of two rows comes first.
  unfoldable pub insert_by : (A → A → Bool) → A → List A → List A
  insert_by before x [] = x ∷ []
  insert_by before x (y ∷ ys) =
      let rest = insert_by before x ys in if before y x then y ∷ rest else x ∷ y ∷ ys

  unfoldable pub sort_by : (A → A → Bool) → List A → List A
  unfolding insert_by
  sort_by before [] = []
  sort_by before (x ∷ xs) = insert_by before x (sort_by before xs)

  pub length-append : (xs ys : List A) → length (xs ++ ys) ≡ length xs + length ys
  length-append [] ys = omega arith
  length-append (x ∷ xs) ys = omega (arith, length-append xs ys)

-- What an update leaves of a query that it does not touch.
module _ {ℓ} {A : Type ℓ} (q p : A → Bool) (f : A → A) (same : (x : A) → q (f x) ≡ q x) where
  pub find-update :
      (xs : List A)
      → find q (update p f xs)
        ≡ elim (find q xs) [ none ↦ none | some x ↦ some (if p x then f x else x) ]
  unfolding find update
  find-update [] = refl
  find-update (x ∷ xs) = ground (arith, same x, find-update xs)

  pub count-update : (xs : List A) → count q (update p f xs) ≡ count q xs
  unfolding count update
  count-update [] = refl
  count-update (x ∷ xs) = ground (arith, same x, count-update xs)

pub find_holds {ℓ} :
    {A : Type ℓ} (p : A → Bool) (xs : List A) (x : A) → find p xs ≡ some x → p x ≡ true
unfolding find
find_holds p [] x e = cc
find_holds p (y ∷ xs) x e = ground (arith, find_holds p xs x)

-- No row fits a condition of which the count is 0.
pub count-zero {ℓ} :
    {A : Type ℓ} (p q : A → Bool) (xs : List A) (x : A)
    → count p xs ≡ 0
    → find q xs ≡ some x
    → p x ≡ false
unfolding count find
count-zero p q [] x h e = cc
count-zero p q (y ∷ xs) x h e = ground (arith, count-zero p q xs x)

-- Where every row that the query fits is overwritten by one that it fits, the query finds that one.
pub find-update_const {ℓ} :
    {A : Type ℓ} (q p : A → Bool) (s v : A) (xs : List A)
    → ((x : A) → q x ≡ true → p x ≡ true)
    → q s ≡ true
    → find q xs ≡ some v
    → find q (update p (λ _. s) xs) ≡ some s
unfolding find update
find-update_const q p s v [] covers fits e = cc
find-update_const q p s v (x ∷ xs) covers fits e =
    ground (arith, covers x, find-update_const q p s v xs covers fits)
