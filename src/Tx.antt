-- ===== src/Tx.antt =====
-- A transaction over the tables of one database: `db.Transaction(func(tx) error { ... })` and the
-- calls inside it. A call that fails has no state, since its transaction is rolled back.
use e_commerce_be.Prelude.{◌≡◌, refl, ◌⊎◌, inl, inr, Bool, true, false, Option, none, some}
use e_commerce_be.Shared.{Err, not_found, Result, ok, err}

abbrev pub Tx : Type 0 → Type 0 → Type 0
Tx S A = S → Result (A × S)

abbrev pub ⊤ : Type 0
⊤ = Unit

infixl 5 ◌>>=◌ ◌>>◌
abbrev pub ◌>>=◌ : {S A B : Type 0} → Tx S A → (A → Tx S B) → Tx S B
◌>>=◌ m f db = elim (m db) [ err e ↦ err e | ok (a, db') ↦ f a db' ]

abbrev pub ◌>>◌ : {S A B : Type 0} → Tx S A → Tx S B → Tx S B
m >> k = m >>= λ _. k

module _ {S A : Type 0} where
  abbrev pub pure : A → Tx S A
  pure a db = ok (a, db)

  abbrev pub raise : Err → Tx S A
  raise e db = err e

  abbrev pub gets : (S → A) → Tx S A
  gets f db = ok (f db, db)

  -- `First`, which fails with gorm.ErrRecordNotFound where no row fits.
  abbrev pub first : (S → Option A) → Tx S A
  first f db = elim (f db) [ none ↦ err not_found | some a ↦ ok (a, db) ]

  -- What another process, or a pure check, returned.
  abbrev pub lift : Result A → Tx S A
  lift (ok a) db = ok (a, db)
  lift (err e) db = err e

  -- The live state after a request: a failed transaction leaves it as it was.
  abbrev pub commit : S → Result (A × S) → S
  commit db (ok (a, db')) = db'
  commit db (err e) = db

module _ {S : Type 0} where
  abbrev pub raise_if : Bool → Err → Tx S ⊤
  raise_if test e db = elim test [ true ↦ err e | false ↦ ok (tt, db) ]

  abbrev pub modify : (S → S) → Tx S ⊤
  modify f db = ok (tt, f db)

  -- `if test { ... }`
  abbrev pub when : Bool → Tx S ⊤ → Tx S ⊤
  when test m db = elim test [ true ↦ m db | false ↦ ok (tt, db) ]

-- Inversion of a sequence of calls that succeeded.
module _ {S A B : Type 0} (f : A → Tx S B) where
  split_ok :
      (x : Result (A × S)) {r : B × S}
      → elim x [ err e ↦ err e | ok (a, db') ↦ f a db' ] ≡ ok r
      → (a : A) × (db' : S) × (x ≡ ok (a, db')) × (f a db' ≡ ok r)
  split_ok (ok (a, db')) h = (a, db', refl, h)
  split_ok (err e) h = cc

  pub bind_ok :
      (m : Tx S A) (db : S) {r : B × S}
      → (m >>= f) db ≡ ok r
      → (a : A) × (db' : S) × (m db ≡ ok (a, db')) × (f a db' ≡ ok r)
  bind_ok m db h = split_ok (m db) h

module _ {S : Type 0} where
  pub raise_if_ok :
      (test : Bool) (e : Err) (db : S) {r : ⊤ × S}
      → raise_if test e db ≡ ok r
      → (test ≡ false) × (r ≡ (tt, db))
  raise_if_ok true e db h = cc
  raise_if_ok false e db h = (refl, cc)

  pub when_ok :
      (test : Bool) (m : Tx S ⊤) (db : S) {r : ⊤ × S}
      → when test m db ≡ ok r
      → ((test ≡ false) × (r ≡ (tt, db))) ⊎ ((test ≡ true) × (m db ≡ ok r))
  when_ok true m db h = inr (refl, h)
  when_ok false m db h = inl (refl, cc)
