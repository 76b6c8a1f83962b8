-- ===== src/Auth/Passwords.antt =====
-- The password that Register hashed, and Login with it.
use e_commerce_be.Prelude.{
  ℕ, ◌≡◌, refl, sym, ap, ◌∙◌, true, ◌||◌, some, List, ◌*◌, ltb, find, arith,
}
use e_commerce_be.Shared.{Word, Uuid, invalid_credentials, Result, ok, err, text_eq_refl}
use e_commerce_be.Words.{customer}
use e_commerce_be.Text.{byte_len, trim_space, is_empty}
use e_commerce_be.Auth.{
  Op, AuthDb, Account, Claims, Libraries, TokenPair, ◌>>=◌, go_on, give, fail_when, fresh, store,
  generate, generate_refresh, issue_tokens, create_account, new_account, access_claims,
  refresh_claims, month, register, login, normal, role_of, has_email,
}

-- bcrypt accepts the password that it hashed.
unfoldable pub Checks : Libraries → Type 0
Checks l =
    (salt : Uuid) (password : List ℕ) (hash : Word)
    → l.hash_password salt password ≡ ok hash
    → l.verify_password hash password ≡ true

-- Signing claims never fails.
unfoldable pub Signs : Libraries → Type 0
Signs l = (c : Claims) → (token : Word) × (l.sign c ≡ ok token)

issue_accepts :
    (l : Libraries) (now : ℕ) (user : Uuid) (role : Word) (db : AuthDb)
    → Signs l
    → (pair : TokenPair) × ((issue_tokens l now user role db).0 ≡ ok pair)
unfolding issue_tokens Signs generate generate_refresh store
issue_accepts l now user role db signs =
    let (access, s1) = signs (access_claims now user role (15 * 60)) in
    let (refresh, s2) = signs (refresh_claims now db.next_id user role month) in
    (record { access = access; refresh = refresh; expires_in = 900 }, ground (arith, s1, s2))

issue_tokens-users :
    (l : Libraries) (now : ℕ) (user : Uuid) (role : Word) (db : AuthDb)
    → (issue_tokens l now user role db).1.users ≡ db.users
unfolding issue_tokens store
issue_tokens-users l now user role db = ground arith

login_accepts :
    (l : Libraries) (now : ℕ) (email password : List ℕ) (a : Account) (db : AuthDb)
    → find (has_email (normal l email)) db.users ≡ some a
    → l.verify_password a.password password ≡ true
    → Signs l
    → (pair : TokenPair) × ((login l now email password db).0 ≡ ok (a.id, pair))
unfolding login
login_accepts l now email password a db found checked signs =
    let (pair, issued) = issue_accepts l now a.id (role_of l a.id db) db signs in
    (pair, ground (arith, found, checked, issued))

created :
    (email : List ℕ) (hash : Word) (name : List ℕ) (user : Uuid) (db : AuthDb)
    → (create_account email hash name db).0 ≡ ok user
    → (a : Account) × (find (has_email email) (create_account email hash name db).1.users ≡ some a)
      × (a.id ≡ user)
      × (a.password ≡ hash)
unfolding create_account find
created email hash name user db h =
    (new_account email hash name db.next_id, ground (arith, text_eq_refl email), ground arith, refl)

go_on_ok :
    {A B : Type 0} (f : A → Op B) (r : Result A) (db : AuthDb) {b : B}
    → (go_on f r db).0 ≡ ok b
    → (a : A) × (r ≡ ok a) × (go_on f r db ≡ f a db)
go_on_ok f (ok a) db h = (a, refl, refl)
go_on_ok f (err e) db h = cc

-- A sequence of which the whole succeeded ends as its last part does.
bind_through :
    {A B : Type 0} (m : Op A) (f : A → Op B) (db : AuthDb) {b : B}
    → ((m >>= f) db).0 ≡ ok b
    → (a : A) × ((m db).0 ≡ ok a) × ((f a (m db).1).0 ≡ ok b) × ((m >>= f) db ≡ f a (m db).1)
bind_through m f db h =
    let (a, given, rest) = go_on_ok f (m db).0 (m db).1 h in
    (a, given, ap (λ s. s.0) (sym rest) ∙ h, rest)

-- What a registration that succeeded left.
register_made :
    (l : Libraries) (now : ℕ) (email password name : List ℕ) (user : Uuid) (pair : TokenPair)
    (db : AuthDb)
    → (register l now email password name db).0 ≡ ok (user, pair)
    → (a : Account) × (salt : Uuid) × (find
          (has_email (normal l email))
          (register l now email password name db).1.users
        ≡ some a)
      × (a.id ≡ user)
      × (l.hash_password salt password ≡ ok a.password)
unfolding register
register_made l now email password name user pair db h =
    let finish : Uuid → TokenPair → Op (Uuid × TokenPair) = λ u p. give (ok (u, p)) in
    let pay : Uuid → Op (Uuid × TokenPair) = λ u. issue_tokens l now u customer >>= finish u in
    let save : Word → Op (Uuid × TokenPair) =
      λ hash. create_account (normal l email) hash (trim_space name) >>= pay in
    let draw : Uuid → Op (Uuid × TokenPair) =
      λ salt. give (l.hash_password salt password) >>= save in
    let test = is_empty (normal l email) || ltb (byte_len password) 8 in
    let (_, e1, h1, r1) =
      bind_through (fail_when test invalid_credentials) (λ _. fresh >>= draw) db h in
    let d1 = (fail_when test invalid_credentials db).1 in
    let d2 = (fresh d1).1 in
    let (hash, e2, h2, r2) = bind_through (give (l.hash_password d1.next_id password)) save d2 h1 in
    let create = create_account (normal l email) hash (trim_space name) in
    let (u, e3, h3, r3) = bind_through create pay d2 h2 in
    let d3 = (create d2).1 in
    let (p, e4, h4, r4) = bind_through (issue_tokens l now u customer) (finish u) d3 h3 in
    let (a, found, who, pass) = created (normal l email) hash (trim_space name) u d2 e3 in
    let same : u ≡ user = ground arith in
    let ends = r1 ∙ (r2 ∙ (r3 ∙ r4)) in
    (
      a,
      d1.next_id,
      ap (λ (s : Result (Uuid × TokenPair) × AuthDb). find (has_email (normal l email)) s.1.users)
            ends
          ∙ (ap (find (has_email (normal l email))) (issue_tokens-users l now u customer d3)
              ∙ found),
      who ∙ same,
      e2 ∙ ap ok (sym pass),
    )

-- A registered account can be logged in with its password, under any spelling of the email that
-- normalizes to the same, provided that bcrypt accepts what it hashed and signing does not fail.
pub register-login :
    (l : Libraries) (now now' : ℕ) (email email' password name : List ℕ) (user : Uuid)
    (pair : TokenPair) (db : AuthDb)
    → Checks l
    → Signs l
    → normal l email' ≡ normal l email
    → (register l now email password name db).0 ≡ ok (user, pair)
    → (pair' : TokenPair) × ((login l now' email' password
          (register l now email password name db).1).0
        ≡ ok (user, pair'))
unfolding Checks
register-login l now now' email email' password name user pair db checks signs same h =
    let db1 = (register l now email password name db).1 in
    let (a, salt, found, who, hashed) = register_made l now email password name user pair db h in
    let found' = ap (λ e. find (has_email e) db1.users) same ∙ found in
    let (pair', opened) =
      login_accepts l now' email' password a db1 found' (checks salt password a.password hashed)
        signs in
    (pair', opened ∙ ap (λ u. ok (u, pair')) who)
