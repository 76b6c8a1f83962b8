-- ===== src/Auth/Sessions.antt =====
-- A key that is gone from Redis, before and after each operation of internal/modules/auth.
use e_commerce_be.Prelude.{
  ℕ, ◌≡◌, refl, ap, ◌∙◌, ◌≤◌, ◌*◌, inl, inr, Bool, true, false, not, ◌||◌, ltb, Option, none, some,
  List, [], ◌∷◌, ◌==◌, find, delete, arith, Option-cases,
}
use e_commerce_be.Shared.{Word, Uuid, Err, invalid_token, invalid_credentials, Result, ok, err}
use e_commerce_be.Text.{trim_space, is_empty}
use e_commerce_be.Words.{customer}
use e_commerce_be.Text.{byte_len}
use e_commerce_be.Auth.{
  Op, AuthDb, Key, Claims, Libraries, TokenPair, ◌>>=◌, go_on, give, Account, fail_when, row, fresh,
  hash_is, set_key, store, consume_key, delete_key, generate, generate_refresh, issue_tokens,
  create_account, register, login, claimed, mint, put_pair, refresh_claims, month, has_email,
  normal, role_of, refresh, logout, change_password, forgot_password, take_reset, replace_password,
  reset_password,
}

pub find-delete :
    (p q : Key → Bool) (ks : List Key) → find q ks ≡ none → find q (delete p ks) ≡ none
unfolding find delete
find-delete p q [] h = refl
find-delete p q (k ∷ ks) h = ground (arith, find-delete p q ks)

pub delete-find : (p : Key → Bool) (ks : List Key) → find p (delete p ks) ≡ none
unfolding find delete
delete-find p [] = refl
delete-find p (k ∷ ks) = ground (arith, delete-find p ks)

set-other :
    (h k : Word) (user : Uuid) (ks : List Key)
    → find (hash_is h) ks ≡ none
    → (k == h) ≡ false
    → find (hash_is h) (set_key k user ks) ≡ none
unfolding find
set-other h k user ks lost other = ground (arith, find-delete (hash_is k) (hash_is h) ks lost)

-- No refresh token with an identifier from `n` on has the hash `h`.
unfoldable pub Unlike : Libraries → Word → ℕ → Type 0
Unlike l h n =
    (c : Claims) (id : Uuid) (token : Word)
    → c.token_id ≡ some id
    → n ≤ id
    → l.sign c ≡ ok token
    → (l.hash_token token == h) ≡ false

-- The key `h` is gone, and the identifiers below `n` are given out.
pub record Gone (h : Word) (n : ℕ) (db : AuthDb) : Type 0 where
  pub later : n ≤ db.next_id
  pub absent : find (hash_is h) db.refresh_keys ≡ none

module _ (h : Word) (n : ℕ) where
  abbrev pub Keeps : {A : Type 0} → Op A → Type 0
  Keeps m = (db : AuthDb) → Gone h n db → Gone h n (m db).1

  same-Gone :
      (db db' : AuthDb)
      → db'.refresh_keys ≡ db.refresh_keys
      → db.next_id ≤ db'.next_id
      → Gone h n db
      → Gone h n db'
  same-Gone db db' keys le gone = record {
    later = let start = gone.later in omega arith;
    absent = ap (find (hash_is h)) keys ∙ gone.absent;
  }

  after-Gone :
      {A B : Type 0} (f : A → Op B) (r : Result A) (db : AuthDb)
      → Gone h n db
      → ((a : A) → r ≡ ok a → Gone h n (f a db).1)
      → Gone h n (go_on f r db).1
  after-Gone f (ok a) db gone keeps = keeps a refl
  after-Gone f (err e) db gone keeps = gone

  bind-Keeps :
      {A B : Type 0} (m : Op A) (f : A → Op B) → Keeps m → ((a : A) → Keeps (f a)) → Keeps (m >>= f)
  bind-Keeps m f km kf db gone =
      after-Gone f (m db).0 (m db).1 (km db gone) (λ a e. kf a (m db).1 (km db gone))

  give-Keeps : {A : Type 0} (r : Result A) → Keeps (give r)
  give-Keeps r db gone = gone

  fail_when-Keeps : (test : Bool) (e : Err) → Keeps (fail_when test e)
  fail_when-Keeps true e db gone = gone
  fail_when-Keeps false e db gone = gone

  row-Keeps : {A : Type 0} (f : AuthDb → Option A) (e : Err) → Keeps (row f e)
  row-Keeps f e db gone = elim (Option-cases (f db)) [
    | inl lost ↦ rw (lost, row) gone
    | inr (a, found) ↦ rw (found, row) gone
  ]

  fresh-Keeps : Keeps fresh
  fresh-Keeps db gone = same-Gone db (fresh db).1 refl (omega arith) gone

  pub consume_key-Keeps : (k : Word) (user : Uuid) → Keeps (consume_key k user)
  unfolding consume_key
  consume_key-Keeps k user db gone = record {
    later = gone.later;
    absent = find-delete (hash_is k) (hash_is h) db.refresh_keys gone.absent;
  }

  pub delete_key-Keeps : (k : Word) → Keeps (delete_key k)
  unfolding delete_key
  delete_key-Keeps k db gone = record {
    later = gone.later;
    absent = find-delete (hash_is k) (hash_is h) db.refresh_keys gone.absent;
  }

  create_account-Keeps :
      (email : List ℕ) (hash : Word) (name : List ℕ) → Keeps (create_account email hash name)
  unfolding create_account
  create_account-Keeps email hash name db gone =
      elim (Option-cases (find (has_email email) db.users)) [
        | inr (a, found) ↦ rw (found, create_account) gone
        | inl new ↦ elim (Option-cases (find (λ r. r == customer) db.roles)) [
          | inl lost ↦ rw (new, create_account) (rw lost gone)
          | inr (role, found) ↦
              rw (new, create_account) (rw found (same-Gone db _ refl (omega arith) gone))
        ]
      ]

  module _ (l : Libraries) (unlike : Unlike l h n) where
    store-Keeps :
        (c : Claims) (id : Uuid) (token : Word) (user : Uuid)
        → c.token_id ≡ some id
        → n ≤ id
        → l.sign c ≡ ok token
        → Keeps (store (l.hash_token token) user)
    unfolding store Unlike
    store-Keeps c id token user named le signed db gone = record {
      later = gone.later;
      absent =
          set-other h (l.hash_token token) user db.refresh_keys gone.absent
            (unlike c id token named le signed);
    }

    pub issue_tokens-Keeps :
        (now : ℕ) (user : Uuid) (role : Word) → Keeps (issue_tokens l now user role)
    unfolding issue_tokens generate_refresh
    issue_tokens-Keeps now user role =
        let access = generate l now user role (15 * 60) in
        bind-Keeps (give access) (mint l now user role) (give-Keeps access) (λ a db gone.
          let made = generate_refresh l now db.next_id user role month in
          let gone1 = fresh-Keeps db gone in
          after-Gone (put_pair l user a) made (fresh db).1 gone1 (λ token signed.
            store-Keeps (refresh_claims now db.next_id user role month) db.next_id token user refl
              gone.later signed (fresh db).1 gone1))

    pub register-Keeps :
        (now : ℕ) (email password name : List ℕ) → Keeps (register l now email password name)
    unfolding register
    register-Keeps now email password name =
        let finish : Uuid → TokenPair → Op (Uuid × TokenPair) =
          λ user pair. give (ok (user, pair)) in
        let pay : Uuid → Op (Uuid × TokenPair) =
          λ user. issue_tokens l now user customer >>= finish user in
        let save : Word → Op (Uuid × TokenPair) =
          λ hash. create_account (normal l email) hash (trim_space name) >>= pay in
        let draw : Uuid → Op (Uuid × TokenPair) =
          λ salt. give (l.hash_password salt password) >>= save in
        let test = is_empty (normal l email) || ltb (byte_len password) 8 in
        bind-Keeps (fail_when test invalid_credentials) (λ _. fresh >>= draw)
          (fail_when-Keeps test invalid_credentials)
          (λ _. bind-Keeps fresh draw fresh-Keeps (λ salt.
            bind-Keeps (give (l.hash_password salt password)) save
              (give-Keeps (l.hash_password salt password))
              (λ hash.
                bind-Keeps (create_account (normal l email) hash (trim_space name)) pay
                  (create_account-Keeps (normal l email) hash (trim_space name))
                  (λ user.
                    bind-Keeps (issue_tokens l now user customer) (finish user)
                      (issue_tokens-Keeps now user customer) (λ pair db gone. gone)))))

    pub login-Keeps : (now : ℕ) (email password : List ℕ) → Keeps (login l now email password)
    unfolding login
    login-Keeps now email password =
        let finish : Uuid → TokenPair → Op (Uuid × TokenPair) =
          λ user pair. give (ok (user, pair)) in
        let pay : Uuid → Word → Op (Uuid × TokenPair) =
          λ user role. issue_tokens l now user role >>= finish user in
        let ask : Uuid → Op Word = λ user db. (ok (role_of l user db), db) in
        let test : Account → Bool = λ a. not (l.verify_password a.password password) in
        let enter : Account → Op (Uuid × TokenPair) =
          λ a. fail_when (test a) invalid_credentials >>= λ _. ask a.id >>= pay a.id in
        let get : AuthDb → Option Account = λ db. find (has_email (normal l email)) db.users in
        bind-Keeps (row get invalid_credentials) enter (row-Keeps get invalid_credentials) (λ a.
          bind-Keeps (fail_when (test a) invalid_credentials) (λ _. ask a.id >>= pay a.id)
            (fail_when-Keeps (test a) invalid_credentials)
            (λ _.
              bind-Keeps (ask a.id) (pay a.id) (λ db gone. gone)
                (λ role.
                  bind-Keeps (issue_tokens l now a.id role) (finish a.id)
                    (issue_tokens-Keeps now a.id role) (λ pair db gone. gone))))

    pub refresh-Keeps : (now : ℕ) (token : Word) → Keeps (refresh l now token)
    unfolding refresh
    refresh-Keeps now token =
        bind-Keeps {B = TokenPair} (row (λ db. claimed l now token) invalid_token) _
          (row-Keeps _ invalid_token)
          (λ (user, role).
            let renew : Unit {0} → Op TokenPair = λ _. issue_tokens l now user role in
            let check : Bool → Op TokenPair =
              λ consumed. fail_when (not consumed) invalid_token >>= renew in
            bind-Keeps (consume_key (l.hash_token token) user) check (consume_key-Keeps _ user)
              (λ consumed.
                bind-Keeps (fail_when (not consumed) invalid_token) renew
                  (fail_when-Keeps _ invalid_token) (λ _. issue_tokens-Keeps now user role)))

    pub logout-Keeps : (now : ℕ) (token : Word) → Keeps (logout l now token)
    unfolding logout
    logout-Keeps now token =
        let check : Bool → Op (Unit {0}) = λ deleted. fail_when (not deleted) invalid_token in
        bind-Keeps (row (λ db. claimed l now token) invalid_token)
          (λ _. delete_key (l.hash_token token) >>= check) (row-Keeps _ invalid_token)
          (λ _.
            bind-Keeps (delete_key (l.hash_token token)) check (delete_key-Keeps _)
              (λ deleted. fail_when-Keeps (not deleted) invalid_token))

    pub forgot_password-Keeps :
        (token : Word) (email : List ℕ) → Keeps (forgot_password l token email)
    unfolding forgot_password
    forgot_password-Keeps token email db gone =
        same-Gone db (forgot_password l token email db).1 (ground arith) (ground arith) gone

    pub change_password-Keeps :
        (user : Uuid) (current new : List ℕ) → Keeps (change_password l user current new)
    unfolding change_password
    change_password-Keeps user current new db gone =
        same-Gone db (change_password l user current new db).1 (ground arith) (ground arith) gone

    pub reset_password-Keeps : (token : Word) (new : List ℕ) → Keeps (reset_password l token new)
    unfolding reset_password take_reset replace_password
    reset_password-Keeps token new db gone =
        same-Gone db (reset_password l token new db).1 (ground arith) (ground arith) gone
