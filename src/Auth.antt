-- ===== src/Auth.antt =====
-- internal/modules/auth and internal/auth: accounts in PostgreSQL, refresh and reset tokens in Redis.
-- Redis takes no part in a transaction, so a call has a next state also where it fails. What bcrypt,
-- the JWT package, SHA-256, the mail server and the scan of several rows into one variable give is
-- in `Libraries`.
pub mod Sessions
pub mod Once
pub mod Passwords
use e_commerce_be.Prelude.{
  ℕ, suc, ◌+◌, ◌*◌, Bool, true, false, not, ◌&&◌, ◌||◌, Option, none, some, List, [], ◌∷◌, map, ltb,
  ◌==◌, find, select, update, delete, length,
}
use e_commerce_be.Shared.{
  Word, Uuid, Err, not_found, constraint, invalid_credentials, email_exists, invalid_token,
  email_unavailable, Result, ok, err, is_some, text_eq,
}
use e_commerce_be.Words.{customer, access_token, refresh_token, service_token}
use e_commerce_be.Text.{byte_len, trim_space, is_empty}
use e_commerce_be.Models.{UserRole}

pub record Account : Type 0 where
  pub id : Uuid
  pub email : List ℕ
  pub password : Word
  pub full_name : List ℕ
  pub deleted_at : Option ℕ

-- `Claims`. Of the subject, what uuid.Parse reads in it.
pub record Claims : Type 0 where
  pub role : Word
  pub kind : Word
  pub token_id : Option Uuid
  pub subject : Option Uuid
  pub expires_at : ℕ
  pub issued_at : ℕ

pub record TokenPair : Type 0 where
  pub access : Word
  pub refresh : Word
  pub expires_in : ℕ

pub record Libraries : Type 0 where
  -- strings.ToLower
  pub lower : List ℕ → List ℕ
  -- bcrypt, with the salt it draws.
  pub hash_password : Uuid → List ℕ → Result Word
  pub verify_password : Word → List ℕ → Bool
  -- `SignedString` with the secret, and `ParseWithClaims` at a time.
  pub sign : Claims → Result Word
  pub parse : ℕ → Word → Option Claims
  pub hash_token : Word → Word
  -- The mail server, none where the service has none, or no URL.
  pub send_mail : Option (List ℕ → Word → Bool)
  -- What scanning role names into one variable leaves in it.
  pub scan_role : List Word → Option Word

-- A key of Redis with its value, the user.
pub record Key : Type 0 where
  pub hash : Word
  pub user : Uuid

pub record AuthDb : Type 0 where
  pub users : List Account
  pub roles : List Word
  pub user_roles : List UserRole
  -- ecommerce:auth:refresh and ecommerce:auth:password-reset
  pub refresh_keys : List Key
  pub reset_keys : List Key
  pub next_id : Uuid

abbrev pub Op : Type 0 → Type 0
Op A = AuthDb → Result A × AuthDb

-- `if err != nil { return err }`
abbrev pub go_on : {A B : Type 0} → (A → Op B) → Result A → Op B
go_on f (err e) db = (err e, db)
go_on f (ok a) db = f a db

infixl 5 ◌>>=◌ ◌>>◌
abbrev pub ◌>>=◌ : {A B : Type 0} → Op A → (A → Op B) → Op B
◌>>=◌ m f db = let (r, db') = m db in go_on f r db'

abbrev pub ◌>>◌ : {A B : Type 0} → Op A → Op B → Op B
m >> k = m >>= λ _. k

abbrev pub give : {A : Type 0} → Result A → Op A
give r db = (r, db)

abbrev pub fail_when : Bool → Err → Op (Unit {0})
fail_when test e db = elim test [ true ↦ (err e, db) | false ↦ (ok tt, db) ]

-- `First`
abbrev pub row : {A : Type 0} → (AuthDb → Option A) → Err → Op A
row f e db = elim (f db) [ none ↦ (err e, db) | some a ↦ (ok a, db) ]

abbrev pub fresh : Op Uuid
fresh db = (ok db.next_id, record db { next_id = suc db.next_id })

abbrev pub hash_is : Word → Key → Bool
hash_is h k = k.hash == h

-- SET key value EX ttl
abbrev pub set_key : Word → Uuid → List Key → List Key
set_key h user ks = record { hash = h; user = user } ∷ delete (hash_is h) ks

-- `refreshTokenStore.Store`
unfoldable pub store : Word → Uuid → Op (Unit {0})
store h user db = (ok tt, record db { refresh_keys = set_key h user db.refresh_keys })

-- `refreshTokenStore.Consume`, GETDEL
unfoldable pub consume_key : Word → Uuid → Op Bool
consume_key h user db = (
  ok elim (find (hash_is h) db.refresh_keys) [ none ↦ false | some k ↦ k.user == user ],
  record db { refresh_keys = delete (hash_is h) db.refresh_keys },
)

-- `refreshTokenStore.Delete`, DEL
unfoldable pub delete_key : Word → Op Bool
delete_key h db = (
  ok (is_some (find (hash_is h) db.refresh_keys)),
  record db { refresh_keys = delete (hash_is h) db.refresh_keys },
)

abbrev pub access_claims : ℕ → Uuid → Word → ℕ → Claims
access_claims now user role seconds = record {
  role = role;
  kind = access_token;
  token_id = none;
  subject = some user;
  expires_at = now + seconds;
  issued_at = now;
}

-- `TokenService.Generate`
unfoldable pub generate : Libraries → ℕ → Uuid → Word → ℕ → Result Word
generate l now user role seconds = l.sign (access_claims now user role seconds)

abbrev pub refresh_claims : ℕ → Uuid → Uuid → Word → ℕ → Claims
refresh_claims now id user role seconds = record {
  role = role;
  kind = refresh_token;
  token_id = some id;
  subject = some user;
  expires_at = now + seconds;
  issued_at = now;
}

-- `TokenService.GenerateRefresh`
unfoldable pub generate_refresh : Libraries → ℕ → Uuid → Uuid → Word → ℕ → Result Word
generate_refresh l now id user role seconds = l.sign (refresh_claims now id user role seconds)

-- `TokenService.GenerateService`, of which the subject is no uuid.
unfoldable pub generate_service : Libraries → ℕ → Word → ℕ → Result Word
generate_service l now service seconds = l.sign (record {
  role = service;
  kind = service_token;
  token_id = none;
  subject = none;
  expires_at = now + seconds;
  issued_at = now;
})

abbrev pub month : ℕ
month = 30 * 24 * 60 * 60

abbrev pub put_pair : Libraries → Uuid → Word → Word → Op TokenPair
put_pair l user access refresh = do
  store (l.hash_token refresh) user
  give (ok (record { access = access; refresh = refresh; expires_in = 900 }))

abbrev pub mint : Libraries → ℕ → Uuid → Word → Word → Op TokenPair
mint l now user role access = do
  id ← fresh
  refresh ← give (generate_refresh l now id user role month)
  put_pair l user access refresh

unfoldable pub issue_tokens : Libraries → ℕ → Uuid → Word → Op TokenPair
unfolding generate generate_refresh store
issue_tokens l now user role = do
  access ← give (generate l now user role (15 * 60))
  mint l now user role access

abbrev pub normal : Libraries → List ℕ → List ℕ
normal l email = l.lower (trim_space email)

abbrev pub has_email : List ℕ → Account → Bool
has_email email a = text_eq a.email email

abbrev pub live_account : Uuid → Account → Bool
live_account id a = a.id == id && not (is_some a.deleted_at)

abbrev pub new_account : List ℕ → Word → List ℕ → Uuid → Account
new_account email hash name id = record {
  id = id;
  email = email;
  password = hash;
  full_name = name;
  deleted_at = none;
}

-- The transaction of `Register`.
unfoldable pub create_account : List ℕ → Word → List ℕ → Op Uuid
create_account email hash name db = elim (find (has_email email) db.users) [
  | some a ↦ (err email_exists, db)
  | none ↦ elim (find (λ r. r == customer) db.roles) [
    | none ↦ (err not_found, db)
    | some role ↦ (
      ok db.next_id,
      record db {
        users = new_account email hash name db.next_id ∷ db.users;
        user_roles =
            record { user_id = db.next_id; role = customer; role_deleted_at = none }
            ∷ db.user_roles;
        next_id = suc db.next_id;
      },
    )
  ]
]

unfoldable pub register : Libraries → ℕ → List ℕ → List ℕ → List ℕ → Op (Uuid × TokenPair)
unfolding create_account issue_tokens
register l now email password name = do
  fail_when (is_empty (normal l email) || ltb (byte_len password) 8) invalid_credentials
  salt ← fresh
  hash ← give (l.hash_password salt password)
  user ← create_account (normal l email) hash (trim_space name)
  pair ← issue_tokens l now user customer
  give (ok (user, pair))

abbrev pub role_of : Libraries → Uuid → AuthDb → Word
role_of l user db =
    elim (l.scan_role (map (λ r. r.role) (select (λ r. r.user_id == user) db.user_roles))) [
      | none ↦ customer
      | some role ↦ role
    ]

unfoldable pub login : Libraries → ℕ → List ℕ → List ℕ → Op (Uuid × TokenPair)
unfolding issue_tokens
login l now email password = do
  a ← row (λ db. find (has_email (normal l email)) db.users) invalid_credentials
  fail_when (not (l.verify_password a.password password)) invalid_credentials
  role ← λ db. (ok (role_of l a.id db), db)
  pair ← issue_tokens l now a.id role
  give (ok (a.id, pair))

-- `Parse` of a refresh token, and uuid.Parse of its subject.
abbrev pub claimed : Libraries → ℕ → Word → Option (Uuid × Word)
claimed l now token = elim (l.parse now token) [
  | none ↦ none
  | some c ↦ elim (c.kind == refresh_token) [
    | false ↦ none
    | true ↦ elim c.subject [ none ↦ none | some user ↦ some (user, c.role) ]
  ]
]

unfoldable pub refresh : Libraries → ℕ → Word → Op TokenPair
unfolding consume_key issue_tokens
refresh l now token = do
  (user, role) ← row (λ db. claimed l now token) invalid_token
  consumed ← consume_key (l.hash_token token) user
  fail_when (not consumed) invalid_token
  issue_tokens l now user role

unfoldable pub logout : Libraries → ℕ → Word → Op (Unit {0})
unfolding delete_key
logout l now token = do
  (user, role) ← row (λ db. claimed l now token) invalid_token
  deleted ← delete_key (l.hash_token token)
  fail_when (not deleted) invalid_token

unfoldable pub find_user : Uuid → Op Account
find_user id = row (λ db. find (live_account id) db.users) not_found

abbrev pub with_password : Word → Account → Account
with_password hash a = record a { password = hash }

unfoldable pub change_password : Libraries → Uuid → List ℕ → List ℕ → Op (Unit {0})
change_password l user current new = do
  fail_when (ltb (byte_len new) 8 || text_eq current new) invalid_credentials
  a ← row (λ db. find (live_account user) db.users) not_found
  fail_when (not (l.verify_password a.password current)) invalid_credentials
  salt ← fresh
  hash ← give (l.hash_password salt new)
  λ db. (
    ok tt,
    record db { users = update (λ (b : Account). b.id == user) (with_password hash) db.users },
  )

-- `token` is what rand.Read drew, in base64.
unfoldable pub forgot_password : Libraries → Word → List ℕ → Op (Unit {0})
forgot_password l token email db = elim l.send_mail [
  | none ↦ (err email_unavailable, db)
  | some send ↦
      elim (find (λ a. has_email (normal l email) a && not (is_some a.deleted_at)) db.users) [
        | none ↦ (ok tt, db)
        | some a ↦
            let stored = record db {
              reset_keys = set_key (l.hash_token token) a.id db.reset_keys;
            } in
            elim (send a.email token) [
              | true ↦ (ok tt, stored)
              | false ↦ (err email_unavailable, stored)
            ]
      ]
]

-- GETDEL of the reset key.
unfoldable pub take_reset : Word → Op Uuid
take_reset h db = elim (find (hash_is h) db.reset_keys) [
  | none ↦ (err invalid_token, db)
  | some k ↦ (ok k.user, record db { reset_keys = delete (hash_is h) db.reset_keys })
]

-- UPDATE of the password of a live account, where it must change one row.
unfoldable pub replace_password : Uuid → Word → Op (Unit {0})
replace_password user hash db = elim (find (live_account user) db.users) [
  | none ↦ (err invalid_token, db)
  | some a ↦ (ok tt, record db { users = update (live_account user) (with_password hash) db.users })
]

unfoldable pub reset_password : Libraries → Word → List ℕ → Op (Unit {0})
unfolding take_reset replace_password
reset_password l token new = do
  fail_when (token == 0 || ltb (byte_len new) 8) invalid_token
  user ← take_reset (l.hash_token token)
  salt ← fresh
  hash ← give (l.hash_password salt new)
  replace_password user hash
