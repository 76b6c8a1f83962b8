-- ===== src/Auth/Once.antt =====
-- Histories of the operations of internal/modules/auth, and the refresh tokens that they use.
use e_commerce_be.Prelude.{ℕ, ◌≡◌, inl, inr, ◌≤◌, none, List, find, delete, arith, Option-cases}
use e_commerce_be.Shared.{Word, Uuid, invalid_token, ok, err}
use e_commerce_be.Auth.{
  AuthDb, Libraries, TokenPair, hash_is, claimed, consume_key, issue_tokens, delete_key, register,
  login, refresh, logout, forgot_password, change_password, reset_password,
}
use e_commerce_be.Auth.Sessions.{
  Unlike, Gone, register-Keeps, login-Keeps, refresh-Keeps, logout-Keeps, forgot_password-Keeps,
  change_password-Keeps, reset_password-Keeps, issue_tokens-Keeps, find-delete, delete-find,
}

-- One operation, whether it succeeds or not, or a key of Redis that expires.
pub data Step (l : Libraries) : AuthDb → AuthDb → Type 0 where
  registered :
      (now : ℕ) (email password name : List ℕ) (db : AuthDb)
      → Step l db (register l now email password name db).1
  logged_in :
      (now : ℕ) (email password : List ℕ) (db : AuthDb)
      → Step l db (login l now email password db).1
  refreshed : (now : ℕ) (token : Word) (db : AuthDb) → Step l db (refresh l now token db).1
  logged_out : (now : ℕ) (token : Word) (db : AuthDb) → Step l db (logout l now token db).1
  forgot :
      (token : Word) (email : List ℕ) (db : AuthDb) → Step l db (forgot_password l token email db).1
  changed :
      (user : Uuid) (current new : List ℕ) (db : AuthDb)
      → Step l db (change_password l user current new db).1
  reset : (token : Word) (new : List ℕ) (db : AuthDb) → Step l db (reset_password l token new db).1
  expired :
      (k : Word) (db : AuthDb)
      → Step l db (record db { refresh_keys = delete (hash_is k) db.refresh_keys })

pub data Steps (l : Libraries) : AuthDb → AuthDb → Type 0 where
  stay : (db : AuthDb) → Steps l db db
  next : {db db1 db' : AuthDb} → Step l db db1 → Steps l db1 db' → Steps l db db'

module _ (l : Libraries) (h : Word) (n : ℕ) (unlike : Unlike l h n) where
  Step-Gone : (db db' : AuthDb) → Step l db db' → Gone h n db → Gone h n db'
  Step-Gone _ _ (registered now email password name db) gone =
      register-Keeps h n l unlike now email password name db gone
  Step-Gone _ _ (logged_in now email password db) gone =
      login-Keeps h n l unlike now email password db gone
  Step-Gone _ _ (refreshed now token db) gone = refresh-Keeps h n l unlike now token db gone
  Step-Gone _ _ (logged_out now token db) gone = logout-Keeps h n l unlike now token db gone
  Step-Gone _ _ (forgot token email db) gone =
      forgot_password-Keeps h n l unlike token email db gone
  Step-Gone _ _ (changed user current new db) gone =
      change_password-Keeps h n l unlike user current new db gone
  Step-Gone _ _ (reset token new db) gone = reset_password-Keeps h n l unlike token new db gone
  Step-Gone _ _ (expired k db) gone = record {
    later = gone.later;
    absent = find-delete (hash_is k) (hash_is h) db.refresh_keys gone.absent;
  }

  Steps-Gone : (db db' : AuthDb) → Steps l db db' → Gone h n db → Gone h n db'
  Steps-Gone _ _ (stay db) gone = gone
  Steps-Gone _ _ (next {db = start} {db1 = mid} {db' = end} step rest) gone =
      Steps-Gone mid end rest (Step-Gone start mid step gone)

-- A token whose key is gone is refused.
refused :
    (l : Libraries) (now : ℕ) (token : Word) (db : AuthDb)
    → find (hash_is (l.hash_token token)) db.refresh_keys ≡ none
    → (refresh l now token db).0 ≡ err invalid_token
unfolding refresh consume_key
refused l now token db absent = elim (Option-cases (claimed l now token)) [
  | inl bad ↦ ground arith
  | inr (claim, good) ↦ ground arith
]

refused_logout :
    (l : Libraries) (now : ℕ) (token : Word) (db : AuthDb)
    → find (hash_is (l.hash_token token)) db.refresh_keys ≡ none
    → (logout l now token db).0 ≡ err invalid_token
unfolding logout delete_key
refused_logout l now token db absent = ground arith

-- A call that took the key of a token.
pub data Spends (l : Libraries) (token : Word) : AuthDb → AuthDb → Type 0 where
  by_refresh :
      (now : ℕ) (pair : TokenPair) (db : AuthDb)
      → (refresh l now token db).0 ≡ ok pair
      → Spends l token db (refresh l now token db).1
  by_logout :
      (now : ℕ) (db : AuthDb)
      → (logout l now token db).0 ≡ ok tt
      → Spends l token db (logout l now token db).1

refresh_through :
    (l : Libraries) (now : ℕ) (token : Word) (pair : TokenPair) (db : AuthDb)
    → (refresh l now token db).0 ≡ ok pair
    → (user : Uuid) × (role : Word) × (refresh l now token db
        ≡ issue_tokens l now user role (consume_key (l.hash_token token) user db).1)
unfolding refresh consume_key
refresh_through l now token pair db h = elim (Option-cases (claimed l now token)) [
  | inl bad ↦ ground arith
  | inr ((user, role), good) ↦ (user, role, ground arith)
]

logout_through :
    (l : Libraries) (now : ℕ) (token : Word) (db : AuthDb)
    → (logout l now token db).0 ≡ ok tt
    → (logout l now token db).1 ≡ (delete_key (l.hash_token token) db).1
unfolding logout delete_key
logout_through l now token db h = ground arith

spent-Gone :
    (l : Libraries) (token : Word) (n : ℕ) (db db' : AuthDb)
    → Unlike l (l.hash_token token) n
    → n ≤ db.next_id
    → Spends l token db db'
    → Gone (l.hash_token token) n db'
unfolding consume_key delete_key
spent-Gone l token n _ _ unlike le (by_refresh now pair db h) =
    let key = l.hash_token token in
    let (user, role, through) = refresh_through l now token pair db h in
    let taken : Gone key n (consume_key key user db).1 = record {
      later = le;
      absent = delete-find (hash_is key) db.refresh_keys;
    } in
    rw through (issue_tokens-Keeps key n l unlike now user role (consume_key key user db).1 taken)
spent-Gone l token n _ _ unlike le (by_logout now db h) =
    rw (logout_through l now token db h)
      (record { later = le; absent = delete-find (hash_is (l.hash_token token)) db.refresh_keys })

-- After a refresh token was exchanged or logged out, and any history of operations and expiries,
-- both Refresh and Logout refuse it, provided that no token with a newer identifier has its hash.
pub used_once :
    (l : Libraries) (token : Word) (n now : ℕ) (db db1 db2 : AuthDb)
    → Unlike l (l.hash_token token) n
    → n ≤ db.next_id
    → Spends l token db db1
    → Steps l db1 db2
    → ((refresh l now token db2).0 ≡ err invalid_token)
      × ((logout l now token db2).0 ≡ err invalid_token)
used_once l token n now db db1 db2 unlike le spends steps =
    let gone =
      Steps-Gone l (l.hash_token token) n unlike db1 db2 steps
        (spent-Gone l token n db db1 unlike le spends) in
    (refused l now token db2 gone.absent, refused_logout l now token db2 gone.absent)
