-- ===== src/Tests/Accounts.antt =====
-- An account is registered, its refresh token exchanged, and then refused.
use e_commerce_be.Prelude.{
  ℕ, ◌+◌, ◌-◌, ◌≤◌, ◌≡◌, refl, Bool, true, false, Option, none, some, List, [], ◌∷◌, ◌==◌, ltb,
  length, arith, if◌then◌else◌,
}
use e_commerce_be.Shared.{Word, ok, err, invalid_token}
use e_commerce_be.Words.{customer}
use e_commerce_be.Auth.{
  AuthDb, Claims, Libraries, TokenPair, refresh_claims, month, register, login, refresh, logout,
  normal,
}
use e_commerce_be.Text.{trim_space}
use e_commerce_be.Auth.Sessions.{Unlike}
use e_commerce_be.Auth.Once.{stay, next, logged_in, by_refresh, used_once}
use e_commerce_be.Auth.Passwords.{Checks, Signs, register-login}

-- A token is its identifier, and a hash of a password its length.
abbrev token_of : Claims → Word
token_of c = elim c.token_id [ none ↦ 1 | some id ↦ 1000 + id ]

abbrev libraries : Libraries
libraries = record {
  lower = λ s. s;
  hash_password = λ salt password. ok (length password);
  verify_password = λ hash password. hash == length password;
  sign = λ c. ok (token_of c);
  parse = λ now token. some (refresh_claims 0 (token - 1000) 51 customer month);
  hash_token = λ token. token;
  send_mail = none;
  scan_role = λ roles. none;
}

abbrev no_accounts : AuthDb
no_accounts = record {
  users = [];
  roles = customer ∷ [];
  user_roles = [];
  refresh_keys = [];
  reset_keys = [];
  next_id = 50;
}

abbrev email : List ℕ
email = 97 ∷ 64 ∷ 98 ∷ []

abbrev password : List ℕ
password = 1 ∷ 2 ∷ 3 ∷ 4 ∷ 5 ∷ 6 ∷ 7 ∷ 8 ∷ []

abbrev first_pair : TokenPair
first_pair = record { access = 1; refresh = 1052; expires_in = 900 }

abbrev second_pair : TokenPair
second_pair = record { access = 1; refresh = 1053; expires_in = 900 }

abbrev registered : AuthDb
registered = (register libraries 7 email password (65 ∷ []) no_accounts).1

abbrev renewed : AuthDb
renewed = (refresh libraries 8 1052 registered).1

register_run : (register libraries 7 email password (65 ∷ []) no_accounts).0 ≡ ok (51, first_pair)
unfolding register trim_space e_commerce_be.Prelude.find e_commerce_be.Text.byte_len
register_run = refl

refresh_run : (refresh libraries 8 1052 registered).0 ≡ ok second_pair
unfolding register refresh e_commerce_be.Prelude.find trim_space e_commerce_be.Text.byte_len
refresh_run = refl

libraries-Checks : Checks libraries
unfolding Checks
libraries-Checks salt pass hash h = ground arith

libraries-Signs : Signs libraries
unfolding Signs
libraries-Signs c = (token_of c, refl)

libraries-Unlike : Unlike libraries 1052 53
unfolding Unlike
libraries-Unlike c id token named le signed = ground (arith, named, signed)

le_run : 53 ≤ registered.next_id
unfolding register trim_space e_commerce_be.Prelude.find e_commerce_be.Text.byte_len
le_run = omega arith

spaces_run : normal libraries (32 ∷ email) ≡ normal libraries email
unfolding trim_space
spaces_run = refl

register-login_example :
    (pair : TokenPair) × ((login libraries 9 (32 ∷ email) password registered).0 ≡ ok (51, pair))
register-login_example =
    register-login libraries 7 9 email (32 ∷ email) password (65 ∷ []) 51 first_pair no_accounts
      libraries-Checks libraries-Signs spaces_run register_run

used_once_example :
    ((refresh libraries 9 1052 (login libraries 9 email password renewed).1).0 ≡ err invalid_token)
    × ((logout libraries 9 1052 (login libraries 9 email password renewed).1).0 ≡ err invalid_token)
used_once_example =
    used_once libraries 1052 53 9 registered renewed (login libraries 9 email password renewed).1
      libraries-Unlike le_run (by_refresh 8 second_pair registered refresh_run)
      (next (logged_in 9 email password renewed)
        (stay (login libraries 9 email password renewed).1))
