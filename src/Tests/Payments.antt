-- ===== src/Tests/Payments.antt =====
-- A transfer of 500 pays the order of Tests.Rows, placed by bank transfer.
use e_commerce_be.Text.{byte_len, is_space, to_upper, trim_left, trim_right, trim_space}
use e_commerce_be.Prelude.{ℕ, ◌≡◌, refl, some, List, [], ◌∷◌, pos, find, update}
use e_commerce_be.Shared.{ok, text_eq}
use e_commerce_be.Words.{pending, sepay, incoming}
use e_commerce_be.Store.{Db, commit, enqueue, insert_transaction}
use e_commerce_be.Payment.Sepay.{
  Config, Webhook, payment_code_of, enabled, all_equal, find_codes, hex_digit, hex_digits, hex_word,
  is_hex, is_word_char, payment_code, starts_code, unanimous,
}
use e_commerce_be.Payment.Receive.{
  receive, malformed, receive_new, insert_receipt, process, match_payment, receipt, apply,
  can_apply, mark_paid, record_transaction, finish, save_receipt, differs,
}
use e_commerce_be.Payment.Receive.Laws.{Pays, of_webhook}
use e_commerce_be.Payment.Receive.Repeat.{receive-Pays, receive_idem}
use e_commerce_be.Tests.Rows.{placed, payment_row}

abbrev same_case : ℕ → ℕ
same_case c = c

abbrev secret : List ℕ
secret =
    1 ∷ 2 ∷ 3 ∷ 4 ∷ 5 ∷ 6 ∷ 7 ∷ 8 ∷ 1 ∷ 2 ∷ 3 ∷ 4 ∷ 5 ∷ 6 ∷ 7 ∷ 8 ∷ 1 ∷ 2 ∷ 3 ∷ 4 ∷ 5 ∷ 6 ∷ 7 ∷ 8
    ∷ 1 ∷ 2 ∷ 3 ∷ 4 ∷ 5 ∷ 6 ∷ 7 ∷ 8 ∷ []

abbrev config : Config
config = record { bank = 77 ∷ 66 ∷ []; account = 49 ∷ 50 ∷ []; webhook_secret = secret }

abbrev code : List ℕ
code = payment_code_of 10

abbrev waiting : Db
waiting = record placed { payments = payment_row sepay pending (some code) ∷ [] }

abbrev transfer : Webhook
transfer = record {
  id = pos 900;
  gateway = 77 ∷ 66 ∷ [];
  account_number = 49 ∷ 50 ∷ [];
  code = some code;
  content = [];
  transfer_type = incoming;
  transfer_amount = pos 500;
}

abbrev paid_db : Db
paid_db = commit waiting (receive same_case same_case config transfer waiting)

receive_run : receive same_case same_case config transfer waiting ≡ ok (tt, paid_db)
unfolding receive enabled malformed find receive_new insert_receipt process match_payment receipt
    payment_code_of apply can_apply mark_paid enqueue record_transaction insert_transaction finish
    save_receipt differs all_equal find_codes hex_digit hex_digits hex_word is_hex is_word_char
    payment_code starts_code unanimous update text_eq byte_len is_space to_upper trim_left
    trim_right trim_space
receive_run = refl

receive-Pays_example :
    Pays same_case same_case (of_webhook same_case same_case transfer waiting) waiting paid_db
receive-Pays_example = receive-Pays same_case same_case config transfer waiting paid_db receive_run

receive_idem_example : receive same_case same_case config transfer paid_db ≡ ok (tt, paid_db)
receive_idem_example = receive_idem same_case same_case config transfer waiting paid_db receive_run
