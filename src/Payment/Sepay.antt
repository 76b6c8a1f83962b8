-- ===== src/Payment/Sepay.antt =====
-- internal/modules/payment/sepay.go: the configuration, the code of a payment, and the codes that a
-- transfer's text holds. The HMAC of `Verify` is a parameter. Texts are lists of code points.
use e_commerce_be.Prelude.{
  ℕ, zero, suc, ◌+◌, ◌-◌, ◌/◌, ◌%◌, Bool, true, false, not, ◌&&◌, ◌||◌, Option, none, some, List,
  [], ◌∷◌, ◌++◌, map, ltb, leb, ◌==◌, if◌then◌else◌, length, ℤ,
}
use e_commerce_be.Text.{trim_space, to_upper, is_blank, is_empty, byte_len}
use e_commerce_be.Shared.{Word, Uuid, text_eq}

pub record Config : Type 0 where
  pub bank : List ℕ
  pub account : List ℕ
  pub webhook_secret : List ℕ

-- `Config.Enabled`
unfoldable pub enabled : Config → Bool
unfolding trim_space byte_len
enabled c = not (is_blank c.bank) && not (is_blank c.account) && leb 32 (byte_len c.webhook_secret)

pub record Webhook : Type 0 where
  pub id : ℤ
  pub gateway : List ℕ
  pub account_number : List ℕ
  pub code : Option (List ℕ)
  pub content : List ℕ
  pub transfer_type : Word
  pub transfer_amount : ℤ

-- An upper-case hexadecimal digit.
unfoldable pub hex_digit : ℕ → ℕ
hex_digit d = if ltb d 10 then b'0' + d else b'A' + (d - 10)

-- The lowest `n` hexadecimal digits of a uuid, the highest first.
unfoldable pub hex_digits : ℕ → ℕ → List ℕ
unfolding hex_digit
hex_digits zero id = []
hex_digits (suc n) id = hex_digits n (id / 16) ++ hex_digit (id % 16) ∷ []

-- `Code`: "EC", and the 32 digits of the uuid without its dashes.
unfoldable pub payment_code_of : Uuid → List ℕ
unfolding hex_digits
payment_code_of id = b'E' ∷ b'C' ∷ hex_digits 32 id

abbrev pub is_digit : ℕ → Bool
is_digit c = leb b'0' c && leb c b'9'

-- `[0-9A-F]`
unfoldable pub is_hex : ℕ → Bool
is_hex c = is_digit c || (leb b'A' c && leb c b'F')

-- A character of a word, for `\b`.
unfoldable pub is_word_char : ℕ → Bool
is_word_char c = is_digit c || (leb b'A' c && leb c b'Z') || (leb b'a' c && leb c b'z') || c == b'_'

-- `n` hexadecimal digits, and then the end of the word.
unfoldable pub hex_word : ℕ → List ℕ → Bool
unfolding is_hex is_word_char
hex_word zero [] = true
hex_word zero (c ∷ s) = not (is_word_char c)
hex_word (suc n) [] = false
hex_word (suc n) (c ∷ s) = is_hex c && hex_word n s

-- `EC[0-9A-F]{32}\b` at the start of the text.
unfoldable pub starts_code : List ℕ → Bool
unfolding hex_word
starts_code [] = false
starts_code (c ∷ []) = false
starts_code (c ∷ d ∷ s) = c == b'E' && d == b'C' && hex_word 32 s

abbrev pub take : ℕ → List ℕ → List ℕ
take zero s = []
take (suc n) [] = []
take (suc n) (c ∷ s) = c ∷ take n s

-- `FindAllString`: the matches from left to right, none inside another. `inside` tells that the
-- character before is one of a word, and `skip` counts what is left of the last match.
unfoldable pub find_codes : Bool → ℕ → List ℕ → List (List ℕ)
unfolding starts_code is_word_char
find_codes inside skip [] = []
find_codes inside (suc skip) (c ∷ s) = find_codes (is_word_char c) skip s
find_codes inside zero (c ∷ s) = elim (not inside && starts_code (c ∷ s)) [
  | true ↦ take 34 (c ∷ s) ∷ find_codes (is_word_char c) 33 s
  | false ↦ find_codes (is_word_char c) zero s
]

unfoldable pub all_equal : List ℕ → List (List ℕ) → Bool
unfolding text_eq
all_equal code [] = true
all_equal code (c ∷ codes) = text_eq c code && all_equal code codes

-- The one code that all the matches spell, or the empty text.
unfoldable pub unanimous : List (List ℕ) → List ℕ
unfolding all_equal
unanimous [] = []
unanimous (code ∷ codes) = if all_equal code codes then code else []

module _ (upper_other : ℕ → ℕ) where
  -- `Webhook.PaymentCode`
  unfoldable pub payment_code : Webhook → List ℕ
  unfolding to_upper find_codes unanimous starts_code byte_len
  payment_code w =
      let codes = find_codes false 0 (map (to_upper upper_other) w.content) in
      elim w.code [
        | none ↦ unanimous codes
        | some text ↦ elim (is_empty text) [
          | true ↦ unanimous codes
          | false ↦
              let code = map (to_upper upper_other) text in
              if not (byte_len code == 34) || not (starts_code code && length code == 34)
              then []
              else unanimous (codes ++ code ∷ [])
        ]
      ]
