-- ===== src/Text/Utf8.antt =====
-- Go's package utf8: the bytes of a string read as code points, one byte at a time.
use e_commerce_be.Prelude.{
  ℕ, zero, suc, ◌+◌, ◌*◌, ◌-◌, ◌%◌, true, false, Option, none, some, List, [], ◌∷◌, ltb, leb, ◌==◌,
  ◌&&◌, if◌then◌else◌,
}

-- The first byte of a code point: how many follow, the range of the next, and the bits it gives.
record Lead : Type 0 where
  more : ℕ
  low : ℕ
  high : ℕ
  bits : ℕ

abbrev lead_of : ℕ → ℕ → ℕ → ℕ → Lead
lead_of more low high bits = record { more = more; low = low; high = high; bits = bits }

abbrev lead : ℕ → Option Lead
lead b = elim (leb 0xc2 b && leb b 0xdf) [
  | true ↦ some (lead_of 1 0x80 0xbf (b - 0xc0))
  | false ↦ elim (leb 0xe0 b && leb b 0xef) [
    | true ↦
        some (
          lead_of 2 (if b == 0xe0 then 0xa0 else 0x80) (if b == 0xed then 0x9f else 0xbf)
            (b - 0xe0))
    | false ↦ elim (leb 0xf0 b && leb b 0xf4) [
      | true ↦ some (
          lead_of 3 (if b == 0xf0 then 0x90 else 0x80) (if b == 0xf4 then 0x8f else 0xbf)
            (b - 0xf0))
      | false ↦ none
    ]
  ]
]

abbrev cons : ℕ → Option (List ℕ) → Option (List ℕ)
cons c none = none
cons c (some cs) = some (c ∷ cs)

-- Inside a code point of which `more` bytes are still to come.
unfoldable decode_from : List ℕ → Lead → Option (List ℕ)
decode_from [] l = elim l.more [ zero ↦ some [] | suc n ↦ none ]
decode_from (b ∷ bs) l = elim l.more [
  | zero ↦ elim (ltb b 0x80) [
    | true ↦ cons b (decode_from bs l)
    | false ↦ elim (lead b) [ none ↦ none | some l' ↦ decode_from bs l' ]
  ]
  | suc n ↦ elim (leb l.low b && leb b l.high) [
    | true ↦
        let bits = l.bits * 64 + b % 64 in
        let rest = decode_from bs (record { more = n; low = 0x80; high = 0xbf; bits = bits }) in
        elim n [ zero ↦ cons bits rest | suc k ↦ rest ]
    | false ↦ none
  ]
]

-- The code points of a string, none where it is not valid UTF-8.
unfoldable pub decode : List ℕ → Option (List ℕ)
unfolding decode_from
decode bs = decode_from bs (record { more = 0; low = 0; high = 0; bits = 0 })
