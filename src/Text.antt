-- ===== src/Text.antt =====
-- Go's strings as lists of code points: `strings.TrimSpace`, `len`, and the text that Go's
-- `strings.ToUpper` makes. Its case table beyond ASCII is a parameter, `upper_other`, except for the
-- two letters that it maps into ASCII.
pub mod Utf8
use Prim.Native.Char.{code}
use Prim.Native.String.{String}
use e_commerce_be.Prelude.{
  ℕ, zero, suc, ◌/◌, ◌%◌, ◌^◌, ◌++◌, ◌+◌, ◌-◌, ◌≡◌, refl, Bool, true, false, ◌&&◌, ◌||◌, List, [],
  ◌∷◌, map, arith, ltb, leb, ◌==◌, if◌then◌else◌,
}

-- The code points of a literal.
abbrev pub codes : String → List ℕ
codes String.[] = []
codes (String.◌∷◌ c s) = code c ∷ codes s

-- The lowest `n` hexadecimal digits of a number, in lower case, the highest first.
unfoldable pub hex_text : ℕ → ℕ → List ℕ
hex_text zero id = []
hex_text (suc n) id =
    hex_text n (id / 16) ++ (if ltb (id % 16) 10 then b'0' + id % 16 else b'a' + id % 16 - 10) ∷ []

-- `UUID.String`
unfoldable pub uuid_text : ℕ → List ℕ
unfolding hex_text
uuid_text id =
    hex_text 8 (id / 16 ^ 24)
    ++ (b'-' ∷ hex_text 4 (id / 16 ^ 20)
        ++ (b'-' ∷ hex_text 4 (id / 16 ^ 16)
            ++ (b'-' ∷ hex_text 4 (id / 16 ^ 12) ++ (b'-' ∷ hex_text 12 id))))

-- `unicode.IsSpace`
unfoldable pub is_space : ℕ → Bool
is_space c =
    (leb 9 c && leb c 13)
    || c == 32
    || c == 0x85
    || c == 0xa0
    || c == 0x1680
    || (leb 0x2000 c && leb c 0x200a)
    || c == 0x2028
    || c == 0x2029
    || c == 0x202f
    || c == 0x205f
    || c == 0x3000

unfoldable pub trim_left : List ℕ → List ℕ
trim_left [] = []
trim_left (c ∷ s) = if is_space c then trim_left s else c ∷ s

abbrev pub is_empty : List ℕ → Bool
is_empty [] = true
is_empty (c ∷ s) = false

unfoldable pub trim_right : List ℕ → List ℕ
trim_right [] = []
trim_right (c ∷ s) = let rest = trim_right s in if is_empty rest && is_space c then [] else c ∷ rest

-- `strings.TrimSpace`
unfoldable pub trim_space : List ℕ → List ℕ
unfolding is_space trim_left trim_right
trim_space s = trim_right (trim_left s)

-- `strings.TrimSpace(s) == ""`
abbrev pub is_blank : List ℕ → Bool
is_blank s = is_empty (trim_space s)

-- The bytes of a code point in UTF-8.
abbrev pub rune_len : ℕ → ℕ
rune_len c = if ltb c 0x80 then 1 else if ltb c 0x800 then 2 else if ltb c 0x10000 then 3 else 4

-- `len(s)`, which counts bytes.
unfoldable pub byte_len : List ℕ → ℕ
byte_len [] = 0
byte_len (c ∷ s) = rune_len c + byte_len s

-- `unicode.ToUpper`: the dotless i and the long s are the only letters beyond ASCII with an upper
-- case in it.
unfoldable pub to_upper : (ℕ → ℕ) → ℕ → ℕ
to_upper upper_other c =
    if leb b'a' c && leb c b'z'
    then c - 32
    else if ltb c 0x80
    then c
    else if c == 0x131
    then b'I'
    else if c == 0x17f
    then b'S'
    else upper_other c

-- A predicate of every code point, as a test.
unfoldable pub all : (ℕ → Bool) → List ℕ → Bool
all p [] = true
all p (c ∷ s) = p c && all p s

pub trim_left-all :
    (p : ℕ → Bool) (s : List ℕ)
    → ((c : ℕ) → p c ≡ true → is_space c ≡ false)
    → all p s ≡ true
    → trim_left s ≡ s
unfolding trim_left all
trim_left-all p [] h a = refl
trim_left-all p (c ∷ s) h a = ground (arith, h c)

pub trim_right-all :
    (p : ℕ → Bool) (s : List ℕ)
    → ((c : ℕ) → p c ≡ true → is_space c ≡ false)
    → all p s ≡ true
    → trim_right s ≡ s
unfolding trim_right all
trim_right-all p [] h a = refl
trim_right-all p (c ∷ s) h a = ground (arith, h c, trim_right-all p s h)

-- A text of characters that are no spaces is trimmed to itself.
pub trim_space-all :
    (p : ℕ → Bool) (s : List ℕ)
    → ((c : ℕ) → p c ≡ true → is_space c ≡ false)
    → all p s ≡ true
    → trim_space s ≡ s
unfolding trim_space
trim_space-all p s h a = rw (trim_left-all p s h a) (trim_right-all p s h a)

pub map-all :
    (p : ℕ → Bool) (f : ℕ → ℕ) (s : List ℕ)
    → ((c : ℕ) → p c ≡ true → f c ≡ c)
    → all p s ≡ true
    → map f s ≡ s
unfolding all
map-all p f [] h a = refl
map-all p f (c ∷ s) h a = ground (arith, h c, map-all p f s h)
