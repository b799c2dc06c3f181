-- ===== src/Hex.antt =====
-- What pkg/oracle, pkg/adapters and pkg/api use of math/big and encoding/hex: numbers from text and
-- back, and big-endian bytes. Of a text that is no number, big.Int.SetString leaves the value
-- undefined; here it is that of the leading digits.
pub mod Words
use mezzium.Base.{
  ℕ, zero, suc, ◌+◌, ◌-◌, ◌*◌, ◌/◌, ◌%◌, ◌^◌, Bool, true, false, ◌&&◌, Option, none, some, List, [],
  ◌∷◌, ltb, leb, eqb, if◌then◌else◌,
}
use mezzium.Base.Int.{ℤ, pos, negsuc, pos_part, neg_part}
use mezzium.Text.{Str}

-- The value of a digit of any base up to 36.
unfoldable pub digit_value : ℕ → Option ℕ
digit_value c =
    if leb b'0' c && leb c b'9'
    then some (c - b'0')
    else if leb b'a' c && leb c b'z'
    then some (c - 87)
    else if leb b'A' c && leb c b'Z'
    then some (c - 55)
    else none

-- The leading digits of a text, in a base, after a value read so far.
unfoldable pub read_digits : ℕ → ℕ → Str → ℕ
unfolding digit_value
read_digits base acc [] = acc
read_digits base acc (c ∷ s) =
    let rest = λ (d : ℕ). read_digits base (acc * base + d) s in
    elim (digit_value c) [ none ↦ acc | some d ↦ if ltb d base then rest d else acc ]

unfoldable pub negate : ℕ → ℤ
negate zero = pos 0
negate (suc n) = negsuc n

-- big.Int.SetString
unfoldable pub set_string : ℕ → Str → ℤ
unfolding read_digits negate
set_string base [] = pos 0
set_string base (c ∷ s) =
    if eqb c b'-'
    then negate (read_digits base 0 s)
    else if eqb c b'+'
    then pos (read_digits base 0 s)
    else pos (read_digits base 0 (c ∷ s))

-- |x| of a big.Int, which is what Bytes and Uint64 read.
abbrev pub magnitude : ℤ → ℕ
magnitude x = pos_part x + neg_part x

-- big.Int.Uint64: the low 64 bits.
abbrev pub uint64_of : ℤ → ℕ
uint64_of x = magnitude x % 2 ^ 64

-- big.Int.Div, which rounds so that the remainder is not negative.
unfoldable pub div_euclid : ℤ → ℕ → ℤ
unfolding negate
div_euclid (pos n) d = pos (n / d)
div_euclid (negsuc n) d = negate (n / d + 1)

-- big.Int.Bytes: the bytes of a number, without leading zeros. The fuel is the number itself.
unfoldable pub bytes_from : ℕ → ℕ → List ℕ → List ℕ
bytes_from zero n acc = acc
bytes_from (suc fuel) n acc = elim (eqb n 0) [
  | true ↦ acc
  | false ↦ bytes_from fuel (n / 256) (n % 256 ∷ acc)
]

unfoldable pub bytes_of : ℕ → List ℕ
unfolding bytes_from
bytes_of n = bytes_from n n []

unfoldable pub hex_digit : ℕ → ℕ
hex_digit d = if ltb d 10 then d + 48 else d + 87

-- hex.EncodeToString
unfoldable pub encode_to_string : List ℕ → Str
unfolding hex_digit
encode_to_string [] = []
encode_to_string (b ∷ bs) = hex_digit (b / 16) ∷ hex_digit (b % 16) ∷ encode_to_string bs

-- The value of a hexadecimal digit.
unfoldable pub hex_value : ℕ → Option ℕ
unfolding digit_value
hex_value c = elim (digit_value c) [ none ↦ none | some d ↦ if ltb d 16 then some d else none ]

-- The byte of two digits.
unfoldable pub byte_of : Option ℕ → Option ℕ → Option ℕ
byte_of none lo = none
byte_of (some h) none = none
byte_of (some h) (some l) = some (h * 16 + l)

-- hex.DecodeString: the bytes before the first error, and whether there was none.
unfoldable pub decode_string : Str → List ℕ × Bool
unfolding hex_value byte_of
decode_string [] = ([], true)
decode_string (c ∷ []) = ([], false)
decode_string (c ∷ d ∷ s) =
    let (bs, ok) = decode_string s in
    elim (byte_of (hex_value c) (hex_value d)) [ none ↦ ([], false) | some b ↦ (b ∷ bs, ok) ]
