-- ===== src/Hex/Words.antt =====
-- Bytes, their hexadecimal text, and the numbers that both stand for.
use mezzium.Base.{
  ℕ, zero, suc, ◌+◌, ◌*◌, ◌/◌, ◌%◌, ◌≤◌, ◌<◌, ◌≡◌, refl, ap, ◌∙◌, inl, inr, true, some, List, [],
  ◌∷◌, arith, ltb, eqb, Bool-cases, All,
}
use mezzium.Text.{Str}
use mezzium.Hex.{
  digit_value, read_digits, bytes_from, bytes_of, hex_digit, encode_to_string, hex_value, byte_of,
  decode_string,
}

-- The number of a list of bytes, after a value read so far; the first byte is the highest.
abbrev pub be_from : ℕ → List ℕ → ℕ
be_from acc [] = acc
be_from acc (b ∷ bs) = be_from (acc * 256 + b) bs

abbrev pub be_value : List ℕ → ℕ
be_value bs = be_from 0 bs

abbrev pub IsByte : ℕ → Type 0
IsByte b = b < 256

be_from-bytes_from :
    (fuel n : ℕ) (bs : List ℕ) → n ≤ fuel → be_value (bytes_from fuel n bs) ≡ be_from n bs
unfolding bytes_from
be_from-bytes_from zero n bs h = let e : n ≡ 0 = omega arith in rw e refl
be_from-bytes_from (suc fuel) n bs h = elim (Bool-cases (eqb n 0)) [
  | inl e ↦ let z : n ≡ 0 = ground arith in rw z refl
  | inr e ↦
      let whole : n / 256 * 256 + n % 256 ≡ n = omega arith in
      rw (e, bytes_from)
        (be_from-bytes_from fuel (n / 256) (n % 256 ∷ bs) (ground arith)
          ∙ ap (λ m. be_from m bs) whole)
]

-- The bytes of a number stand for it: the number is fuel enough.
pub be_value-bytes_of : (n : ℕ) → be_value (bytes_of n) ≡ n
unfolding bytes_of
be_value-bytes_of n = be_from-bytes_from n n [] (omega arith)

bytes_from-All : (fuel n : ℕ) (bs : List ℕ) → All IsByte bs → All IsByte (bytes_from fuel n bs)
unfolding bytes_from
bytes_from-All zero n bs h = h
bytes_from-All (suc fuel) n bs h = elim (Bool-cases (eqb n 0)) [
  | inl e ↦ rw (e, bytes_from) h
  | inr e ↦ rw (e, bytes_from) (bytes_from-All fuel (n / 256) (n % 256 ∷ bs) (omega arith, h))
]

pub bytes_of-All : (n : ℕ) → All IsByte (bytes_of n)
unfolding bytes_of
bytes_of-All n = bytes_from-All n n [] tt

hex_value-hex_digit : (d : ℕ) → d < 16 → hex_value (hex_digit d) ≡ some d
unfolding hex_value digit_value hex_digit
hex_value-hex_digit d h = ground arith

digit_value-hex_digit : (d : ℕ) → d < 16 → digit_value (hex_digit d) ≡ some d
unfolding digit_value hex_digit
digit_value-hex_digit d h = ground arith

-- Reading what EncodeToString wrote gives the bytes back.
pub decode_string-encode_to_string :
    (bs : List ℕ) → All IsByte bs → decode_string (encode_to_string bs) ≡ (bs, true)
unfolding decode_string encode_to_string byte_of
decode_string-encode_to_string [] h = refl
decode_string-encode_to_string (b ∷ bs) h =
    let whole : b / 16 * 16 + b % 16 ≡ b = omega arith in
    rw (hex_value-hex_digit (b / 16) (omega arith), decode_string)
      (rw (hex_value-hex_digit (b % 16) (omega arith), decode_string-encode_to_string bs h.1)
        (rw whole refl))

read_digits-hex_digit :
    (acc d : ℕ) (s : Str)
    → d < 16
    → read_digits 16 acc (hex_digit d ∷ s) ≡ read_digits 16 (acc * 16 + d) s
unfolding read_digits
read_digits-hex_digit acc d s h =
    let low : ltb d 16 ≡ true = ground arith in
    rw (digit_value-hex_digit d h, read_digits) (rw low refl)

-- The number that the written bytes stand for, read in base 16.
pub read_digits-encode_to_string :
    (acc : ℕ) (bs : List ℕ)
    → All IsByte bs
    → read_digits 16 acc (encode_to_string bs) ≡ be_from acc bs
unfolding encode_to_string read_digits
read_digits-encode_to_string acc [] h = refl
read_digits-encode_to_string acc (b ∷ bs) h =
    let byte : b < 256 = h.0 in
    let whole : (acc * 16 + b / 16) * 16 + b % 16 ≡ acc * 256 + b = omega arith in
    read_digits-hex_digit acc (b / 16) (hex_digit (b % 16) ∷ encode_to_string bs) (omega arith)
    ∙ read_digits-hex_digit (acc * 16 + b / 16) (b % 16) (encode_to_string bs) (omega arith)
    ∙ ap (λ m. read_digits 16 m (encode_to_string bs)) whole
    ∙ read_digits-encode_to_string (acc * 256 + b) bs h.1
