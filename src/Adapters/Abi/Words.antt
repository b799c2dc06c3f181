-- ===== src/Adapters/Abi/Words.antt =====
-- The words of an encoded call: 32 bytes, written with 64 digits.
use mezzium.Base.{
  ℕ, zero, suc, ◌+◌, ◌-◌, ◌*◌, ◌/◌, ◌%◌, ◌^◌, ◌≤◌, ◌<◌, ◌≡◌, refl, ap, ◌∙◌, ◌↔◌, ◌⊎◌, inl, inr,
  true, false, none, some, List, [], ◌∷◌, ◌++◌, arith, ltb, leb, eqb, Bool-cases, length,
  length-append, All, All-append,
}
use mezzium.Text.{Str, str}
use mezzium.Hex.{magnitude, bytes_from, bytes_of, encode_to_string, read_digits}
use mezzium.Hex.Words.{
  be_from, be_value, IsByte, be_value-bytes_of, bytes_of-All, read_digits-encode_to_string,
}
use mezzium.Adapters.Abi.{
  zeros, left_pad32, token_value, with_selector, build_owner_of_data, build_token_uri_data,
}

-- 256 to a power.
abbrev pub bytes_power : ℕ → ℕ
bytes_power zero = 1
bytes_power (suc k) = 256 * bytes_power k

bytes_power-pos : (k : ℕ) → 1 ≤ bytes_power k
bytes_power-pos zero = omega arith
bytes_power-pos (suc k) = omega (arith, bytes_power-pos k)

length-bytes_from :
    (fuel n k : ℕ) (bs : List ℕ) → n < bytes_power k → length (bytes_from fuel n bs) ≤ k + length bs
unfolding bytes_from
length-bytes_from zero n k bs h = omega arith
length-bytes_from (suc fuel) n zero bs h =
    let e : n ≡ 0 = omega arith in rw (e, bytes_from) (omega arith)
length-bytes_from (suc fuel) n (suc k) bs h = elim (Bool-cases (eqb n 0)) [
  | inl e ↦ rw (e, bytes_from) (omega arith)
  | inr e ↦
      rw (e, bytes_from)
        (let less : n / 256 < bytes_power k = omega arith in
          omega (arith, length-bytes_from fuel (n / 256) k (n % 256 ∷ bs) less))
]

mul_le_left : (m n p : ℕ) → m ≤ n → m * p ≤ n * p
mul_le_left zero n p h = omega arith
mul_le_left (suc m) zero p h = omega arith
mul_le_left (suc m) (suc n) p h = omega (arith, mul_le_left m n p (omega arith))

be_from-lt :
    (acc : ℕ) (bs : List ℕ) → All IsByte bs → be_from acc bs < (acc + 1) * bytes_power (length bs)
be_from-lt acc [] h = omega arith
be_from-lt acc (b ∷ bs) h =
    let byte : b < 256 = h.0 in
    let step = be_from-lt (acc * 256 + b) bs h.1 in
    let p = bytes_power (length bs) in
    let more : (acc * 256 + b + 1) * p ≤ (acc + 1) * 256 * p =
      mul_le_left (acc * 256 + b + 1) ((acc + 1) * 256) p (omega arith) in
    let same : (acc + 1) * 256 * p ≡ (acc + 1) * (256 * p) = omega arith in
    omega (arith, step, more, same)

bytes_power_mono : (j k : ℕ) → j ≤ k → bytes_power j ≤ bytes_power k
bytes_power_mono zero k h = bytes_power-pos k
bytes_power_mono (suc j) zero h = omega arith
bytes_power_mono (suc j) (suc k) h = omega (arith, bytes_power_mono j k (omega arith))

unfold_length : (n : ℕ) → n < 2 ^ 256 → length (bytes_of n) ≤ 32
unfolding bytes_of
unfold_length n h = omega (arith, length-bytes_from n n 32 [] h)

length-bytes_of : (n : ℕ) → (length (bytes_of n) ≤ 32) ↔ (n < 2 ^ 256)
length-bytes_of n = (
  λ h. omega (
    arith,
    be_value-bytes_of n,
    be_from-lt 0 (bytes_of n) (bytes_of-All n),
    bytes_power_mono (length (bytes_of n)) 32 h,
  ),
  λ h. unfold_length n h,
)

length-zeros : (n : ℕ) → length (zeros n) ≡ n
unfolding zeros
length-zeros zero = refl
length-zeros (suc n) = ap suc (length-zeros n)

be_from-zeros : (n : ℕ) (bs : List ℕ) → be_value (zeros n ++ bs) ≡ be_value bs
unfolding zeros
be_from-zeros zero bs = refl
be_from-zeros (suc n) bs = be_from-zeros n bs

zeros-All : (n : ℕ) → All IsByte (zeros n)
unfolding zeros
zeros-All zero = tt
zeros-All (suc n) = (omega arith, zeros-All n)

length-encode_to_string : (bs : List ℕ) → length (encode_to_string bs) ≡ 2 * length bs
unfolding encode_to_string
length-encode_to_string [] = refl
length-encode_to_string (b ∷ bs) = omega (arith, length-encode_to_string bs)

-- A word of 64 digits that stands for a number.
abbrev pub IsWord : ℕ → Str → Type 0
IsWord n s = (length s ≡ 64) × (read_digits 16 0 s ≡ n)

-- The word of a number, if it fits.
left_pad32-IsWord :
    (n : ℕ)
    → n < 2 ^ 256
    → (enc : List ℕ) × (left_pad32 (bytes_of n) ≡ some enc) × IsWord n (encode_to_string enc)
unfolding left_pad32
left_pad32-IsWord n h =
    let short = (length-bytes_of n).1 h in
    let test : leb (length (bytes_of n)) 32 ≡ true = ground arith in
    let enc = zeros (32 - length (bytes_of n)) ++ bytes_of n in
    let size : length enc ≡ 32 =
      length-append (zeros (32 - length (bytes_of n))) (bytes_of n)
      ∙ (rw (length-zeros (32 - length (bytes_of n))) (omega arith)) in
    (
      enc,
      rw (test, left_pad32) refl,
      (
        length-encode_to_string enc ∙ ap (λ m. 2 * m) size,
        read_digits-encode_to_string 0 enc (
              All-append IsByte (zeros (32 - length (bytes_of n))) (bytes_of n)
                (zeros-All (32 - length (bytes_of n))) (bytes_of-All n))
            ∙ be_from-zeros (32 - length (bytes_of n)) (bytes_of n)
            ∙ be_value-bytes_of n,
      ),
    )

left_pad32-none : (n : ℕ) → 2 ^ 256 ≤ n → left_pad32 (bytes_of n) ≡ none
unfolding left_pad32
left_pad32-none n h =
    let long : leb (length (bytes_of n)) 32 ≡ false = ground (arith, (length-bytes_of n).0) in
    rw (long, left_pad32) refl

-- Of a token id, ownerOf and tokenURI are encoded by their selectors and the 32-byte word, in hex,
-- that stands for the id's value without its sign; an id of 2^256 or more makes them panic.
pub build_owner_of_data-IsWord :
    (token_id : Str)
    → ((s : Str) × IsWord (magnitude (token_value token_id)) s
        × (build_owner_of_data token_id ≡ some (str "0x6352211e" ++ s))
        × (build_token_uri_data token_id ≡ some (str "0xc87b56dd" ++ s)))
      ⊎ ((2 ^ 256 ≤ magnitude (token_value token_id))
          × (build_owner_of_data token_id ≡ none)
          × (build_token_uri_data token_id ≡ none))
unfolding build_owner_of_data build_token_uri_data with_selector
build_owner_of_data-IsWord token_id =
    let n = magnitude (token_value token_id) in
    elim (Bool-cases (ltb n (2 ^ 256))) [
      | inl h ↦
          let (enc, e, word) = left_pad32-IsWord n (ground (arith, h)) in
          inl (encode_to_string enc, word, rw e refl, rw e refl)
      | inr h ↦
          let large : 2 ^ 256 ≤ n = ground (arith, h) in
          let e = left_pad32-none n large in inr (large, rw e refl, rw e refl)
    ]
