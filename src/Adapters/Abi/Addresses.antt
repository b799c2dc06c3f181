-- ===== src/Adapters/Abi/Addresses.antt =====
-- The addresses that pkg/adapters/nft.go takes for addresses: "0x" and forty hexadecimal digits.
use mezzium.Base.{
  ℕ, zero, suc, ◌+◌, ◌-◌, ◌≤◌, ◌≡◌, refl, ◌⊎◌, inl, inr, true, some, [], ◌∷◌, ◌++◌, arith, length,
  All,
}
use mezzium.Text.{Str, str, to_lower, lower_byte, has_prefix}
use mezzium.Hex.{hex_value, digit_value, decode_string, byte_of}
use mezzium.Adapters.Abi.{is_hex_address, normalize_hex, unprefixed, after_two}

-- A hexadecimal digit, not a capital letter.
abbrev pub IsLowHex : ℕ → Type 0
IsLowHex c = ((48 ≤ c) × (c ≤ 57)) ⊎ ((97 ≤ c) × (c ≤ 102))

abbrev pub IsAddress : Str → Type 0
IsAddress digits = (length digits ≡ 40) × All IsLowHex digits

lower_byte_low : (c : ℕ) → IsLowHex c → lower_byte c ≡ c
unfolding lower_byte
lower_byte_low c h = ground (arith, h)

to_lower_low : (s : Str) → All IsLowHex s → to_lower s ≡ s
unfolding to_lower
to_lower_low [] h = refl
to_lower_low (c ∷ s) h = cc (lower_byte_low c h.0, to_lower_low s h.1)

hex_value_low : (c : ℕ) → IsLowHex c → (v : ℕ) × (hex_value c ≡ some v)
unfolding hex_value digit_value
hex_value_low c (inl h) = (c - 48, ground (arith, h))
hex_value_low c (inr h) = (c - 87, ground (arith, h))

decode_string_low :
    (n : ℕ) (s : Str) → length s ≡ n + n → All IsLowHex s → (decode_string s).1 ≡ true
unfolding decode_string byte_of
decode_string_low n [] e h = refl
decode_string_low n (c ∷ []) e h = absurd (omega (arith, e))
decode_string_low zero (c ∷ d ∷ s) e h = absurd (omega (arith, e))
decode_string_low (suc n) (c ∷ d ∷ s) e (hc, hds) =
    let (v, ec) = hex_value_low c hc in
    let (w, ed) = hex_value_low d hds.0 in
    let rest = decode_string_low n s (omega (arith, e)) hds.1 in rw (ec, ed, decode_string) rest

unprefixed_low : (s : Str) → All IsLowHex s → unprefixed (str "0x" ++ s) ≡ s
unfolding unprefixed after_two to_lower lower_byte has_prefix
unprefixed_low s h = to_lower_low s h

pub is_hex_address_low : (s : Str) → IsAddress s → is_hex_address (str "0x" ++ s) ≡ true
unfolding is_hex_address
is_hex_address_low s (n, h) =
    rw (unprefixed_low s h, is_hex_address) (rw (n, decode_string_low 20 s n h) refl)

pub normalize_hex_low : (s : Str) → normalize_hex (str "0x" ++ s) ≡ str "0x" ++ s
unfolding normalize_hex has_prefix
normalize_hex_low s = refl
