-- ===== src/Adapters/Abi.antt =====
-- pkg/adapters/nft.go: the data of eth_call for the functions of an NFT contract. The result is none
-- where the function panics: leftPad32 slices below 0 for more than 32 bytes.
pub mod Words
pub mod Addresses
use mezzium.Base.{
  ℕ, zero, suc, ◌-◌, Bool, ◌&&◌, Option, none, some, List, [], ◌∷◌, ◌++◌, leb, eqb, if◌then◌else◌,
  length,
}
use mezzium.Base.Int.{ℤ}
use mezzium.Text.{Str, str, to_lower, has_prefix, trim_prefix}
use mezzium.Hex.{set_string, magnitude, bytes_of, encode_to_string, decode_string}

unfoldable zeros : ℕ → List ℕ
zeros zero = []
zeros (suc n) = 0 ∷ zeros n

unfoldable pub left_pad32 : List ℕ → Option (List ℕ)
unfolding zeros
left_pad32 b = if leb (length b) 32 then some (zeros (32 - length b) ++ b) else none

-- s[2:]
unfoldable after_two : Str → Str
after_two [] = []
after_two (c ∷ []) = []
after_two (c ∷ d ∷ s) = s

-- A text in lower case without "0x" before it.
unfoldable unprefixed : Str → Str
unfolding after_two
unprefixed s = let l = to_lower s in if has_prefix l (str "0x") then after_two l else l

-- The big.Int of a token id, in decimal or in hexadecimal with 0x.
unfoldable pub token_value : Str → ℤ
unfolding after_two
token_value token_id =
    if has_prefix (to_lower token_id) (str "0x")
    then set_string 16 (after_two token_id)
    else set_string 10 token_id

unfoldable pub is_hex_address : Str → Bool
unfolding unprefixed
is_hex_address s = let u = unprefixed s in eqb (length u) 40 && (decode_string u).1

unfoldable with_selector : Str → Option (List ℕ) → Option Str
with_selector selector none = none
with_selector selector (some enc) = some (selector ++ encode_to_string enc)

unfoldable pub build_owner_of_data : Str → Option Str
unfolding with_selector left_pad32 token_value
build_owner_of_data token_id =
    with_selector (str "0x6352211e") (left_pad32 (bytes_of (magnitude (token_value token_id))))

unfoldable pub build_token_uri_data : Str → Option Str
unfolding with_selector left_pad32 token_value
build_token_uri_data token_id =
    with_selector (str "0xc87b56dd") (left_pad32 (bytes_of (magnitude (token_value token_id))))

unfoldable pub build_balance_of_data : Str → Option Str
unfolding with_selector left_pad32 unprefixed
build_balance_of_data addr =
    with_selector (str "0x70a08231") (left_pad32 (decode_string (unprefixed addr)).0)

unfoldable pub build_token_of_owner_by_index_data : Str → ℕ → Option Str
unfolding with_selector left_pad32 unprefixed
build_token_of_owner_by_index_data owner index =
    elim (left_pad32 (decode_string (unprefixed owner)).0) [
      | none ↦ none
      | some word ↦ elim (left_pad32 (bytes_of index)) [
        | none ↦ none
        | some word' ↦ with_selector (str "0x2f745c59") (some (word ++ word'))
      ]
    ]

unfoldable pub build_supports_interface_data : Str → Option Str
unfolding with_selector left_pad32
build_supports_interface_data iface_hex4 =
    with_selector (str "0x01ffc9a7")
      (left_pad32 (decode_string (trim_prefix (to_lower iface_hex4) (str "0x"))).0)

unfoldable pub normalize_hex : Str → Str
normalize_hex s = if has_prefix s (str "0x") then s else str "0x" ++ s
