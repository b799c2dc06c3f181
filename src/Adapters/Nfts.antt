-- ===== src/Adapters/Nfts.antt =====
-- The path nft/{contract}/{tokenId} of pkg/adapters/evm.go.
use mezzium.Base.{
  ℕ, ◌^◌, ◌≤◌, ◌≡◌, refl, ap, ◌∙◌, ◌≢◌, ◌⊎◌, inl, inr, false, none, some, [], ◌∷◌, ◌++◌, arith, eqb,
  All,
}
use mathlib.Core.List.{append_assoc}
use mezzium.Text.{Str, str, split, split_parts, has_prefix}
use mezzium.Hex.{magnitude}
use mezzium.Proxy.{Adapted}
use mezzium.Adapters.Abi.{token_value}
use mezzium.Adapters.Abi.Words.{IsWord, build_owner_of_data-IsWord}
use mezzium.Adapters.Abi.Addresses.{IsLowHex, IsAddress, is_hex_address_low, normalize_hex_low}
use mezzium.Adapters.{
  adapt_evm, nft_route, nft_parts, lower_tail, call, json_call, eth_call_params, result,
}

-- A part of a path.
abbrev pub IsPart : Str → Type 0
IsPart s = All (λ (c : ℕ). c ≢ b'/') s

split_parts_last : (s : Str) → IsPart s → split_parts b'/' s ≡ (s, [])
unfolding split_parts
split_parts_last [] h = refl
split_parts_last (c ∷ s) (hc, hs) =
    let other : eqb c b'/' ≡ false = ground (arith, hc) in
    rw (other, split_parts_last s hs, split_parts) refl

split_parts_front : (s t : Str) → IsPart s → split_parts b'/' (s ++ b'/' ∷ t) ≡ (s, split b'/' t)
unfolding split_parts split
split_parts_front [] t h = refl
split_parts_front (c ∷ s) t (hc, hs) =
    let other : eqb c b'/' ≡ false = ground (arith, hc) in
    rw (other, split_parts_front s t hs, split_parts) refl

IsPart-low : (s : Str) → All IsLowHex s → IsPart s
IsPart-low [] h = tt
IsPart-low (c ∷ s) (hc, hs) = ((λ e. ground (arith, hc, e)), IsPart-low s hs)

module _ (digits token_id : Str) where
  nft_route_path :
      IsAddress digits
      → IsPart token_id
      → nft_route (str "nft/0x" ++ (digits ++ b'/' ∷ token_id))
        ≡ some (str "0x" ++ digits, token_id)
  unfolding nft_route nft_parts split split_parts has_prefix
  nft_route_path address part =
      rw
        (
          split_parts_front digits token_id (IsPart-low digits address.1),
          split_parts_last token_id part,
          is_hex_address_low digits address,
          nft_route,
        )
        refl

module _ (quote : Str → Str) (digits : Str) where
  -- The request that asks a contract for ownerOf with a word.
  abbrev pub IsOwnerCall : Str → Adapted → Type 0
  IsOwnerCall s a =
      (a.tail ≡ [])
      × (a.method ≡ str "POST")
      × (a.allowed_host_substr ≡ [])
      × (a.body
          ≡ str "{\"id\":1,\"jsonrpc\":\"2.0\",\"method\":\"eth_call\",\"params\":[{\"data\":"
            ++ (quote (str "0x6352211e" ++ s)
                ++ (str ",\"to\":" ++ (quote (str "0x" ++ digits) ++ str "},\"latest\"]}"))))

module _ (quote : Str → Str) (tail method body digits token_id : Str) where
  -- The path nft/0x{contract}/{tokenId} of an EVM network, in whatever case, with forty hexadecimal
  -- digits for the contract and no further slash, becomes a POST of one eth_call to the root, at any
  -- upstream: to the contract, with ownerOf of the 32-byte word of the token id as its data. Only if
  -- the id is 2^256 or more the adapter panics.
  pub adapt_evm-IsOwnerCall :
      lower_tail tail ≡ str "nft/0x" ++ (digits ++ b'/' ∷ token_id)
      → IsAddress digits
      → IsPart token_id
      → ((s : Str) × (a : Adapted) × IsWord (magnitude (token_value token_id)) s
          × (adapt_evm quote tail method body ≡ some a)
          × IsOwnerCall quote digits s a)
        ⊎ ((2 ^ 256 ≤ magnitude (token_value token_id)) × (adapt_evm quote tail method body ≡ none))
  unfolding adapt_evm call json_call eth_call_params result
  adapt_evm-IsOwnerCall e address part =
      let route = ap nft_route e ∙ nft_route_path digits token_id address part in
      elim (build_owner_of_data-IsWord token_id) [
        | inl (s, word, input, uri) ↦ inl (
          s,
          call (str "eth_call")
              (eth_call_params quote (str "0x" ++ digits) (str "0x6352211e" ++ s)),
          word,
          rw (route, adapt_evm) (rw input refl),
          (refl, refl, refl, simp (append_assoc, normalize_hex_low digits) refl),
        )
        | inr (large, input, uri) ↦ inr (large, rw (route, adapt_evm) (rw input refl))
      ]
