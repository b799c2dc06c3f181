-- ===== src/Public/Pages.antt =====
-- NFTGetAllNFTs of pkg/api/public.go. A result of none is a panic.
pub mod Paging
use mezzium.Base.{
  ℕ, zero, suc, ◌+◌, ◌-◌, ◌%◌, ◌^◌, not, ◌||◌, Option, none, some, List, [], ◌∷◌, ◌++◌,
  if◌then◌else◌,
}
use mezzium.Text.{Str, str, ◌==◌, has_prefix, trim_prefix}
use mezzium.Registry.{Registry, best_of}
use mezzium.Registry.Pick.{NodeWithPing}
use mezzium.Proxy.{logged_answer, Outgoing, Answer, Messages}
use mezzium.Adapters.Abi.{
  normalize_hex, build_supports_interface_data, build_balance_of_data,
  build_token_of_owner_by_index_data,
}
use mezzium.Public.{Calls, call_first_2xx}
use mezzium.Public.Endpoints.{
  Library, PublicRequest, Reply, status_only, page, http_error, trim_space, query_param, min_uint,
  parse_uint_default, hex_quantity, result_hex_string, eth_call_payload,
}

unfoldable add_items : List Str → Option (List Str × Calls) → Option (List Str × Calls)
add_items items none = none
add_items items (some (rest, s)) = some (items ++ rest, s)

-- minUint(limit, total-offset) in uint64
unfoldable pub page_length : ℕ → ℕ → ℕ → ℕ
unfolding min_uint
page_length limit offset total = min_uint limit ((total + 2 ^ 64 - offset) % 2 ^ 64)

unfoldable written : (owner contract : Str) → ℕ → Option (List Str × Calls) → Option (Reply × Calls)
written owner contract total none = none
written owner contract total (some (items, s)) = some (
  page (record {
    contract = normalize_hex contract;
    owner = normalize_hex owner;
    total = total;
    items = items;
  }),
  s,
)

module _ (lib : Library) (decode : Str → Option Messages) (send : ℕ → Outgoing → Option Answer)
    (clock : ℕ → ℕ) where
  -- What an answer of callFirst2xx, which logs it, adds to the items.
  unfoldable pub item_of : Option Answer → List Str
  unfolding result_hex_string logged_answer
  item_of none = []
  item_of (some a) =
      let body = (logged_answer a).body in
      if body == []
      then []
      else elim (result_hex_string (lib.read_result body)) [ [] ↦ [] | c ∷ cs ↦ (c ∷ cs) ∷ [] ]

  -- The loop of NFTGetAllNFTs: the items, by the rounds that are left.
  unfoldable pub nft_items :
      List NodeWithPing
      → (owner contract : Str) (rounds idx : ℕ) → Calls
      → Option (List Str × Calls)
  unfolding call_first_2xx eth_call_payload item_of add_items
  nft_items nodes owner contract zero idx s = some ([], s)
  nft_items nodes owner contract (suc rounds) idx s =
      elim (build_token_of_owner_by_index_data owner (idx % 2 ^ 64)) [
        | none ↦ none
        | some input ↦
            let (a, s') =
              call_first_2xx decode send clock nodes (eth_call_payload lib.quote contract input)
                s in
            add_items (item_of a) (nft_items nodes owner contract rounds (idx + 1) s')
      ]

  -- NFTGetAllNFTs from the answer with the balance on.
  unfoldable pub nft_page :
      List NodeWithPing
      → (owner contract : Str) (limit offset : ℕ) → Option Answer × Calls
      → Option (Reply × Calls)
  unfolding hex_quantity page_length nft_items written logged_answer
  nft_page nodes owner contract limit offset (none, s) =
      some (http_error 502 (str "failed to get balance"), s)
  nft_page nodes owner contract limit offset (some a, s) =
      let body = (logged_answer a).body in
      let total = hex_quantity (lib.read_result body) in
      let rounds = page_length limit offset total in
      if body == []
      then some (http_error 502 (str "failed to get balance"), s)
      else if lib.fits_slice rounds
      then written owner contract total (nft_items nodes owner contract rounds offset s)
      else none

  -- NFTGetAllNFTs from the answer about ERC721Enumerable on.
  unfoldable nft_balance :
      List NodeWithPing
      → (owner contract : Str) (limit offset : ℕ) → Option Answer × Calls
      → Option (Reply × Calls)
  unfolding call_first_2xx eth_call_payload nft_page
  nft_balance nodes owner contract limit offset (none, s) =
      some (http_error 502 (str "all upstreams failed"), s)
  nft_balance nodes owner contract limit offset (some a, s) = elim (build_balance_of_data owner) [
    | none ↦ none
    | some input ↦
        nft_page nodes owner contract limit offset
          (call_first_2xx decode send clock nodes (eth_call_payload lib.quote contract input) s)
  ]

  unfoldable nft_supports :
      List NodeWithPing → (owner contract : Str) (limit offset : ℕ) → Calls → Option (Reply × Calls)
  unfolding call_first_2xx eth_call_payload nft_balance
  nft_supports [] owner contract limit offset s =
      some (http_error 503 (str "no healthy ETH nodes"), s)
  nft_supports (n ∷ ns) owner contract limit offset s =
      elim (build_supports_interface_data (str "0x780e9d63")) [
        | none ↦ none
        | some input ↦ nft_balance (n ∷ ns) owner contract limit offset (
            call_first_2xx decode send clock (n ∷ ns) (eth_call_payload lib.quote contract input) s)
      ]

  unfoldable pub limit_of : PublicRequest → ℕ
  unfolding parse_uint_default query_param
  limit_of q = parse_uint_default lib.scan_uint (query_param (str "limit") q) 50

  unfoldable pub offset_of : PublicRequest → ℕ
  unfolding parse_uint_default query_param
  offset_of q = parse_uint_default lib.scan_uint (query_param (str "offset") q) 0

  unfoldable pub nft_get_all_nfts : Registry → PublicRequest → Calls → Option (Reply × Calls)
  unfolding nft_supports limit_of offset_of trim_space query_param
  nft_get_all_nfts r q s =
      let prefix = str "/ethereum/nft/get-all-nfts/" in
      let owner = trim_prefix q.path prefix in
      let contract = trim_space (query_param (str "contract") q) in
      if not (q.method == str "GET") || not (has_prefix q.path prefix)
      then some (status_only 404, s)
      else if owner == []
      then some (http_error 400 (str "owner required"), s)
      else if contract == []
      then some (http_error 400 (str "contract required"), s)
      else nft_supports (best_of r (str "ethereum")) owner contract (limit_of q) (offset_of q) s
