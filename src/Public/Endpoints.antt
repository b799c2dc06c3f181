-- ===== src/Public/Endpoints.antt =====
-- The handlers of pkg/api/public.go but for ActiveNodes, EthFee and NFTGetAllNFTs. `json` is encoding/json, fmt.Sscanf and
-- the run time's make; a query parameter that is missing is empty. A result of none is a panic.
use mezzium.Base.{
  ℕ, Bool, false, not, ◌&&◌, ◌||◌, Option, none, some, List, [], ◌∷◌, ◌++◌, ltb, leb, eqb,
  if◌then◌else◌,
}
use mezzium.Base.Int.{pos}
use mezzium.Text.{Str, str, ◌==◌, to_lower, has_prefix, trim_prefix, split}
use mezzium.Dict.{Dict, lookup}
use mezzium.Hex.{set_string, uint64_of}
use mezzium.Registry.{Registry, best_of}
use mezzium.Registry.Pick.{NodeWithPing}
use mezzium.Proxy.{Outgoing, Answer, Messages}
use mezzium.Adapters.{eth_call_params}
use mezzium.Adapters.Abi.{build_token_uri_data}
use mezzium.Public.{Calls, first_2xx, call_first_2xx, post_to}

pub record PublicRequest : Type 0 where
  pub method : Str
  pub path : Str
  pub query : Dict Str

-- The object that NFTGetAllNFTs writes.
pub record NftPage : Type 0 where
  pub contract : Str
  pub owner : Str
  pub total : ℕ
  pub items : List Str

pub data Reply : Type 0 where
  status_only : (code : ℕ) → Reply
  json : (code : ℕ) → (body : Str) → Reply
  page : NftPage → Reply
  http_error : (code : ℕ) → (message : Str) → Reply

-- quote writes a text; read_fees is json.Unmarshal into a feeHistory, of which the fields that the
-- JSON lacks keep their values, with whether there was no error, and read_prio the same into a
-- maxPrio; read_result is the text under "result", empty if there is none; scan_uint is Sscanf with
-- %d; fits_slice is whether make([]string, 0, n) succeeds.
pub record Library : Type 0 where
  pub quote : Str → Str
  pub read_fees : List Str → Str → List Str × Bool
  pub read_prio : Str → Str → Str × Bool
  pub read_result : Str → Str
  pub scan_uint : Str → Option ℕ
  pub fits_slice : ℕ → Bool

unfoldable is_space : ℕ → Bool
is_space c = eqb c 32 || (leb 9 c && leb c 13)

unfoldable trim_space_left : Str → Str
unfolding is_space
trim_space_left [] = []
trim_space_left (c ∷ s) = if is_space c then trim_space_left s else c ∷ s

-- A space stays if something stays behind it.
unfoldable trim_space_right : Str → Str
unfolding is_space
trim_space_right [] = []
trim_space_right (c ∷ s) = elim (trim_space_right s) [
  | [] ↦ if is_space c then [] else c ∷ []
  | d ∷ r ↦ c ∷ d ∷ r
]

-- strings.TrimSpace, of the ASCII spaces.
unfoldable pub trim_space : Str → Str
unfolding trim_space_left trim_space_right
trim_space s = trim_space_right (trim_space_left s)

unfoldable pub query_param : Str → PublicRequest → Str
query_param name q = elim (lookup name q.query) [ none ↦ [] | some v ↦ v ]

unfoldable pub min_uint : ℕ → ℕ → ℕ
min_uint a b = if ltb a b then a else b

unfoldable pub parse_uint_default : (Str → Option ℕ) → Str → ℕ → ℕ
parse_uint_default scan s default =
    if s == [] then default else elim (scan s) [ none ↦ default | some v ↦ v ]

-- The last of a list, or nothing: the function first of the source.
unfoldable pub first : List Str → Str
first [] = []
first (s ∷ []) = s
first (s ∷ s' ∷ rest) = first (s' ∷ rest)

-- tryParseHexQuantityFromRPC, after "result" was read.
unfoldable pub hex_quantity : Str → ℕ
hex_quantity result =
    let r = trim_prefix (to_lower result) (str "0x") in
    if r == [] then 0 else uint64_of (set_string 16 r)

-- extractResultHexString, after "result" was read.
unfoldable pub result_hex_string : Str → Str
result_hex_string r =
    if r == []
    then []
    else if has_prefix (to_lower r) (str "0x")
    then to_lower r
    else str "0x" ++ to_lower r

-- How the answer of a call is written, and the error where there is none.
unfoldable pub answered : Str → Option Answer × Calls → Reply × Calls
answered message (none, s) = (http_error 502 message, s)
answered message (some a, s) = (json a.status a.body, s)

-- mustJSONRPC of an eth_call.
unfoldable pub eth_call_payload : (Str → Str) → Str → Str → Str
eth_call_payload quote contract input =
    str "{\"id\":1,\"jsonrpc\":\"2.0\",\"method\":\"eth_call\",\"params\":"
    ++ (eth_call_params quote contract input ++ str "}")

module _ (lib : Library) (decode : Str → Option Messages) (send : ℕ → Outgoing → Option Answer)
    (clock : ℕ → ℕ) where
  unfoldable pub try_forward_json_rpc_to_nodes : List NodeWithPing → Str → Calls → Reply × Calls
  unfolding call_first_2xx answered
  try_forward_json_rpc_to_nodes nodes raw s =
      answered (str "all upstreams failed") (call_first_2xx decode send clock nodes raw s)

  unfoldable pub eth_max_priority_fee : Registry → PublicRequest → Calls → Reply × Calls
  unfolding first_2xx post_to answered
  eth_max_priority_fee r q s =
      if not (q.method == str "GET")
      then (status_only 405, s)
      else elim (best_of r (str "ethereum")) [
        | [] ↦ (http_error 503 (str "no healthy ETH nodes"), s)
        | n ∷ ns ↦ answered (str "no healthy ETH nodes available") (
            first_2xx decode send clock
              (post_to (pos 5_000_000_000) false (
                str
                  "{\"jsonrpc\":\"2.0\",\"id\":1,\"method\":\"eth_maxPriorityFeePerGas\",\"params\":[]}"))
              (n ∷ ns) s)
      ]

  unfoldable pub btc_balance : Registry → PublicRequest → Calls → Reply × Calls
  unfolding try_forward_json_rpc_to_nodes
  btc_balance r q s =
      let addr = trim_prefix q.path (str "/btc/balance/") in
      if not (q.method == str "GET")
      then (status_only 405, s)
      else if addr == []
      then (http_error 400 (str "address required"), s)
      else elim (best_of r (str "btc")) [
        | [] ↦ (http_error 503 (str "no healthy BTC nodes"), s)
        | n ∷ ns ↦
            try_forward_json_rpc_to_nodes (n ∷ ns)
              (str "{\"jsonrpc\":\"2.0\",\"id\":1,\"method\":\"getbalance\",\"params\":[\""
                ++ (addr ++ str "\"]}"))
              s
      ]

  unfoldable forward_metadata : List NodeWithPing → List Str → Calls → Option (Reply × Calls)
  unfolding try_forward_json_rpc_to_nodes eth_call_payload
  forward_metadata nodes [] s =
      some (http_error 400 (str "contractAddress and tokenId required"), s)
  forward_metadata nodes (contract ∷ []) s =
      some (http_error 400 (str "contractAddress and tokenId required"), s)
  forward_metadata nodes (contract ∷ token_id ∷ rest) s = elim nodes [
    | [] ↦ some (http_error 503 (str "no healthy ETH nodes"), s)
    | n ∷ ns ↦ elim (build_token_uri_data token_id) [
      | none ↦ none
      | some input ↦
          some
            (try_forward_json_rpc_to_nodes (n ∷ ns) (eth_call_payload lib.quote contract input) s)
    ]
  ]

  unfoldable pub nft_get_nft_metadata : Registry → PublicRequest → Calls → Option (Reply × Calls)
  unfolding forward_metadata
  nft_get_nft_metadata r q s =
      let prefix = str "/ethereum/nft/get-nft-metadata/" in
      if not (q.method == str "GET") || not (has_prefix q.path prefix)
      then some (status_only 404, s)
      else forward_metadata (best_of r (str "ethereum")) (split b'/' (trim_prefix q.path prefix)) s
