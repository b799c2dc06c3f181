-- ===== src/Adapters.antt =====
-- pkg/adapters: what a request to /{network}/{tail} becomes before it goes to a node. The result is
-- none where an adapter panics. `quote` writes a text as JSON, and `read_json` reads a body; both
-- are encoding/json. Copies of a body are the body.
pub mod Abi
pub mod Routes
pub mod Nfts
mod Tests
use mezzium.Base.{
  ℕ, Bool, false, ◌&&◌, ◌||◌, Option, none, some, List, [], ◌∷◌, ◌++◌, eqb, if◌then◌else◌,
}
use mezzium.Text.{Str, str, ◌==◌, to_lower, has_prefix, contains, trim_prefix, split}
use mezzium.Dict.{Dict}
use mezzium.Proxy.{Headers, Adapted}
use Abi.{is_hex_address, build_owner_of_data, normalize_hex}

-- What adaptSOL looks at in an object that was read, and the text that it marshals into: with the
-- commitment at the end of its params or without.
pub record JsonObject : Type 0 where
  pub method : Str
  pub params_length : Option ℕ
  pub encoded : Bool → Str

-- ensureJSON(nil)
unfoldable ensure_json : Dict Str
ensure_json = (str "Content-Type", str "application/json") ∷ []

unfoldable result : Str → Str → Str → Dict Str → List Str → Adapted
result tail method body headers hosts = record {
  tail = tail;
  method = method;
  body = body;
  headers = headers;
  allowed_host_substr = hosts;
}

-- strings.ToLower(strings.TrimPrefix(tail, "/"))
unfoldable lower_tail : Str → Str
lower_tail tail = to_lower (trim_prefix tail (str "/"))

-- The address behind "balance/", where there is one.
unfoldable balance_address : Str → Option Str
balance_address ltail =
    if has_prefix ltail (str "balance/")
    then elim (trim_prefix ltail (str "balance/")) [ [] ↦ none | c ∷ cs ↦ some (c ∷ cs) ]
    else none

-- mustJSON of a call, of which the params are written already.
unfoldable json_call : Str → Str → Str
json_call method params =
    str "{\"id\":1,\"jsonrpc\":\"2.0\",\"method\":\""
    ++ (method ++ (str "\",\"params\":" ++ (params ++ str "}")))

-- A call that is sent to the root.
unfoldable call : Str → Str → Adapted
unfolding result ensure_json json_call
call method params = result [] (str "POST") (json_call method params) ensure_json []

unfoldable pub adapt_trx : Str → Str → Str → Adapted
unfolding result lower_tail balance_address ensure_json
adapt_trx tail method body = elim (balance_address (lower_tail tail)) [
  | some addr ↦
      result (str "v1/accounts/" ++ addr) (str "GET") [] ensure_json (str "trongrid.io" ∷ [])
  | none ↦ result tail method body ensure_json []
]

-- The paths that adaptBTC passes on.
unfoldable btc_rest : Str → Bool
btc_rest ltail =
    has_prefix ltail (str "rest/")
    || has_prefix ltail (str "blocks/")
    || has_prefix ltail (str "tx/")
    || has_prefix ltail (str "address/")

unfoldable pub adapt_btc : Str → Str → Str → Adapted
unfolding result lower_tail balance_address btc_rest
adapt_btc tail method body =
    let ltail = lower_tail tail in
    if ltail == [] || ltail == str "/"
    then result (str "blocks/tip/height") (str "GET") [] []
        (str "blockstream.info" ∷ str "tatum.io" ∷ [])
    else if btc_rest ltail
    then result tail method body [] (str "blockstream.info" ∷ str "tatum.io" ∷ [])
    else if ltail == str "fees"
    then result (str "v3/blockchain/fee/BTC") (str "GET") [] [] (str "tatum.io" ∷ [])
    else elim (balance_address ltail) [
      | some addr ↦
          result (str "v3/bitcoin/address/balance/" ++ addr) (str "GET") [] [] (str "tatum.io" ∷ [])
      | none ↦ result tail method body [] []
    ]

-- The body of getblockcount in adaptDOGE and adaptLTC.
unfoldable block_count_body : Str
block_count_body = str "{\"jsonrpc\":\"2.0\",\"method\":\"getblockcount\",\"params\":[],\"id\":1}"

-- The height where the tail is empty, by the kind of upstream.
unfoldable doge_height : Str → Str
doge_height lbase =
    if contains lbase (str "dogechain.info")
    then str "api/v1/block/count"
    else if contains lbase (str "socha.in")
    then str "api/v2"
    else str "rest/chaininfo.json"

unfoldable ltc_height : Str → Str
ltc_height lbase =
    if contains lbase (str "sochain.com")
    then str "api/v2/get_info/LTC"
    else if contains lbase (str "blockbook") || contains lbase (str "blockchair")
    then str "api/v2"
    else str "rest/chaininfo.json"

-- adaptDOGE and adaptLTC, which differ in the height.
unfoldable adapt_rest : (Str → Str) → Str → Str → Str → Str → Adapted
unfolding result lower_tail ensure_json block_count_body
adapt_rest height tail method body base_url =
    let ltail = lower_tail tail in
    let lbase = to_lower base_url in
    if contains lbase (str "tatum.io")
    then result [] (str "POST") block_count_body ensure_json []
    else if has_prefix ltail (str "rest/") || has_prefix ltail (str "api/")
    then result tail method body [] []
    else if ltail == []
    then result (height lbase) (str "GET") [] [] []
    else result tail method body ensure_json []

unfoldable pub adapt_doge : Str → Str → Str → Str → Adapted
unfolding adapt_rest doge_height
adapt_doge tail method body base_url = adapt_rest doge_height tail method body base_url

unfoldable pub adapt_ltc : Str → Str → Str → Str → Adapted
unfolding adapt_rest ltc_height
adapt_ltc tail method body base_url = adapt_rest ltc_height tail method body base_url

unfoldable commitment : Str
commitment = str "{\"commitment\":\"finalized\"}"

unfoldable get_slot : Adapted
unfolding call commitment
get_slot = call (str "getSlot") (str "[" ++ (commitment ++ str "]"))

unfoldable is_one : Option ℕ → Bool
is_one none = false
is_one (some n) = eqb n 1

-- The contract and the token id of nft/{contract}/{tokenId}.
unfoldable nft_parts : List Str → Option (Str × Str)
nft_parts [] = none
nft_parts (nft ∷ []) = none
nft_parts (nft ∷ contract ∷ []) = none
nft_parts (nft ∷ contract ∷ token_id ∷ rest) =
    if is_hex_address contract then some (contract, token_id) else none

unfoldable nft_route : Str → Option (Str × Str)
unfolding nft_parts
nft_route ltail = if has_prefix ltail (str "nft/") then nft_parts (split b'/' ltail) else none

module _ (quote : Str → Str) where
  unfoldable pub eth_call_params : Str → Str → Str
  eth_call_params contract input =
      str "[{\"data\":"
      ++ (quote input
          ++ (str ",\"to\":" ++ (quote (normalize_hex contract) ++ str "},\"latest\"]")))

  -- The routes of a GET request.
  unfoldable evm_get : Str → Option Adapted
  unfolding call balance_address
  evm_get ltail =
      if ltail == str "blocknumber" || ltail == str "block_number"
      then some (call (str "eth_blockNumber") (str "[]"))
      else if ltail == str "gasprice" || ltail == str "gas_price"
      then some (call (str "eth_gasPrice") (str "[]"))
      else if ltail == str "chainid" || ltail == str "chain_id"
      then some (call (str "eth_chainId") (str "[]"))
      else elim (balance_address ltail) [
        | none ↦ none
        | some addr ↦ some (
            call (str "eth_getBalance")
              (str "[" ++ (quote (normalize_hex addr) ++ str ",\"latest\"]")))
      ]

  unfoldable evm_plain : Str → Str → Str → Adapted
  unfolding evm_get result lower_tail
  evm_plain tail method body =
      elim (if method == str "GET" then evm_get (lower_tail tail) else none) [
        | some a ↦ a
        | none ↦ result tail method body [] []
      ]

  unfoldable pub adapt_evm : Str → Str → Str → Option Adapted
  unfolding nft_route eth_call_params call evm_plain lower_tail
  adapt_evm tail method body = elim (nft_route (lower_tail tail)) [
    | none ↦ some (evm_plain tail method body)
    | some (contract, token_id) ↦ elim (build_owner_of_data token_id) [
      | none ↦ none
      | some input ↦ some (call (str "eth_call") (eth_call_params contract input))
    ]
  ]

  module _ (read_json : Str → Option JsonObject) where
    -- adaptSOL on a body that is an object with a method.
    unfoldable sol_object : Str → Str → JsonObject → Adapted
    unfolding result ensure_json is_one
    sol_object tail method j =
        result tail method
          (j.encoded (to_lower j.method == str "getbalance" && is_one j.params_length)) ensure_json
          []

    unfoldable pub adapt_sol : Str → Str → Str → Adapted
    unfolding get_slot balance_address call commitment lower_tail sol_object result
    adapt_sol tail method body =
        let ltail = lower_tail tail in
        if method == str "GET"
        then if ltail == [] || ltail == str "slot" then get_slot else elim (balance_address ltail) [
          | some addr ↦
              call (str "getBalance")
                (str "[" ++ (quote addr ++ (str "," ++ (commitment ++ str "]"))))
          | none ↦ result tail method [] [] []
        ]
        else elim (read_json body) [
          | none ↦ get_slot
          | some j ↦ if j.method == [] then get_slot else sol_object tail method j
        ]

    unfoldable pub adapt :
        (network protocol base_url tail method : Str) → Headers → Str → Option Adapted
    unfolding adapt_trx adapt_btc adapt_sol adapt_doge adapt_ltc adapt_evm result
    adapt network protocol base_url tail method headers body =
        let name = to_lower network in
        if name == str "trx"
        then some (adapt_trx tail method body)
        else if name == str "btc"
        then some (adapt_btc tail method body)
        else if name == str "sol"
        then some (adapt_sol tail method body)
        else if name == str "doge"
        then some (adapt_doge tail method body base_url)
        else if name == str "ltc"
        then some (adapt_ltc tail method body base_url)
        else if to_lower protocol == str "evm"
        then adapt_evm tail method body
        else some (result tail method body [] [])
