-- ===== src/Oracle/Evm.antt =====
-- pkg/oracle/evm.go: the requests to a node, and the fees of EIP-1559 from them. What the answers are
-- decoded into is here for all oracles.
use mezzium.Base.{
  ℕ, ◌-◌, ◌/◌, ◌^◌, ◌&&◌, Option, none, some, List, [], ◌∷◌, ◌++◌, eqb, if◌then◌else◌,
}
use mezzium.Base.Int.{ℤ, pos, negsuc, ltb_ℤ, leb_ℤ, wrap64}
use mezzium.Text.{Str, str, ◌==◌, to_lower, trim_prefix}
use mezzium.Hex.{set_string, uint64_of, div_euclid}
use mezzium.Registry.Pick.{NodeWithPing}
use mezzium.Proxy.{Headers, set_header, set_all}

-- EIP1559
pub record Eip1559 : Type 0 where
  pub base_fee_gwei : ℤ
  pub priority_fee_gwei : ℤ
  pub block_number : ℤ

pub record ArbGasInfoResult : Type 0 where
  pub base_fee_wei : Str
  pub pricing_inertia : Str
  pub price_per_byte_wei : Str
  pub price_for_calldata_wei : Str

-- A POST request of the rpc functions; a timeout of 0 is none.
pub record RpcRequest : Type 0 where
  pub url : Str
  pub headers : Headers
  pub body : Str
  pub timeout : ℤ

-- The structs that the answers are decoded into; a field that is missing is empty.
pub record Decoders : Type 0 where
  pub result_text : Str → Option Str
  pub base_fee_per_gas : Str → Option (List Str)
  pub arb_gas_info : Str → Option ArbGasInfoResult
  pub rollup_gas_prices : Str → Option (Str × Str)

unfoldable pub rpc_request : ℤ → Str → NodeWithPing → RpcRequest
unfolding set_all set_header
rpc_request timeout body node = record {
  url = node.url;
  headers = set_header (str "content-type") (str "application/json") (set_all node.headers []);
  body = body;
  timeout = timeout;
}

-- json.Marshal of the requests' maps, whose keys it sorts.
unfoldable pub payload : Str → Str → Str → Str
payload id method params =
    str "{\"id\":"
    ++ (id
        ++ (str ",\"jsonrpc\":\"2.0\",\"method\":\""
            ++ (method ++ (str "\",\"params\":" ++ (params ++ str "}")))))

unfoldable pub hex_wei_to_gwei : Str → ℤ
hex_wei_to_gwei h =
    if h == []
    then pos 0
    else wrap64 (div_euclid (set_string 16 (trim_prefix (to_lower h) (str "0x"))) 1_000_000_000)

-- Int64 of what big.Int.SetString read, where it fits.
unfoldable int64_of : ℤ → ℤ
int64_of n =
    if leb_ℤ (negsuc (2 ^ 63 - 1)) n && ltb_ℤ n (pos (2 ^ 63))
    then n
    else wrap64 (pos (uint64_of n))

unfoldable pub hex_to_int64 : Str → ℤ
unfolding int64_of
hex_to_int64 h =
    if h == [] then pos 0 else int64_of (set_string 16 (trim_prefix (to_lower h) (str "0x")))

-- The value that is left where the error is ignored.
unfoldable pub or_zero : Option ℤ → ℤ
or_zero none = pos 0
or_zero (some x) = x

unfoldable last_base_fee : List Str → Option ℤ
unfolding hex_wei_to_gwei
last_base_fee [] = none
last_base_fee (h ∷ []) = some (hex_wei_to_gwei h)
last_base_fee (h ∷ h' ∷ hs) = last_base_fee (h' ∷ hs)

module _ (decode : Decoders) (post : RpcRequest → Option (ℕ × Str)) where
  -- rpc, up to the decoding: the body of an answer with success.
  unfoldable pub reply : ℤ → Str → NodeWithPing → Option Str
  unfolding rpc_request
  reply timeout body node = elim (post (rpc_request timeout body node)) [
    | none ↦ none
    | some (code, b) ↦ if eqb (code / 100) 2 then some b else none
  ]

  -- rpc into a struct with a Result that is text.
  unfoldable pub rpc_text : ℤ → Str → NodeWithPing → Option Str
  unfolding reply
  rpc_text timeout body node = elim (reply timeout body node) [
    | none ↦ none
    | some b ↦ decode.result_text b
  ]

  unfoldable base_fee_from_history : NodeWithPing → Option ℤ
  unfolding reply payload last_base_fee
  base_fee_from_history node =
      elim (reply (pos 2_000_000_000)
        (payload (str "1") (str "eth_feeHistory") (str "[\"0x10\",\"latest\",[]]")) node) [
          | none ↦ none
          | some b ↦ elim (decode.base_fee_per_gas b) [
            | none ↦ none
            | some fees ↦ last_base_fee fees
          ]
        ]

  unfoldable priority_fee : NodeWithPing → Option ℤ
  unfolding rpc_text payload hex_wei_to_gwei
  priority_fee node =
      elim (rpc_text (pos 2_000_000_000)
        (payload (str "2") (str "eth_maxPriorityFeePerGas") (str "[]")) node) [
          | none ↦ none
          | some h ↦ if h == [] then none else some (hex_wei_to_gwei h)
        ]

  unfoldable block_number_of : NodeWithPing → Option ℤ
  unfolding rpc_text payload hex_to_int64
  block_number_of node =
      elim (rpc_text (pos 2_000_000_000) (payload (str "3") (str "eth_blockNumber") (str "[]"))
        node) [ none ↦ none | some h ↦ some (hex_to_int64 h) ]

  -- EVMClient.Compute
  unfoldable pub compute : NodeWithPing → Option Eip1559
  unfolding base_fee_from_history priority_fee block_number_of or_zero
  compute node = elim (base_fee_from_history node) [
    | none ↦ none
    | some base ↦ elim (priority_fee node) [
      | none ↦ none
      | some prio ↦ some (record {
        base_fee_gwei = base;
        priority_fee_gwei = prio;
        block_number = or_zero (block_number_of node);
      })
    ]
  ]
