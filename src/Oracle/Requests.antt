-- ===== src/Oracle/Requests.antt =====
-- The requests to a node that bsc_gas.go, arbitrum_gas.go and optimism_gas.go of pkg/oracle make
-- themselves.
use mezzium.Base.{ℕ, ◌&&◌, Option, none, some, [], if◌then◌else◌}
use mezzium.Base.Int.{ℤ, pos}
use mezzium.Text.{Str, str, ◌==◌}
use mezzium.Registry.Pick.{NodeWithPing}
use mezzium.Oracle.Evm.{
  ArbGasInfoResult, RpcRequest, Decoders, payload, hex_wei_to_gwei, hex_to_int64, reply, rpc_text,
}

module _ (decode : Decoders) (post : RpcRequest → Option (ℕ × Str)) where
  -- The requests of bsc_gas.go, which have no timeout and ids of their own.
  unfoldable pub bsc_eth_gas_price_gwei : NodeWithPing → Option ℤ
  unfolding rpc_text payload hex_wei_to_gwei
  bsc_eth_gas_price_gwei node =
      elim (rpc_text decode post (pos 0) (payload (str "11") (str "eth_gasPrice") (str "[]"))
        node) [ none ↦ none | some h ↦ some (hex_wei_to_gwei h) ]

  unfoldable pub bsc_priority_fee : NodeWithPing → Option ℤ
  unfolding rpc_text payload hex_wei_to_gwei
  bsc_priority_fee node =
      elim (rpc_text decode post (pos 0)
        (payload (str "12") (str "eth_maxPriorityFeePerGas") (str "[]")) node) [
          | none ↦ none
          | some h ↦ some (hex_wei_to_gwei h)
        ]

  unfoldable pub bsc_block_number : NodeWithPing → Option ℤ
  unfolding rpc_text payload hex_to_int64
  bsc_block_number node =
      elim (rpc_text decode post (pos 0) (payload (str "13") (str "eth_blockNumber") (str "[]"))
        node) [ none ↦ none | some h ↦ some (hex_to_int64 h) ]

  unfoldable pub try_arb_gas_info : NodeWithPing → Option ArbGasInfoResult
  unfolding reply payload
  try_arb_gas_info node =
      elim (reply decode post (pos 0) (payload (str "1001") (str "arb_gasInfo") (str "[]")) node) [
        | none ↦ none
        | some b ↦ decode.arb_gas_info b
      ]

  unfoldable pub try_optimism_rollup_gas_prices : NodeWithPing → Option (Str × Str)
  unfolding reply payload
  try_optimism_rollup_gas_prices node =
      elim (reply decode post (pos 0) (payload (str "1002") (str "rollup_gasPrices") (str "[]"))
        node) [
          | none ↦ none
          | some b ↦ elim (decode.rollup_gas_prices b) [
            | none ↦ none
            | some (l1, l2) ↦ if l1 == [] && l2 == [] then none else some (l1, l2)
          ]
        ]
