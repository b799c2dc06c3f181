-- ===== src/Oracle/Agreement.antt =====
-- The oracles of eth_gas.go, bsc_gas.go, arbitrum_gas.go and optimism_gas.go, each as it is written,
-- and the one oracle with its kind of Oracle, which is written as polygon_gas.go is.
use mezzium.Base.{ℕ, ◌≡◌, ap, ◌∙◌, Option}
use mezzium.Text.{Str}
use mathlib.Core.Option
use mezzium.Registry.{NetworkState}
use mezzium.Registry.Pick.{NodeWithPing}
use mezzium.Gas.{Kind, eth, bsc, arbitrum, optimism}
use mezzium.Oracle.{GasPrices, Oracle, new_gas_oracle, compute_from_rpc, fetch_from_official}
use mezzium.Oracle.Evm.{RpcRequest, Decoders}
use mezzium.Oracle.Eth
use mezzium.Oracle.Bsc
use mezzium.Oracle.Arbitrum
use mezzium.Oracle.Optimism

module _ (decode : Decoders) (post : RpcRequest → Option (ℕ × Str))
    (get : Str → Option (ℕ × Str)) where
  -- A constructor, ComputeFromRPC and FetchFromOfficial do the same as the oracle of that kind, and
  -- have its TTL.
  abbrev Agrees :
      {O R : Type 0}
      → Kind
      → (O → Oracle)
      → (R → GasPrices)
      → (Option NetworkState → O)
      → (O → Option (ℕ × Str))
      → (O → NodeWithPing → Option R)
      → Type 0
  Agrees k as_oracle as_prices new fetch compute =
      (cfg : Option NetworkState)
      → (as_oracle (new cfg) ≡ new_gas_oracle k cfg)
        × (fetch (new cfg) ≡ fetch_from_official get (new_gas_oracle k cfg))
        × ((node : NodeWithPing)
            → Option.map as_prices (compute (new cfg) node)
              ≡ compute_from_rpc decode post (new_gas_oracle k cfg) node)

  Agrees-of :
      {O R : Type 0} (k : Kind) (as_oracle : O → Oracle) (as_prices : R → GasPrices)
      (new : Option NetworkState → O) (fetch : O → Option (ℕ × Str))
      (compute : O → NodeWithPing → Option R)
      → ((cfg : Option NetworkState) → as_oracle (new cfg) ≡ new_gas_oracle k cfg)
      → ((o : O) → fetch o ≡ fetch_from_official get (as_oracle o))
      → ((o : O) (node : NodeWithPing)
          → Option.map as_prices (compute o node) ≡ compute_from_rpc decode post (as_oracle o) node)
      → Agrees k as_oracle as_prices new fetch compute
  Agrees-of k as_oracle as_prices new fetch compute made fetched computed cfg = (
    made cfg,
    fetched (new cfg) ∙ ap (fetch_from_official get) (made cfg),
    (λ node.
        computed (new cfg) node
        ∙ ap (λ (o : Oracle). compute_from_rpc decode post o node) (made cfg)),
  )

  -- For every configuration, each of the four oracles has the fields of the oracle of its kind, asks
  -- the external service as that does, and computes the same prices from the RPC of a node, with
  -- the same hints.
  oracles_agree :
      Agrees eth Eth.as_oracle Eth.as_prices Eth.new_eth_gas_oracle
        (Eth.eth_fetch_from_official get)
        (Eth.eth_compute_from_rpc decode post)
      × Agrees bsc Bsc.as_oracle Bsc.as_prices Bsc.new_bsc_gas_oracle
          (Bsc.bsc_fetch_from_official get)
          (Bsc.bsc_compute_from_rpc decode post)
      × Agrees arbitrum Arbitrum.as_oracle Arbitrum.as_prices Arbitrum.new_arbitrum_gas_oracle
          (Arbitrum.arbitrum_fetch_from_official get)
          (Arbitrum.arbitrum_compute_from_rpc decode post)
      × Agrees optimism Optimism.as_oracle Optimism.as_prices Optimism.new_optimism_gas_oracle
          (Optimism.optimism_fetch_from_official get)
          (Optimism.optimism_compute_from_rpc decode post)
  oracles_agree = (
    Agrees-of eth Eth.as_oracle Eth.as_prices Eth.new_eth_gas_oracle
        (Eth.eth_fetch_from_official get) (Eth.eth_compute_from_rpc decode post)
        Eth.new_eth_gas_oracle_same (Eth.eth_fetch_from_official_same get)
        (Eth.eth_compute_from_rpc_same decode post),
    Agrees-of bsc Bsc.as_oracle Bsc.as_prices Bsc.new_bsc_gas_oracle
        (Bsc.bsc_fetch_from_official get) (Bsc.bsc_compute_from_rpc decode post)
        Bsc.new_bsc_gas_oracle_same (Bsc.bsc_fetch_from_official_same get)
        (Bsc.bsc_compute_from_rpc_same decode post),
    Agrees-of arbitrum Arbitrum.as_oracle Arbitrum.as_prices Arbitrum.new_arbitrum_gas_oracle
        (Arbitrum.arbitrum_fetch_from_official get) (Arbitrum.arbitrum_compute_from_rpc decode post)
        Arbitrum.new_arbitrum_gas_oracle_same (Arbitrum.arbitrum_fetch_from_official_same get)
        (Arbitrum.arbitrum_compute_from_rpc_same decode post),
    Agrees-of optimism Optimism.as_oracle Optimism.as_prices Optimism.new_optimism_gas_oracle
        (Optimism.optimism_fetch_from_official get) (Optimism.optimism_compute_from_rpc decode post)
        Optimism.new_optimism_gas_oracle_same (Optimism.optimism_fetch_from_official_same get)
        (Optimism.optimism_compute_from_rpc_same decode post),
  )
