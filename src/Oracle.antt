-- ===== src/Oracle.antt =====
-- pkg/oracle: gas prices from the RPC of a node. The five oracles have the same fields and differ in
-- their defaults and increments, so they are one record with its kind. Prices are int64. The network
-- is `post` and `get`, which have no answer where http.Client.Do fails; `decode` reads the JSON of
-- the answers, and `marshal` writes that of the result.
pub mod Evm
pub mod Requests
pub mod Eth
pub mod Bsc
pub mod Arbitrum
pub mod Optimism
pub mod Agreement
pub mod Written
pub mod Tiers
pub mod Fallback
pub mod Serving
mod Tests
use mezzium.Base.{
  ℕ, ◌-◌, ◌/◌, ◌^◌, ◌&&◌, Option, none, some, List, [], ◌∷◌, ◌++◌, eqb, if◌then◌else◌,
}
use mezzium.Base.Int.{ℤ, pos, negsuc, ltb_ℤ, leb_ℤ, ◌+ℤ◌, ◌-ℤ◌, ◌*ℤ◌, wrap64}
use mezzium.Text.{Str, str, ◌==◌, to_lower, trim_prefix}
use mezzium.Hex.{set_string, uint64_of, div_euclid}
use mezzium.Networks.{GasConfig}
use mezzium.Registry.{NetworkState}
use mezzium.Registry.Pick.{NodeWithPing}
use mezzium.Proxy.{Headers, set_header, set_all}
use mezzium.Oracle.Evm.{
  Eip1559, ArbGasInfoResult, RpcRequest, Decoders, payload, hex_wei_to_gwei, hex_to_int64, or_zero,
  reply, rpc_text, compute,
}
use mezzium.Oracle.Requests.{
  bsc_eth_gas_price_gwei, bsc_priority_fee, bsc_block_number, try_arb_gas_info,
  try_optimism_rollup_gas_prices,
}
use mezzium.Gas.{Kind, polygon, eth, bsc, arbitrum, optimism, OracleApi}

pub record Tier : Type 0 where
  pub max_priority_fee : ℤ
  pub max_fee : ℤ
  pub gas_price : ℤ

-- The fields that ArbitrumGasV1 and OptimismGasV1 have and the other results do not.
pub data Hints : Type 0 where
  unhinted : Hints
  arb_hints : ArbGasInfoResult → Hints
  rollup_hints : (l1_base_fee_wei l2_base_fee_wei : Str) → Hints

-- PolygonGasV2, EthGasV1, BscGasV1, ArbitrumGasV1 and OptimismGasV1
pub record GasPrices : Type 0 where
  pub fast : Tier
  pub standard : Tier
  pub slow : Tier
  pub estimated_base_fee : ℤ
  pub block_number : ℤ
  pub hints : Hints

-- PolygonGasOracle, EthGasOracle and so on; the timeout of the EVMClient is that of its requests.
pub record Oracle : Type 0 where
  pub kind : Kind
  pub min_prio_gwei : ℤ
  pub external_url : Str
  pub ttl : ℤ

unfoldable default_min_priority_gwei : Kind → ℤ
default_min_priority_gwei polygon = pos 30
default_min_priority_gwei eth = pos 2
default_min_priority_gwei bsc = pos 1
default_min_priority_gwei arbitrum = pos 1
default_min_priority_gwei optimism = pos 1

unfoldable default_ttl : Kind → ℤ
default_ttl polygon = pos 15_000_000_000
default_ttl eth = pos 10_000_000_000
default_ttl bsc = pos 10_000_000_000
default_ttl arbitrum = pos 10_000_000_000
default_ttl optimism = pos 10_000_000_000

unfoldable fast_delta_gwei : Kind → ℤ
fast_delta_gwei polygon = pos 10
fast_delta_gwei eth = pos 10
fast_delta_gwei bsc = pos 5
fast_delta_gwei arbitrum = pos 5
fast_delta_gwei optimism = pos 5

unfoldable standard_delta_gwei : Kind → ℤ
standard_delta_gwei polygon = pos 5
standard_delta_gwei eth = pos 5
standard_delta_gwei bsc = pos 2
standard_delta_gwei arbitrum = pos 2
standard_delta_gwei optimism = pos 2

unfoldable slow_delta_gwei : Kind → ℤ
slow_delta_gwei k = pos 0

-- cfg.Gas
unfoldable gas_of : Option NetworkState → Option GasConfig
gas_of none = none
gas_of (some st) = st.gas

unfoldable pub new_gas_oracle : Kind → Option NetworkState → Oracle
unfolding gas_of default_min_priority_gwei default_ttl
new_gas_oracle k cfg = elim (gas_of cfg) [
  | none ↦ record {
    kind = k;
    min_prio_gwei = default_min_priority_gwei k;
    external_url = [];
    ttl = default_ttl k;
  }
  | some c ↦ record {
    kind = k;
    min_prio_gwei =
        if ltb_ℤ (pos 0) c.min_priority_gwei
        then c.min_priority_gwei
        else default_min_priority_gwei k;
    external_url = c.external_url;
    ttl =
        if ltb_ℤ (pos 0) c.ttl_seconds
        then wrap64 (c.ttl_seconds *ℤ pos 1_000_000_000)
        else default_ttl k;
  }
]

unfoldable at_least : ℤ → ℤ → ℤ
at_least low x = if ltb_ℤ x low then low else x

-- pr of the fallback.
unfoldable pub bsc_observed_prio : ℤ → Option ℤ → ℤ
unfolding at_least
bsc_observed_prio floor none = floor
bsc_observed_prio floor (some pr) = if leb_ℤ pr (pos 0) then floor else at_least floor pr

unfoldable arbitrum_hints : Option ArbGasInfoResult → Hints
arbitrum_hints none = arb_hints (record {
  base_fee_wei = [];
  pricing_inertia = [];
  price_per_byte_wei = [];
  price_for_calldata_wei = [];
})
arbitrum_hints (some l1) = arb_hints l1

unfoldable optimism_hints : Option (Str × Str) → Hints
optimism_hints none = rollup_hints [] []
optimism_hints (some (l1, l2)) = rollup_hints l1 l2

module _ (decode : Decoders) (post : RpcRequest → Option (ℕ × Str)) where
  -- What BscGasOracle.ComputeFromRPC does where eth_feeHistory is of no use.
  unfoldable pub bsc_fallback : Oracle → NodeWithPing → Eip1559
  unfolding bsc_eth_gas_price_gwei bsc_priority_fee bsc_block_number bsc_observed_prio or_zero
      at_least
  bsc_fallback o node =
      let gp = or_zero (bsc_eth_gas_price_gwei decode post node) in
      let pr = bsc_observed_prio o.min_prio_gwei (bsc_priority_fee decode post node) in
      record {
        base_fee_gwei = at_least (pos 0) (wrap64 (gp -ℤ pr));
        priority_fee_gwei = pr;
        block_number = or_zero (bsc_block_number decode post node);
      }

  unfoldable pub bsc_fees : Oracle → NodeWithPing → Eip1559
  unfolding compute bsc_fallback
  bsc_fees o node = elim (compute decode post node) [
    | none ↦ bsc_fallback o node
    | some e ↦ if ltb_ℤ (pos 0) e.base_fee_gwei then e else bsc_fallback o node
  ]

  -- The fields that only two of the networks have.
  unfoldable pub hints_of : Kind → NodeWithPing → Hints
  unfolding try_arb_gas_info arbitrum_hints try_optimism_rollup_gas_prices optimism_hints
  hints_of polygon node = unhinted
  hints_of eth node = unhinted
  hints_of bsc node = unhinted
  hints_of arbitrum node = arbitrum_hints (try_arb_gas_info decode post node)
  hints_of optimism node = optimism_hints (try_optimism_rollup_gas_prices decode post node)

  -- The fees that ComputeFromRPC starts from.
  unfoldable pub fees_of : Oracle → NodeWithPing → Option Eip1559
  unfolding compute bsc_fees
  fees_of o node = elim o.kind [
    | polygon ↦ compute decode post node
    | eth ↦ compute decode post node
    | bsc ↦ some (bsc_fees o node)
    | arbitrum ↦ compute decode post node
    | optimism ↦ compute decode post node
  ]

-- build
unfoldable pub build_tier : ℤ → ℤ → ℤ → ℤ → Tier
unfolding at_least
build_tier floor base prio delta =
    let p = at_least floor (wrap64 (prio +ℤ delta)) in
    let m = wrap64 (base +ℤ p) in record { max_priority_fee = p; max_fee = m; gas_price = m }

unfoldable pub prices_of : Oracle → Eip1559 → Hints → GasPrices
unfolding build_tier at_least fast_delta_gwei standard_delta_gwei slow_delta_gwei
prices_of o e h =
    let prio = at_least o.min_prio_gwei e.priority_fee_gwei in
    let build = build_tier o.min_prio_gwei e.base_fee_gwei prio in
    record {
      fast = build (fast_delta_gwei o.kind);
      standard = build (standard_delta_gwei o.kind);
      slow = build (slow_delta_gwei o.kind);
      estimated_base_fee = e.base_fee_gwei;
      block_number = e.block_number;
      hints = h;
    }

module _ (decode : Decoders) (post : RpcRequest → Option (ℕ × Str)) where
  unfoldable pub compute_from_rpc : Oracle → NodeWithPing → Option GasPrices
  unfolding fees_of prices_of hints_of
  compute_from_rpc o node = elim (fees_of decode post o node) [
    | none ↦ none
    | some e ↦ some (prices_of o e (hints_of decode post o.kind node))
  ]

unfoldable pub fetch_from_official : (Str → Option (ℕ × Str)) → Oracle → Option (ℕ × Str)
fetch_from_official get o = if o.external_url == [] then none else get o.external_url

-- The methods and the adapters of NewOracleForNetwork, as what the endpoints use.
unfoldable pub gas_oracles :
    Decoders
    → (RpcRequest → Option (ℕ × Str))
    → (Str → Option (ℕ × Str))
    → (GasPrices → Str)
    → OracleApi Oracle
unfolding new_gas_oracle fetch_from_official compute_from_rpc
gas_oracles decode post get marshal = record {
  new_oracle = new_gas_oracle;
  ttl_duration = λ o. o.ttl;
  fetch_from_official = fetch_from_official get;
  compute_from_rpc_bytes = λ o node. elim (compute_from_rpc decode post o node) [
    | none ↦ none
    | some g ↦ some (marshal g)
  ];
}
