-- ===== src/Oracle/Eth.antt =====
-- pkg/oracle/eth_gas.go: the oracle of Ethereum as it is written there.
use mezzium.Base.{ℕ, ◌≡◌, refl, inl, inr, Option, none, some, [], if◌then◌else◌, Option-cases}
use mezzium.Base.Int.{ℤ, pos, ltb_ℤ, ◌*ℤ◌, wrap64}
use mezzium.Text.{Str, ◌==◌}
use mezzium.Text.Laws.{copied_unless_empty}
use mathlib.Core.Option
use mezzium.Registry.{NetworkState}
use mezzium.Registry.Pick.{NodeWithPing}
use mezzium.Gas.{eth}
use mezzium.Oracle.{
  Tier, unhinted, GasPrices, Oracle, gas_of, new_gas_oracle, at_least, hints_of, fees_of,
  build_tier, prices_of, compute_from_rpc, fetch_from_official, default_min_priority_gwei,
  default_ttl, fast_delta_gwei, standard_delta_gwei, slow_delta_gwei,
}
use mezzium.Oracle.Evm.{RpcRequest, Decoders, compute}

pub record EthGasV1 : Type 0 where
  pub fast : Tier
  pub standard : Tier
  pub slow : Tier
  pub estimated_base_fee : ℤ
  pub block_number : ℤ

-- The timeout of the EVMClient is that of its requests.
pub record EthGasOracle : Type 0 where
  pub min_prio_gwei : ℤ
  pub external_url : Str
  pub ttl : ℤ

abbrev default_min_priority_gwei_eth : ℤ
default_min_priority_gwei_eth = pos 2

abbrev default_ttl_eth : ℤ
default_ttl_eth = pos 10_000_000_000

unfoldable pub new_eth_gas_oracle : Option NetworkState → EthGasOracle
unfolding gas_of
new_eth_gas_oracle cfg = elim (gas_of cfg) [
  | none ↦ record {
    min_prio_gwei = default_min_priority_gwei_eth;
    external_url = [];
    ttl = default_ttl_eth;
  }
  | some c ↦ record {
    min_prio_gwei =
        if ltb_ℤ (pos 0) c.min_priority_gwei
        then c.min_priority_gwei
        else default_min_priority_gwei_eth;
    external_url = if c.external_url == [] then [] else c.external_url;
    ttl =
        if ltb_ℤ (pos 0) c.ttl_seconds
        then wrap64 (c.ttl_seconds *ℤ pos 1_000_000_000)
        else default_ttl_eth;
  }
]

unfoldable pub eth_fetch_from_official : (Str → Option (ℕ × Str)) → EthGasOracle → Option (ℕ × Str)
eth_fetch_from_official get o = if o.external_url == [] then none else get o.external_url

-- The oracle of Oracle with the same fields.
abbrev pub as_oracle : EthGasOracle → Oracle
as_oracle o = record {
  kind = eth;
  min_prio_gwei = o.min_prio_gwei;
  external_url = o.external_url;
  ttl = o.ttl;
}

abbrev pub as_prices : EthGasV1 → GasPrices
as_prices g = record {
  fast = g.fast;
  standard = g.standard;
  slow = g.slow;
  estimated_base_fee = g.estimated_base_fee;
  block_number = g.block_number;
  hints = unhinted;
}

module _ (decode : Decoders) (post : RpcRequest → Option (ℕ × Str)) where
  unfoldable pub eth_compute_from_rpc : EthGasOracle → NodeWithPing → Option EthGasV1
  unfolding compute at_least build_tier
  eth_compute_from_rpc o node = elim (compute decode post node) [
    | none ↦ none
    | some evm ↦
        let prio = at_least o.min_prio_gwei evm.priority_fee_gwei in
        let build = build_tier o.min_prio_gwei evm.base_fee_gwei prio in
        some (record {
          fast = build (pos 10);
          standard = build (pos 5);
          slow = build (pos 0);
          estimated_base_fee = evm.base_fee_gwei;
          block_number = evm.block_number;
        })
  ]

pub new_eth_gas_oracle_same :
    (cfg : Option NetworkState) → as_oracle (new_eth_gas_oracle cfg) ≡ new_gas_oracle eth cfg
unfolding new_eth_gas_oracle new_gas_oracle default_min_priority_gwei default_ttl
new_eth_gas_oracle_same cfg = elim (Option-cases (gas_of cfg)) [
  | inl e ↦ rw (e, new_eth_gas_oracle, new_gas_oracle) refl
  | inr (c, e) ↦
      rw (e, new_eth_gas_oracle, new_gas_oracle) (rw (copied_unless_empty c.external_url) refl)
]

pub eth_fetch_from_official_same :
    (get : Str → Option (ℕ × Str)) (o : EthGasOracle)
    → eth_fetch_from_official get o ≡ fetch_from_official get (as_oracle o)
unfolding eth_fetch_from_official fetch_from_official
eth_fetch_from_official_same get o = refl

pub eth_compute_from_rpc_same :
    (decode : Decoders) (post : RpcRequest → Option (ℕ × Str)) (o : EthGasOracle)
    (node : NodeWithPing)
    → Option.map as_prices (eth_compute_from_rpc decode post o node)
      ≡ compute_from_rpc decode post (as_oracle o) node
unfolding eth_compute_from_rpc compute_from_rpc fees_of prices_of fast_delta_gwei
    standard_delta_gwei slow_delta_gwei hints_of
eth_compute_from_rpc_same decode post o node = elim (Option-cases (compute decode post node)) [
  | inl e ↦ rw (e, eth_compute_from_rpc, compute_from_rpc, fees_of) refl
  | inr (evm, e) ↦ rw (e, eth_compute_from_rpc, compute_from_rpc, fees_of) refl
]
