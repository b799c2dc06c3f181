-- ===== src/Oracle/Bsc.antt =====
-- pkg/oracle/bsc_gas.go: the oracle of BNB Smart Chain as it is written there.
use mezzium.Base.{ℕ, ◌≡◌, refl, inl, inr, Option, none, some, [], if◌then◌else◌, Option-cases}
use mezzium.Base.Int.{ℤ, pos, ltb_ℤ, ◌*ℤ◌, wrap64}
use mezzium.Text.{Str, ◌==◌}
use mezzium.Text.Laws.{copied_unless_empty}
use mathlib.Core.Option
use mezzium.Registry.{NetworkState}
use mezzium.Registry.Pick.{NodeWithPing}
use mezzium.Gas.{bsc}
use mezzium.Oracle.{
  Tier, unhinted, GasPrices, Oracle, gas_of, new_gas_oracle, at_least, bsc_fees, hints_of, fees_of,
  build_tier, prices_of, compute_from_rpc, fetch_from_official, default_min_priority_gwei,
  default_ttl, fast_delta_gwei, standard_delta_gwei, slow_delta_gwei,
}
use mezzium.Oracle.Evm.{RpcRequest, Decoders}

pub record BscGasV1 : Type 0 where
  pub fast : Tier
  pub standard : Tier
  pub slow : Tier
  pub estimated_base_fee : ℤ
  pub block_number : ℤ

-- The timeout of the EVMClient is that of its requests.
pub record BscGasOracle : Type 0 where
  pub min_prio_gwei : ℤ
  pub external_url : Str
  pub ttl : ℤ

abbrev default_min_priority_gwei_bsc : ℤ
default_min_priority_gwei_bsc = pos 1

abbrev default_ttl_bsc : ℤ
default_ttl_bsc = pos 10_000_000_000

abbrev bsc_fast_delta_gwei : ℤ
bsc_fast_delta_gwei = pos 5

abbrev bsc_standard_delta_gwei : ℤ
bsc_standard_delta_gwei = pos 2

abbrev bsc_slow_delta_gwei : ℤ
bsc_slow_delta_gwei = pos 0

unfoldable pub new_bsc_gas_oracle : Option NetworkState → BscGasOracle
unfolding gas_of
new_bsc_gas_oracle cfg = elim (gas_of cfg) [
  | none ↦ record {
    min_prio_gwei = default_min_priority_gwei_bsc;
    external_url = [];
    ttl = default_ttl_bsc;
  }
  | some c ↦ record {
    min_prio_gwei =
        if ltb_ℤ (pos 0) c.min_priority_gwei
        then c.min_priority_gwei
        else default_min_priority_gwei_bsc;
    external_url = if c.external_url == [] then [] else c.external_url;
    ttl =
        if ltb_ℤ (pos 0) c.ttl_seconds
        then wrap64 (c.ttl_seconds *ℤ pos 1_000_000_000)
        else default_ttl_bsc;
  }
]

unfoldable pub bsc_fetch_from_official : (Str → Option (ℕ × Str)) → BscGasOracle → Option (ℕ × Str)
bsc_fetch_from_official get o = if o.external_url == [] then none else get o.external_url

-- The oracle of Oracle with the same fields.
abbrev pub as_oracle : BscGasOracle → Oracle
as_oracle o = record {
  kind = bsc;
  min_prio_gwei = o.min_prio_gwei;
  external_url = o.external_url;
  ttl = o.ttl;
}

abbrev pub as_prices : BscGasV1 → GasPrices
as_prices g = record {
  fast = g.fast;
  standard = g.standard;
  slow = g.slow;
  estimated_base_fee = g.estimated_base_fee;
  block_number = g.block_number;
  hints = unhinted;
}

module _ (decode : Decoders) (post : RpcRequest → Option (ℕ × Str)) where
  unfoldable pub bsc_compute_from_rpc : BscGasOracle → NodeWithPing → Option BscGasV1
  unfolding bsc_fees at_least build_tier
  bsc_compute_from_rpc o node =
      let evm = bsc_fees decode post (as_oracle o) node in
      let prio = at_least o.min_prio_gwei evm.priority_fee_gwei in
      let build = build_tier o.min_prio_gwei evm.base_fee_gwei prio in
      some (record {
        fast = build bsc_fast_delta_gwei;
        standard = build bsc_standard_delta_gwei;
        slow = build bsc_slow_delta_gwei;
        estimated_base_fee = evm.base_fee_gwei;
        block_number = evm.block_number;
      })

pub new_bsc_gas_oracle_same :
    (cfg : Option NetworkState) → as_oracle (new_bsc_gas_oracle cfg) ≡ new_gas_oracle bsc cfg
unfolding new_bsc_gas_oracle new_gas_oracle default_min_priority_gwei default_ttl
new_bsc_gas_oracle_same cfg = elim (Option-cases (gas_of cfg)) [
  | inl e ↦ rw (e, new_bsc_gas_oracle, new_gas_oracle) refl
  | inr (c, e) ↦
      rw (e, new_bsc_gas_oracle, new_gas_oracle) (rw (copied_unless_empty c.external_url) refl)
]

pub bsc_fetch_from_official_same :
    (get : Str → Option (ℕ × Str)) (o : BscGasOracle)
    → bsc_fetch_from_official get o ≡ fetch_from_official get (as_oracle o)
unfolding bsc_fetch_from_official fetch_from_official
bsc_fetch_from_official_same get o = refl

pub bsc_compute_from_rpc_same :
    (decode : Decoders) (post : RpcRequest → Option (ℕ × Str)) (o : BscGasOracle)
    (node : NodeWithPing)
    → Option.map as_prices (bsc_compute_from_rpc decode post o node)
      ≡ compute_from_rpc decode post (as_oracle o) node
unfolding bsc_compute_from_rpc compute_from_rpc fees_of prices_of fast_delta_gwei
    standard_delta_gwei slow_delta_gwei hints_of
bsc_compute_from_rpc_same decode post o node = refl
