-- ===== src/Oracle/Arbitrum.antt =====
-- pkg/oracle/arbitrum_gas.go: the oracle of Arbitrum as it is written there.
use mezzium.Base.{ℕ, ◌≡◌, refl, inl, inr, Option, none, some, [], if◌then◌else◌, Option-cases}
use mezzium.Base.Int.{ℤ, pos, ltb_ℤ, ◌*ℤ◌, wrap64}
use mezzium.Text.{Str, ◌==◌}
use mezzium.Text.Laws.{copied_unless_empty}
use mathlib.Core.Option
use mezzium.Registry.{NetworkState}
use mezzium.Registry.Pick.{NodeWithPing}
use mezzium.Gas.{arbitrum}
use mezzium.Oracle.{
  Tier, arb_hints, GasPrices, Oracle, gas_of, new_gas_oracle, at_least, arbitrum_hints, hints_of,
  fees_of, build_tier, prices_of, compute_from_rpc, fetch_from_official, default_min_priority_gwei,
  default_ttl, fast_delta_gwei, standard_delta_gwei, slow_delta_gwei,
}
use mezzium.Oracle.Requests.{try_arb_gas_info}
use mezzium.Oracle.Evm.{RpcRequest, Decoders, compute}

pub record ArbitrumGasV1 : Type 0 where
  pub fast : Tier
  pub standard : Tier
  pub slow : Tier
  pub estimated_base_fee : ℤ
  pub block_number : ℤ
  pub l1_base_fee_wei : Str
  pub l1_pricing_inertia : Str
  pub l1_price_per_byte_wei : Str
  pub l1_price_for_calldata_wei : Str

-- The timeout of the EVMClient is that of its requests.
pub record ArbitrumGasOracle : Type 0 where
  pub min_prio_gwei : ℤ
  pub external_url : Str
  pub ttl : ℤ

abbrev default_min_priority_gwei_arb : ℤ
default_min_priority_gwei_arb = pos 1

abbrev default_ttl_arb : ℤ
default_ttl_arb = pos 10_000_000_000

abbrev arb_fast_delta_gwei : ℤ
arb_fast_delta_gwei = pos 5

abbrev arb_std_delta_gwei : ℤ
arb_std_delta_gwei = pos 2

abbrev arb_slow_delta_gwei : ℤ
arb_slow_delta_gwei = pos 0

unfoldable pub new_arbitrum_gas_oracle : Option NetworkState → ArbitrumGasOracle
unfolding gas_of
new_arbitrum_gas_oracle cfg = elim (gas_of cfg) [
  | none ↦ record {
    min_prio_gwei = default_min_priority_gwei_arb;
    external_url = [];
    ttl = default_ttl_arb;
  }
  | some c ↦ record {
    min_prio_gwei =
        if ltb_ℤ (pos 0) c.min_priority_gwei
        then c.min_priority_gwei
        else default_min_priority_gwei_arb;
    external_url = if c.external_url == [] then [] else c.external_url;
    ttl =
        if ltb_ℤ (pos 0) c.ttl_seconds
        then wrap64 (c.ttl_seconds *ℤ pos 1_000_000_000)
        else default_ttl_arb;
  }
]

unfoldable pub arbitrum_fetch_from_official :
    (Str → Option (ℕ × Str)) → ArbitrumGasOracle → Option (ℕ × Str)
arbitrum_fetch_from_official get o = if o.external_url == [] then none else get o.external_url

-- The oracle of Oracle with the same fields.
abbrev pub as_oracle : ArbitrumGasOracle → Oracle
as_oracle o = record {
  kind = arbitrum;
  min_prio_gwei = o.min_prio_gwei;
  external_url = o.external_url;
  ttl = o.ttl;
}

abbrev pub as_prices : ArbitrumGasV1 → GasPrices
as_prices g = record {
  fast = g.fast;
  standard = g.standard;
  slow = g.slow;
  estimated_base_fee = g.estimated_base_fee;
  block_number = g.block_number;
  hints = arb_hints (record {
    base_fee_wei = g.l1_base_fee_wei;
    pricing_inertia = g.l1_pricing_inertia;
    price_per_byte_wei = g.l1_price_per_byte_wei;
    price_for_calldata_wei = g.l1_price_for_calldata_wei;
  });
}

module _ (decode : Decoders) (post : RpcRequest → Option (ℕ × Str)) where
  unfoldable pub arbitrum_compute_from_rpc : ArbitrumGasOracle → NodeWithPing → Option ArbitrumGasV1
  unfolding compute try_arb_gas_info at_least build_tier
  arbitrum_compute_from_rpc o node = elim (compute decode post node) [
    | none ↦ none
    | some evm ↦
        let prio = at_least o.min_prio_gwei evm.priority_fee_gwei in
        let build = build_tier o.min_prio_gwei evm.base_fee_gwei prio in
        let out : ArbitrumGasV1 = record {
          fast = build arb_fast_delta_gwei;
          standard = build arb_std_delta_gwei;
          slow = build arb_slow_delta_gwei;
          estimated_base_fee = evm.base_fee_gwei;
          block_number = evm.block_number;
          l1_base_fee_wei = [];
          l1_pricing_inertia = [];
          l1_price_per_byte_wei = [];
          l1_price_for_calldata_wei = [];
        } in
        some (elim (try_arb_gas_info decode post node) [
          | none ↦ out
          | some l1 ↦ record out {
            l1_base_fee_wei = l1.base_fee_wei;
            l1_pricing_inertia = l1.pricing_inertia;
            l1_price_per_byte_wei = l1.price_per_byte_wei;
            l1_price_for_calldata_wei = l1.price_for_calldata_wei;
          }
        ])
  ]

pub new_arbitrum_gas_oracle_same :
    (cfg : Option NetworkState)
    → as_oracle (new_arbitrum_gas_oracle cfg) ≡ new_gas_oracle arbitrum cfg
unfolding new_arbitrum_gas_oracle new_gas_oracle default_min_priority_gwei default_ttl
new_arbitrum_gas_oracle_same cfg = elim (Option-cases (gas_of cfg)) [
  | inl e ↦ rw (e, new_arbitrum_gas_oracle, new_gas_oracle) refl
  | inr (c, e) ↦
      rw (e, new_arbitrum_gas_oracle, new_gas_oracle) (rw (copied_unless_empty c.external_url) refl)
]

pub arbitrum_fetch_from_official_same :
    (get : Str → Option (ℕ × Str)) (o : ArbitrumGasOracle)
    → arbitrum_fetch_from_official get o ≡ fetch_from_official get (as_oracle o)
unfolding arbitrum_fetch_from_official fetch_from_official
arbitrum_fetch_from_official_same get o = refl

pub arbitrum_compute_from_rpc_same :
    (decode : Decoders) (post : RpcRequest → Option (ℕ × Str)) (o : ArbitrumGasOracle)
    (node : NodeWithPing)
    → Option.map as_prices (arbitrum_compute_from_rpc decode post o node)
      ≡ compute_from_rpc decode post (as_oracle o) node
unfolding arbitrum_compute_from_rpc compute_from_rpc fees_of prices_of fast_delta_gwei
    standard_delta_gwei slow_delta_gwei hints_of arbitrum_hints
arbitrum_compute_from_rpc_same decode post o node = elim (Option-cases (compute decode post node)) [
  | inl e ↦ rw (e, arbitrum_compute_from_rpc, compute_from_rpc, fees_of) refl
  | inr (evm, e) ↦ elim (Option-cases (try_arb_gas_info decode post node)) [
    | inl f ↦ rw (e, f, arbitrum_compute_from_rpc, compute_from_rpc, fees_of, hints_of) refl
    | inr (l1, f) ↦ rw (e, f, arbitrum_compute_from_rpc, compute_from_rpc, fees_of, hints_of) refl
  ]
]
