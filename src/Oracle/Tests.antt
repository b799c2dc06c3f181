-- ===== src/Oracle/Tests.antt =====
-- Runs of the oracles against a node that asks 30 gwei for gas, of which 2 go to the producer.
use mezzium.Base.{ℕ, ◌≡◌, refl, ◌≢◌, true, false, Option, none, some, [], ◌∷◌, arith, if◌then◌else◌}
use mezzium.Base.Int.{pos, ◌+ℤ◌, ◌*ℤ◌, wrap64}
use mezzium.Text.{Str, str, ◌==◌, to_lower, contains, trim_prefix}
use mezzium.Dict.{lookup}
use mezzium.Hex.{set_string, div_euclid}
use mezzium.Registry.{Registry, NetworkState, best_of}
use mezzium.Registry.Pick.{NodeWithPing}
use mezzium.Gas.{
  Kind, polygon, eth, bsc, arbitrum, optimism, Slot, serve_slot, json, unexpired, init_once,
}
use mezzium.Oracle.{
  GasPrices, Oracle, new_gas_oracle, compute_from_rpc, gas_oracles, fees_of, gas_of,
}
use mezzium.Oracle.Requests.{bsc_eth_gas_price_gwei, bsc_priority_fee}
use mezzium.Oracle.Evm.{Eip1559, Decoders, RpcRequest, compute, or_zero}
use mezzium.Oracle.Eth
use mezzium.Oracle.Bsc
use mezzium.Oracle.Arbitrum
use mezzium.Oracle.Optimism
use mezzium.Oracle.Written.{Prices, written_oracles-Prices}
use mezzium.Networks.{GasConfig}
use mezzium.Oracle.Tiers.{IsFee, ArePrices, compute_from_rpc-ArePrices}
use mezzium.Oracle.Serving.{serve_slot-ArePrices}

abbrev node : NodeWithPing
node = record {
  node = record { url = str "a"; priority = pos 1; headers = []; tor = false };
  alive = true;
  ping = pos 3;
}

abbrev post : RpcRequest → Option (ℕ × Str)
post q =
    if contains q.body (str "maxPriority")
    then some (200, str "0x77359400")
    else some (200, str "0x6FC23AC00")

abbrev decode : Decoders
decode = record {
  result_text = some;
  base_fee_per_gas = λ b. some (b ∷ []);
  arb_gas_info = λ b. none;
  rollup_gas_prices = λ b. none;
}

-- Those of a node without eth_feeHistory.
abbrev decode_old : Decoders
decode_old = record decode { base_fee_per_gas = λ b. none }

abbrev config : NetworkState
config = record {
  protocol = str "evm";
  route = str "polygon";
  all = [];
  best = node ∷ [];
  discovered = [];
  timeout_ms = pos 0;
  gas = some (record { external_url = []; min_priority_gwei = pos 25; ttl_seconds = pos 60 });
}

abbrev oracle_of : Kind → Oracle
oracle_of k = record {
  kind = k;
  min_prio_gwei = pos 25;
  external_url = [];
  ttl = pos 60_000_000_000;
}

configured : new_gas_oracle polygon (some config) ≡ oracle_of polygon
unfolding new_gas_oracle gas_of wrap64 ◌*ℤ◌
configured = refl

abbrev fees : Eip1559
fees = record {
  base_fee_gwei = pos 30;
  priority_fee_gwei = pos 2;
  block_number = pos 30_000_000_000;
}

fees_asked : fees_of decode post (oracle_of polygon) node ≡ some fees
unfolding fees_of contains ◌==◌ wrap64 set_string div_euclid trim_prefix to_lower
fees_asked = refl

IsFee-30 : IsFee (pos 30)
IsFee-30 = omega arith

compute_from_rpc-ArePrices_example :
    (g : GasPrices) × (compute_from_rpc decode post (oracle_of polygon) node ≡ some g)
    × ArePrices (oracle_of polygon) fees g
compute_from_rpc-ArePrices_example =
    compute_from_rpc-ArePrices decode post (oracle_of polygon) node fees fees_asked (omega arith)
      (omega arith) (omega arith)

no_history : compute decode_old post node ≡ none
unfolding compute contains
no_history = refl

gas_price_asked : or_zero (bsc_eth_gas_price_gwei decode_old post node) ≡ pos 30
unfolding bsc_eth_gas_price_gwei or_zero contains ◌==◌ wrap64 div_euclid set_string trim_prefix
    to_lower
gas_price_asked = refl

prio_asked : or_zero (bsc_priority_fee decode_old post node) ≡ pos 2
unfolding bsc_priority_fee or_zero contains ◌==◌ wrap64 div_euclid set_string trim_prefix to_lower
prio_asked = refl

abbrev marshal : GasPrices → Str
marshal g = str "{}"

abbrev registry : Registry
registry = (str "polygon", config) ∷ []

abbrev empty_slot : Slot Oracle
empty_slot = record { oracle = none; cache = none }

abbrev get : Str → Option (ℕ × Str)
get url = some (200, str "free gas")

abbrev deaf : Str → Option (ℕ × Str)
deaf url = none

serving :
    init_once (gas_oracles decode post deaf marshal) polygon (str "polygon") registry none
    ≡ oracle_of polygon
unfolding init_once gas_oracles new_gas_oracle lookup ◌==◌ gas_of wrap64 ◌*ℤ◌
serving = refl

full : (g : GasPrices) → marshal g ≢ []
full g e = cc e

miss : unexpired (pos 5) empty_slot.cache ≡ none
unfolding unexpired
miss = refl

best : best_of registry (str "polygon") ≡ node ∷ []
unfolding best_of lookup ◌==◌
best = refl

serve_slot-ArePrices_example :
    (g : GasPrices) × ArePrices (oracle_of polygon) fees g
    × (serve_slot
          (gas_oracles decode post get marshal)
          registry
          (pos 5)
          (pos 6)
          polygon
          (str "polygon")
          empty_slot
        ≡ (
          json 200 (str "{}"),
          record {
            oracle = some (oracle_of polygon);
            cache = some (record { b = str "{}"; exp = pos 60_000_000_006 });
          },
        ))
unfolding ◌+ℤ◌ init_once gas_oracles new_gas_oracle lookup ◌==◌ gas_of wrap64 ◌*ℤ◌
serve_slot-ArePrices_example =
    serve_slot-ArePrices decode post marshal get registry (pos 5) (pos 6) polygon (str "polygon")
      empty_slot node [] fees full refl miss best fees_asked (omega arith) (omega arith)
      (omega arith)

node_asked : compute decode post node ≡ some fees
unfolding compute contains ◌==◌ wrap64 set_string div_euclid trim_prefix to_lower
node_asked = refl

abbrev minimum : GasConfig
minimum = record { external_url = []; min_priority_gwei = pos 25; ttl_seconds = pos 60 }

written_oracles-Prices_example :
    Prices Eth.as_prices eth
      (pos 25)
      fees
      (Eth.eth_compute_from_rpc decode post (Eth.new_eth_gas_oracle (some config)) node)
    × Prices Bsc.as_prices bsc
        (pos 25)
        fees
        (Bsc.bsc_compute_from_rpc decode post (Bsc.new_bsc_gas_oracle (some config)) node)
    × Prices Arbitrum.as_prices arbitrum (pos 25) fees (
        Arbitrum.arbitrum_compute_from_rpc decode post
          (Arbitrum.new_arbitrum_gas_oracle (some config))
          node)
    × Prices Optimism.as_prices optimism (pos 25) fees (
        Optimism.optimism_compute_from_rpc decode post
          (Optimism.new_optimism_gas_oracle (some config))
          node)
written_oracles-Prices_example =
    written_oracles-Prices decode post config minimum node fees refl (omega arith) (omega arith)
      node_asked (omega arith) (omega arith) (omega arith)
