-- ===== src/Gas/Tests.antt =====
-- Runs of the gas endpoints, with an oracle that has the TTL of 15 seconds as its only part, gets no
-- answer from outside, and computes the price from any node.
use mezzium.Base.{◌≡◌, refl, sym, inl, inr, true, false, none, some, [], ◌∷◌, arith, In}
use mezzium.Base.Int.{ℤ, pos, ◌<ℤ◌, ◌+ℤ◌}
use mezzium.Text.{Str, str, ◌==◌, to_lower, trim_left, trim_right, trim}
use mezzium.Text.Laws.{ne_of_test}
use mezzium.Dict.{lookup}
use mezzium.Registry.{Registry, NetworkState, best_of}
use mezzium.Registry.Pick.{NodeWithPing}
use mezzium.Gas.{best_of, unexpired, polygon, OracleApi, json, Slot, GasState, serve_slot}
use mezzium.Gas.Slots.{Served, serve_slot-Served}
use mezzium.Gas.Routing.{IsGasRequest, dedicated}

abbrev api : OracleApi ℤ
api = record {
  new_oracle = λ kind st. pos 15_000_000_000;
  ttl_duration = λ o. o;
  fetch_from_official = λ o. none;
  compute_from_rpc_bytes = λ o n. some (str "{}");
}

abbrev node : NodeWithPing
node = record {
  node = record { url = str "a"; priority = pos 1; headers = []; tor = false };
  alive = true;
  ping = pos 3;
}

abbrev state : Str → NetworkState
state protocol = record {
  protocol = protocol;
  route = str "polygon";
  all = node.node ∷ [];
  best = node ∷ [];
  discovered = [];
  timeout_ms = pos 0;
  gas = none;
}

abbrev registry : Registry
registry = (str "polygon", state (str "evm")) ∷ (str "btc", state (str "btc")) ∷ []

abbrev empty_slot : Slot ℤ
empty_slot = record { oracle = none; cache = none }

serve_slot-Served_example :
    Served api registry
      (pos 5)
      (pos 6)
      polygon
      (str "polygon")
      empty_slot
      (serve_slot api registry (pos 5) (pos 6) polygon (str "polygon") empty_slot)
serve_slot-Served_example =
    serve_slot-Served api registry (pos 5) (pos 6) polygon (str "polygon") empty_slot

abbrev after : Slot ℤ
after = (serve_slot api registry (pos 5) (pos 6) polygon (str "polygon") empty_slot).1

sent :
    (serve_slot api registry (pos 5) (pos 6) polygon (str "polygon") empty_slot).0
    ≡ json 200 (str "{}")
unfolding serve_slot lookup ◌==◌ best_of
sent = refl

miss : unexpired (pos 5) empty_slot.cache ≡ none
unfolding unexpired
miss = refl

soon : pos 900 <ℤ pos 6 +ℤ pos 15_000_000_000
unfolding ◌+ℤ◌
soon = ground arith

abbrev start : GasState ℤ
start = record {
  polygon_slot = empty_slot;
  eth_slot = empty_slot;
  bsc_slot = empty_slot;
  arb_slot = empty_slot;
  op_slot = empty_slot;
  generic_gas_cache = [];
}

is_gas : IsGasRequest (str "GET") (str "/Gas/")
unfolding trim to_lower trim_left trim_right
is_gas = (refl, refl)

undedicated : In (to_lower (str "btc")) dedicated → ⊥
unfolding to_lower ◌==◌
undedicated (inl e) = ne_of_test (str "polygon") (str "btc") refl (sym e)
undedicated (inr (inl e)) = ne_of_test (str "ethereum") (str "btc") refl (sym e)
undedicated (inr (inr (inl e))) = ne_of_test (str "binance") (str "btc") refl (sym e)
undedicated (inr (inr (inr (inl e)))) = ne_of_test (str "arbitrum") (str "btc") refl (sym e)
undedicated (inr (inr (inr (inr (inl e))))) = ne_of_test (str "optimism") (str "btc") refl (sym e)
undedicated (inr (inr (inr (inr (inr e))))) = absurd e
