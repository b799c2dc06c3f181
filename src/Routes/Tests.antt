-- ===== src/Routes/Tests.antt =====
-- Runs of the routes with one network, and of the headers for browsers.
use mezzium.Base.{ℕ, ◌≡◌, refl, ◌≢◌, true, Option, none, some, [], ◌∷◌, arith, All}
use mezzium.Base.Int.{ℤ, pos}
use mezzium.Text.{Str, str, ◌==◌, to_lower, has_prefix}
use mezzium.Dict.{Dict, lookup, insert, keys}
use mezzium.Registry.{Registry, NetworkState}
use mezzium.Gas.{OracleApi, Slot, GasState}
use mezzium.Gas.Routing.{IsGasRequest}
use mezzium.Proxy.{
  Headers, Incoming, Adapted, Outgoing, Answer, Messages, forward, serve, get_header,
}
use mezzium.Proxy.Paths.{Lacks}
use mezzium.Text.Laws.{ne_of_test}
use mezzium.Routes.{Endpoint, to_proxy, register_routes, routes, HandlerFunc, wrapped}
use mezzium.Routes.Patterns.{are_plain, are_distinct, none_matches}
use mezzium.Routes.Table.{table}
use mezzium.Routes.Dispatch.{OwnRoute, fixed, register_routes-serve, register_routes_unknown}
use mezzium.Routes.Table.{table-IsServeMux}

abbrev state : NetworkState
state = record {
  protocol = str "btc";
  route = str "/btc";
  all = [];
  best = [];
  discovered = [];
  timeout_ms = pos 0;
  gas = none;
}

abbrev registry : Registry
registry = (str "btc", state) ∷ []

abbrev adapt : Str → Str → Str → Str → Str → Headers → Str → Adapted
adapt network protocol base tail method headers body = record {
  method = method;
  tail = tail;
  body = body;
  headers = [];
  allowed_host_substr = [];
}

abbrev decode : Str → Option Messages
decode body = none

abbrev send : ℕ → Outgoing → Option Answer
send i out = none

abbrev incoming : Incoming
incoming = record {
  method = str "POST";
  path = str "/btc/rpc";
  raw_query = [];
  room = 0;
  headers = [];
  body = [];
}

abbrev api : OracleApi ℤ
api = record {
  new_oracle = λ kind st. pos 15_000_000_000;
  ttl_duration = λ o. o;
  fetch_from_official = λ o. none;
  compute_from_rpc_bytes = λ o n. none;
}

abbrev empty_slot : Slot ℤ
empty_slot = record { oracle = none; cache = none }

abbrev prices : GasState ℤ
prices = record {
  polygon_slot = empty_slot;
  eth_slot = empty_slot;
  bsc_slot = empty_slot;
  arb_slot = empty_slot;
  op_slot = empty_slot;
  generic_gas_cache = [];
}

btc_ne : str "btc" ≢ []
unfolding ◌==◌
btc_ne = ne_of_test (str "btc") [] refl

btc-Lacks : Lacks b'/' (str "btc")
btc-Lacks = ((λ h. ground (arith, h)), ((λ h. ground (arith, h)), ((λ h. ground (arith, h)), tt)))

own : All OwnRoute registry
own = ((refl, btc_ne, btc-Lacks), tt)

plain : are_plain (keys (routes registry)) ≡ true
unfolding are_plain routes has_prefix ◌==◌
plain = refl

distinct : are_distinct (keys (routes registry)) ≡ true
unfolding are_distinct routes ◌==◌
distinct = refl

found : lookup (str "btc") registry ≡ some state
unfolding lookup ◌==◌
found = refl

free : none_matches fixed incoming.path ≡ true
unfolding none_matches ◌==◌ has_prefix
free = refl

no_gas : ¬ IsGasRequest (str "POST") (str "rpc")
unfolding ◌==◌
no_gas h = ne_of_test (str "POST") (str "GET") refl h.0

register_routes-serve_example :
    (m : Dict Endpoint) × (register_routes table registry ≡ some m)
    × (table.handler m incoming.path ≡ some to_proxy)
    × (serve registry adapt decode send api (pos 0) (pos 1) incoming prices
        ≡ (forward registry adapt decode send (str "btc") (str "rpc") incoming, prices))
register_routes-serve_example =
    register_routes-serve table table-IsServeMux registry own plain adapt decode send api (pos 0)
      (pos 1) prices incoming (str "btc") (str "rpc") state distinct found refl refl free no_gas

abbrev registered : Dict Endpoint
registered = elim (register_routes table registry) [ none ↦ [] | some m ↦ m ]

done : register_routes table registry ≡ some registered
unfolding register_routes lookup ◌==◌
done = refl

eth-Lacks : Lacks b'/' (str "eth")
eth-Lacks = ((λ h. ground (arith, h)), ((λ h. ground (arith, h)), ((λ h. ground (arith, h)), tt)))

absent : lookup (str "eth") registry ≡ none
unfolding lookup ◌==◌
absent = refl

free_rpc : none_matches fixed (str "/eth/rpc") ≡ true
unfolding none_matches ◌==◌ has_prefix
free_rpc = refl

free_slash : none_matches fixed (str "/eth/rpc/") ≡ true
unfolding none_matches ◌==◌ has_prefix
free_slash = refl

register_routes_unknown_example : table.handler registered (str "/eth/rpc") ≡ none
register_routes_unknown_example =
    register_routes_unknown table table-IsServeMux registry own plain registered (str "eth")
      (str "rpc") done absent eth-Lacks refl free_rpc free_slash

abbrev handler : HandlerFunc ℕ
handler method hd = (hd, some 200)

-- A preflight is answered by withCORS, whose list of headers lacks x-api-key.
preflight :
    (get_header (str "access-control-allow-headers") (wrapped handler (str "OPTIONS") []).0
      ≡ str "Content-Type, Authorization, x-admin-key, x-rpc-switch")
    × ((wrapped handler (str "OPTIONS") []).1 ≡ none)
unfolding wrapped get_header lookup ◌==◌ insert to_lower
preflight = (refl, refl)

answered :
    get_header (str "access-control-allow-methods") (wrapped handler (str "GET") []).0
    ≡ str "GET,POST,OPTIONS"
unfolding wrapped get_header lookup ◌==◌ insert to_lower
answered = refl
