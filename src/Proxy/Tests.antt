-- ===== src/Proxy/Tests.antt =====
-- Runs of the proxy.
use mezzium.Base.{
  ℕ, ◌≡◌, refl, true, false, Option, none, some, List, [], ◌∷◌, arith, eqb, if◌then◌else◌,
}
use mezzium.Base.Int.{ℤ, pos}
use mezzium.Text.{Str, str, ◌==◌}
use mezzium.Dict.{lookup}
use mezzium.Registry.{Registry, NetworkState}
use mezzium.Registry.Pick.{NodeWithPing}
use mezzium.Proxy.{Headers, Incoming, Adapted, Outgoing, Answer, Messages, relayed, forward}
use mezzium.Proxy.Relay.{Forwarded, forward-Forwarded}
use mezzium.Proxy.Logging.{Passes, forward-Passes}
use mezzium.Gas.{OracleApi, Slot, GasState}
use mezzium.Gas.Routing.{IsGasRequest}
use mezzium.Text.Laws.{ne_of_test}
use mezzium.Proxy.Paths.{Lacks}

abbrev node_at : Str → NodeWithPing
node_at url = record {
  node = record { url = url; priority = pos 1; headers = []; tor = false };
  alive = true;
  ping = pos 3;
}

abbrev state : NetworkState
state = record {
  protocol = str "evm";
  route = str "ethereum";
  all = [];
  best = node_at (str "a") ∷ node_at (str "b") ∷ [];
  discovered = [];
  timeout_ms = pos 0;
  gas = none;
}

abbrev registry : Registry
registry = (str "ethereum", state) ∷ []

abbrev adapt : Str → Str → Str → Str → Str → Headers → Str → Adapted
adapt network protocol base tail method headers body = record {
  method = method;
  tail = tail;
  body = body;
  headers = [];
  allowed_host_substr = [];
}

abbrev decode : Str → Option Messages
decode body = none

-- The first upstream limits the rate, the second answers.
abbrev send : ℕ → Outgoing → Option Answer
send i out =
    some (record { status = if eqb i 0 then 429 else 200; headers = []; body = []; room = 0 })

abbrev incoming : Incoming
incoming = record {
  method = str "POST";
  path = str "/ethereum";
  raw_query = [];
  room = 0;
  headers = [];
  body = [];
}

second_answers :
    (forward registry adapt decode send (str "ethereum") [] incoming).0
    ≡ relayed (record { status = 200; headers = []; body = []; room = 0 })
unfolding forward lookup ◌==◌ mezzium.Registry.best_of
second_answers = refl

abbrev passed : Answer
passed = record { status = 200; headers = []; body = []; room = 0 }

abbrev asked : List Outgoing
asked = (forward registry adapt decode send (str "ethereum") [] incoming).1

both : forward registry adapt decode send (str "ethereum") [] incoming ≡ (relayed passed, asked)
unfolding forward lookup ◌==◌ mezzium.Registry.best_of
both = refl

forward-Passes_example : Passes send passed asked
forward-Passes_example =
    forward-Passes registry adapt decode send (str "ethereum") [] incoming passed asked both

forward-Forwarded_example :
    Forwarded registry adapt decode send
      (str "ethereum")
      []
      incoming
      (forward registry adapt decode send (str "ethereum") [] incoming)
forward-Forwarded_example =
    forward-Forwarded registry adapt decode send (str "ethereum") [] incoming

btc-Lacks : Lacks b'/' (str "btc")
btc-Lacks = ((λ h. ground (arith, h)), ((λ h. ground (arith, h)), ((λ h. ground (arith, h)), tt)))

abbrev api : OracleApi ℤ
api = record {
  new_oracle = λ kind st. pos 15_000_000_000;
  ttl_duration = λ o. o;
  fetch_from_official = λ o. none;
  compute_from_rpc_bytes = λ o n. none;
}

abbrev empty_slot : Slot ℤ
empty_slot = record { oracle = none; cache = none }

abbrev prices : GasState ℤ
prices = record {
  polygon_slot = empty_slot;
  eth_slot = empty_slot;
  bsc_slot = empty_slot;
  arb_slot = empty_slot;
  op_slot = empty_slot;
  generic_gas_cache = [];
}

abbrev call : Incoming
call = record incoming { path = str "/eth/rpc" }

eth-Lacks : Lacks b'/' (str "eth")
eth-Lacks = ((λ h. ground (arith, h)), ((λ h. ground (arith, h)), ((λ h. ground (arith, h)), tt)))

no_gas : ¬ IsGasRequest (str "POST") (str "rpc")
unfolding ◌==◌
no_gas h = ne_of_test (str "POST") (str "GET") refl h.0
