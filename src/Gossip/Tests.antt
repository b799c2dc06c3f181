-- ===== src/Gossip/Tests.antt =====
-- Runs of gossip.
use mezzium.Base.{
  ◌+◌, ◌*◌, ◌≤◌, min, ◌≡◌, inl, inr, true, false, none, some, [], ◌∷◌, arith, Bool-cases, length,
}
use mezzium.Base.Int.{pos}
use mezzium.Dict.{lookup}
use mezzium.Text.{Str, str, ◌==◌}
use mezzium.Peers.{Peer, Store}
use mezzium.Registry.{Registry, NetworkState}
use mezzium.Gossip.{
  GossipMessage, NodeAdvert, NetworkAdvert, StateMessage, merge_advert, state_handler,
  max_discovered,
}
use mezzium.Gossip.Discovery.{count_new}
use mezzium.Gossip.StateExchange.{IsBounded, length-merge_advert, state_handler-IsBounded}

abbrev ann : Peer
ann = record { id = str "ann"; addr = str "10.0.0.1"; failures = pos 0 }

abbrev bob : Peer
bob = record { id = str "bob"; addr = str "10.0.0.2"; failures = pos 1 }

abbrev store : Store
store = (str "ann", ann) ∷ (str "bob", bob) ∷ []

abbrev message : GossipMessage
message = record { from = str "bob"; peers = bob ∷ [] }

abbrev state : NetworkState
state = record {
  protocol = str "evm";
  route = str "ethereum";
  all = record { url = str "a"; priority = pos 1; headers = []; tor = false } ∷ [];
  best = [];
  discovered = [];
  timeout_ms = pos 0;
  gas = none;
}

abbrev registry : Registry
registry = (str "ethereum", state) ∷ []

abbrev node_advert : Str → NodeAdvert
node_advert url = record {
  url = url;
  priority = pos 2;
  protocol = str "evm";
  alive = true;
  ping = pos 30;
}

abbrev advert : NetworkAdvert
advert = record {
  name = str "ethereum";
  protocol = str "evm";
  nodes = node_advert (str "a") ∷ node_advert (str "b") ∷ node_advert (str "c") ∷ [];
  ts = pos 1;
}

abbrev news : StateMessage
news = record { from = str "bob"; networks = advert ∷ [] }

none_discovered : length state.discovered ≤ max_discovered
none_discovered = ground arith

length-merge_advert_example :
    length (merge_advert 5 advert state).discovered
    ≡ min max_discovered (0 + count_new state.all advert.nodes * count_new state.all advert.nodes)
length-merge_advert_example = length-merge_advert 5 advert state none_discovered

abbrev empty_registry : Registry
empty_registry = []

empty_registry-IsBounded : IsBounded empty_registry
unfolding lookup
empty_registry-IsBounded name st e = cc

registry-IsBounded : IsBounded registry
unfolding lookup
registry-IsBounded name st e = elim (Bool-cases (str "ethereum" == name)) [
  | inl t ↦ ground arith
  | inr f ↦ ground arith
]

state_handler-IsBounded_example : IsBounded (state_handler 5 (str "POST") (some news) registry).1
state_handler-IsBounded_example =
    state_handler-IsBounded 5 (str "POST") (some news) registry registry-IsBounded
