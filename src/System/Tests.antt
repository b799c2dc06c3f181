-- ===== src/System/Tests.antt =====
-- Runs of the parts of the gateway together, with one network in the directory.
use mezzium.Base.{
  ℕ, ◌+◌, ◌<◌, ◌≡◌, refl, ◌≢◌, inl, inr, true, false, Option, none, some, List, [], ◌∷◌, arith,
  if◌then◌else◌, length, In, All,
}
use mezzium.Base.Int.{pos}
use mezzium.Text.{Str, str, ◌==◌, has_prefix, trim_prefix, split}
use mezzium.Dict.{lookup, insert, modify}
use mezzium.Text.Laws.{ne_of_test}
use mezzium.Networks.{Node, NetworkConfig}
use mezzium.Networks.Loader.{Entry}
use mezzium.Registry.{Registry, NetworkState, prune_and_merge, has_url, set_best, best_of}
use mezzium.Registry.Pick.{NodeWithPing}
use mezzium.Registry.Ownership.{IsSound}
use mezzium.Health.Checks.{Request, Reply, failed, answered, check}
use mezzium.Health.{update_network, per_node_timeout}
use mezzium.Health.Cycle.{Net, health_tick}
use mezzium.Gossip.{NetworkAdvert, NodeAdvert, state_handler, max_discovered, discovered_ttl}
use mezzium.Proxy.{Headers, Incoming, Adapted, Messages, Outgoing, Answer, forward}
use mezzium.Admin.{admin_add_network, AdminState, network_of, admin_delete_node}
use mezzium.Ws.{joined, serve_ws}
use mezzium.System.{start, Reach, here, next, ticks, adds_network}
use mezzium.System.Locked.{settings, Reach-settings}
use mezzium.System.Soundness.{Reach-start-IsSound}
use mezzium.System.Upstreams.{IsOwn, Reach-forward-IsOwn}
use mezzium.System.Discovered.{state_handler-prune_and_merge}
use mezzium.System.Overtaken.{IsAliveAt, set_best-admin_delete_node}
use mezzium.System.Websockets.{RefusesWs, health_tick-serve_ws}

abbrev node_at : Str → Node
node_at url = record { url = url; priority = pos 1; headers = []; tor = false }

abbrev config : NetworkConfig
config = record {
  route = str "eth";
  protocol = str "evm";
  nodes = node_at (str "a") ∷ [];
  timeout_ms = pos 0;
  gas = none;
}

abbrev parse : Str → Option NetworkConfig
parse s = some config

abbrev getenv : Str → Str
getenv var = []

abbrev dir : Option (List Entry)
dir = some (record { name = str "eth.yaml"; is_dir = false; content = some (str "k: v") } ∷ [])

abbrev replies : ℕ → Request → Reply
replies i req = answered 200 (pos 12) (some (str "0x1"))

abbrev net : Net
net name = replies

abbrev state : NetworkState
state = record {
  protocol = str "evm";
  route = str "eth";
  all = node_at (str "a") ∷ [];
  best = record { node = node_at (str "a"); alive = true; ping = pos 12 } ∷ [];
  discovered = [];
  timeout_ms = pos 0;
  gas = none;
}

abbrev started : AdminState
started = record { reg = (str "eth", state) ∷ []; drops = [] }

starts : start parse getenv net dir ≡ inr started
unfolding start ◌==◌ insert modify mezzium.Registry.Pick.pick_fastest_per_priority
starts = refl

abbrev ticked : AdminState
ticked = record {
  reg = (health_tick net 7 started.reg started.drops).0;
  drops = (health_tick net 7 started.reg started.drops).1;
}

one_tick : Reach (str "k") started ticked
one_tick = next here (ticks net 7)

Reach-start-IsSound_example : IsSound ticked.reg
Reach-start-IsSound_example =
    Reach-start-IsSound parse getenv net dir (str "k") started ticked starts one_tick

abbrev adapt : Str → Str → Str → Str → Str → Headers → Str → Adapted
adapt network protocol base tail method headers body = record {
  method = method;
  tail = tail;
  body = body;
  headers = [];
  allowed_host_substr = [];
}

abbrev decode : Str → Option Messages
decode body = none

abbrev send : ℕ → Outgoing → Option Answer
send i out = some (record { status = 200; headers = []; body = []; room = 0 })

abbrev incoming : Incoming
incoming = record {
  method = str "POST";
  path = str "/eth";
  raw_query = [];
  room = 0;
  headers = [];
  body = [];
}

Reach-forward-IsOwn_example :
    All
      (IsOwn ticked.reg (str "eth"))
      (forward ticked.reg adapt decode send (str "eth") [] incoming).1
Reach-forward-IsOwn_example =
    Reach-forward-IsOwn parse getenv net dir (str "k") started ticked adapt decode send (str "eth")
      [] incoming starts one_tick

abbrev advertised : NodeAdvert
advertised = record {
  url = str "http://x";
  priority = pos 1;
  protocol = str "evm";
  alive = true;
  ping = pos 1;
}

abbrev advert : NetworkAdvert
advert = record { name = str "eth"; protocol = str "evm"; nodes = advertised ∷ []; ts = pos 0 }

lookup-eth : lookup (str "eth") started.reg ≡ some state
unfolding lookup ◌==◌
lookup-eth = refl

unknown : has_url advertised.url state.all ≡ false
unfolding has_url ◌==◌
unknown = refl

has_room : length state.discovered < max_discovered
has_room = ground arith

in_time : 60 < 10 + discovered_ttl
in_time = ground arith

state_handler-prune_and_merge_example :
    (st' : NetworkState) × (lookup (str "eth") (
        prune_and_merge 60
          (state_handler 10
            (str "POST")
            (some (record { from = str "p"; networks = advert ∷ [] }))
            started.reg).1)
      ≡ some st')
    × (has_url (str "http://x") st'.all ≡ true)
state_handler-prune_and_merge_example =
    state_handler-prune_and_merge 10 60 (str "p") advert advertised started.reg state refl
      lookup-eth unknown has_room in_time

eth_path : network_of (str "/admin/eth/nodes") ≡ some (str "eth")
unfolding network_of trim_prefix split
eth_path = refl

a_ne : str "a" ≢ []
unfolding ◌==◌
a_ne = ne_of_test (str "a") [] refl

a_alive :
    IsAliveAt (str "evm") replies (per_node_timeout started.reg (str "evm")) 0 (node_at (str "a"))
unfolding check ◌==◌
a_alive d = refl

a_alone :
    (m : Node) → In m state.all → m.priority ≡ (node_at (str "a")).priority → m ≡ node_at (str "a")
a_alone m (inl e) p = e
a_alone m (inr i) p = absurd i

set_best-admin_delete_node_example :
    (b : NodeWithPing) × In b (
      best_of
        (set_best
          (str "eth")
          (update_network started.reg (str "evm") replies state.all []).0
          (admin_delete_node
            (str "k")
            (str "k")
            (str "/admin/eth/nodes")
            (some (str "a"))
            started).1.reg)
        (str "eth"))
    × (b.url ≡ str "a")
    × ((st' : NetworkState) × (lookup (str "eth") (
            set_best
              (str "eth")
              (update_network started.reg (str "evm") replies state.all []).0
              (admin_delete_node
                (str "k")
                (str "k")
                (str "/admin/eth/nodes")
                (some (str "a"))
                started).1.reg)
          ≡ some st')
        × All (λ (m : Node). m.url ≢ str "a") st'.all)
set_best-admin_delete_node_example =
    set_best-admin_delete_node (str "k") (str "/admin/eth/nodes") (str "eth") (str "a") started
      state replies 0 (node_at (str "a")) eth_path a_ne lookup-eth refl refl a_alone a_alive

abbrev over_http : Net
over_http name i req =
    if has_prefix req.url (str "ws")
    then failed (record { dns = false; refused = false; text = str "unsupported protocol scheme" })
    else answered 200 (pos 12) (some (str "0x1"))

over_http-RefusesWs : RefusesWs over_http
over_http-RefusesWs name k req ping ws h = rw ws at h

abbrev websockets : Registry
websockets = (str "eth", record state { all = node_at (str "wss://a") ∷ [] }) ∷ []

health_tick-serve_ws_example :
    serve_ws true (λ url. true) (health_tick over_http 7 websockets []).0 (str "/ws/eth")
    ≢ joined (str "wss://a")
health_tick-serve_ws_example =
    health_tick-serve_ws over_http 7 websockets [] true (λ url. true) (str "/ws/eth")
      (str "wss://a") over_http-RefusesWs (tt, tt)

guest_ne : str "guest" ≢ str "k"
unfolding ◌==◌
guest_ne = ne_of_test (str "guest") (str "k") refl

-- A tick after a request with the wrong key, to add a network that answers.
abbrev asked_as_guest : AdminState
asked_as_guest = (admin_add_network (str "k") replies (str "guest") (some config) started).1

abbrev guest_tick : AdminState
guest_tick = record {
  reg = (health_tick net 7 asked_as_guest.reg asked_as_guest.drops).0;
  drops = (health_tick net 7 asked_as_guest.reg asked_as_guest.drops).1;
}

abbrev guest_steps : Reach (str "k") started guest_tick
guest_steps = next (next here (adds_network replies (str "guest") (some config))) (ticks net 7)

Reach-settings_example : settings guest_tick.reg ≡ settings started.reg
Reach-settings_example =
    Reach-settings (str "k") started guest_tick guest_steps ((tt, guest_ne), tt)
