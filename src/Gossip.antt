-- ===== src/Gossip.antt =====
-- pkg/gossip: nodes tell one another the peers and the upstreams that they know. What a request
-- holds is its method and its body as the JSON decoder reads it: `none` where that fails.
pub mod PeerExchange
pub mod Discovery
pub mod StateExchange
mod Tests
use Prim.Native.Nat.{◌%◌}
use mezzium.Base.{
  ℕ, ◌+◌, Bool, true, false, Option, none, some, List, [], ◌∷◌, ◌++◌, ltb, leb, length, get_elem?,
  if◌then◌else◌,
}
use mezzium.Base.Int.{ℤ}
use mezzium.Text.{Str, ◌==◌, str}
use mezzium.Dict.{modify}
use mezzium.Networks.{Node}
use mezzium.Peers.{Peer, Store, add, list, on_failure, on_success}
use mezzium.Registry.Pick.{NodeWithPing}
use mezzium.Registry.{Registry, NetworkState, DiscoveredNode, has_url}

pub record GossipMessage : Type 0 where
  pub from : Str
  pub peers : List Peer

pub record NodeAdvert : Type 0 where
  pub url : Str
  pub priority : ℤ
  pub protocol : Str
  pub alive : Bool
  pub ping : ℤ

pub record NetworkAdvert : Type 0 where
  pub name : Str
  pub protocol : Str
  pub nodes : List NodeAdvert
  pub ts : ℤ

pub record StateMessage : Type 0 where
  pub from : Str
  pub networks : List NetworkAdvert

-- One tick of Start: `i` is what rand.Intn returns, and `sent` says whether the post to a peer
-- succeeds.
unfoldable pub start_tick : Str → ℕ → (Peer → Bool) → Store → Store
start_tick self i sent store =
    if leb (length (list store)) 1 then store else elim (get_elem? (list store) i) [
      | none ↦ store
      | some target ↦
          if target.id == self
          then store
          else if sent target
          then on_success target.id store
          else on_failure target.id store
    ]

-- The loop of Handler.
unfoldable pub merge_peers : List Peer → Store → Store
merge_peers [] store = store
merge_peers (p ∷ ps) store = merge_peers ps (add p store)

-- Handler: the status of the response, and the store after it.
unfoldable pub handler : Str → Option GossipMessage → Store → ℕ × Store
unfolding merge_peers
handler method body store =
    if method == str "POST"
    then elim body [ none ↦ (400, store) | some msg ↦ (200, merge_peers msg.peers store) ]
    else (405, store)

unfoldable pub advert_of : Str → NodeWithPing → NodeAdvert
advert_of protocol n = record {
  url = n.url;
  priority = n.priority;
  protocol = protocol;
  alive = n.alive;
  ping = n.ping;
}

unfoldable pub adverts_of : Str → List NodeWithPing → List NodeAdvert
unfolding advert_of
adverts_of protocol [] = []
adverts_of protocol (n ∷ ns) = advert_of protocol n ∷ adverts_of protocol ns

unfoldable pub network_adverts : ℤ → Registry → List NetworkAdvert
unfolding adverts_of
network_adverts ts [] = []
network_adverts ts ((name, st) ∷ r) =
    record { name = name; protocol = st.protocol; nodes = adverts_of st.protocol st.best; ts = ts }
    ∷ network_adverts ts r

unfoldable pub build_advert : Str → ℤ → Registry → StateMessage
unfolding network_adverts
build_advert self ts r = record { from = self; networks = network_adverts ts r }

-- One tick of Publisher: the peer that is posted to, if any, and the message. `nanos` is the clock
-- in nanoseconds, which picks the peer, and `ts` the one in seconds.
unfoldable pub publisher_tick : Str → ℕ → ℤ → Store → Registry → Option (Peer × StateMessage)
unfolding build_advert
publisher_tick self nanos ts store r =
    let plist = list store in
    if leb (length plist) 1 then none else elim (get_elem? plist (nanos % length plist)) [
      | none ↦ none
      | some peer ↦ some (peer, build_advert self ts r)
    ]

-- 10 * time.Minute in nanoseconds, and maxDiscovered.
abbrev pub discovered_ttl : ℕ
discovered_ttl = 600_000_000_000

abbrev pub max_discovered : ℕ
max_discovered = 20

unfoldable pub discover : ℕ → NodeAdvert → DiscoveredNode
discover now n = record {
  node = record { url = n.url; priority = n.priority; headers = []; tor = false };
  expires_at = now + discovered_ttl;
}

-- The inner loop of StateHandler; `exists` is the set of the URLs of `all`.
unfoldable pub discover_all :
    ℕ → List Node → List NodeAdvert → List DiscoveredNode → List DiscoveredNode
unfolding discover
discover_all now all [] ds = ds
discover_all now all (n ∷ ns) ds = discover_all now all ns (
    if has_url n.url all
    then ds
    else if leb max_discovered (length ds)
    then ds
    else ds ++ discover now n ∷ [])

-- The outer loop, over the same adverts; the second list is what is left of them.
unfoldable pub scan_adverts :
    ℕ → List Node → List NodeAdvert → List NodeAdvert → List DiscoveredNode → List DiscoveredNode
unfolding discover_all
scan_adverts now all nodes [] ds = ds
scan_adverts now all nodes (n ∷ rest) ds =
    scan_adverts now all nodes rest
      (if has_url n.url all then ds else discover_all now all nodes ds)

unfoldable pub merge_advert : ℕ → NetworkAdvert → NetworkState → NetworkState
unfolding scan_adverts
merge_advert now adv st = record st {
  discovered = scan_adverts now st.all adv.nodes adv.nodes st.discovered;
}

-- The loop over msg.Networks: `all[adv.Name]` is a pointer into the registry.
unfoldable pub merge_adverts : ℕ → List NetworkAdvert → Registry → Registry
unfolding merge_advert
merge_adverts now [] r = r
merge_adverts now (adv ∷ advs) r = merge_adverts now advs (modify adv.name (merge_advert now adv) r)

-- StateHandler, where the clock reads `now` during the request.
unfoldable pub state_handler : ℕ → Str → Option StateMessage → Registry → ℕ × Registry
unfolding merge_adverts
state_handler now method body r =
    if method == str "POST"
    then elim body [ none ↦ (400, r) | some msg ↦ (200, merge_adverts now msg.networks r) ]
    else (405, r)
