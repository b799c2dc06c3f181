-- ===== src/System/Soundness.antt =====
-- What holds of the registry in every state that the gateway reaches.
use mezzium.Base.{ℕ, ◌≡◌, subst, ◌⊎◌, inl, inr, Option, none, some, List, [], ◌∷◌, Bool-cases}
use mezzium.Text.{Str, str, ◌==◌}
use mezzium.Dict.{Dict, lookup, modify}
use mezzium.Networks.{NetworkConfig}
use mezzium.Networks.Loader.{Entry, LoadError, load_all}
use mezzium.Dict.Distinct.{DistinctKeys-of_keys, Holds, modify-Holds}
use mezzium.Registry.{Registry, new, init_from_configs}
use mezzium.Registry.Ownership.{ServesOwn, IsSound, init_from_configs-IsSound}
use mezzium.Health.Checks.{Drops}
use mezzium.Health.Cycle.{
  Net, health_tick, run_initial_health, health_tick-Forgets, keys-run_checks,
}
use mezzium.Health.Freshness.{health_tick-AreFresh, run_initial_health-AreFresh}
use mezzium.Gossip.{StateMessage, NetworkAdvert, state_handler, merge_adverts, merge_advert}
use mezzium.Gossip.StateExchange.{state_handler_frame}
use mezzium.Admin.{AdminState}
use mezzium.Admin.Soundness.{
  admin_add_network-IsSound, admin_add_node-IsSound, admin_delete_node-IsSound,
  admin_add_networks_bulk-IsSound,
}
use mezzium.System.{
  first_checks, Step, ticks, adds_network, adds_networks, adds_node, deletes_node, hears, Reach,
  here, next, start, init_registry,
}

merge_adverts-ServesOwn :
    (now : ℕ) (advs : List NetworkAdvert) (r : Registry)
    → Holds (λ _. ServesOwn) r
    → Holds (λ _. ServesOwn) (merge_adverts now advs r)
unfolding merge_adverts merge_advert
merge_adverts-ServesOwn now [] r h = h
merge_adverts-ServesOwn now (adv ∷ advs) r h =
    merge_adverts-ServesOwn now advs (modify adv.name (merge_advert now adv) r)
      (modify-Holds (λ _. ServesOwn) adv.name (merge_advert now adv) r (λ st e o. o) h)

state_handler-ServesOwn :
    (now : ℕ) (method : Str) (body : Option StateMessage) (r : Registry)
    → Holds (λ _. ServesOwn) r
    → Holds (λ _. ServesOwn) (state_handler now method body r).1
unfolding state_handler
state_handler-ServesOwn now method none r h = elim (Bool-cases (method == str "POST")) [
  | inl e ↦ rw (e, state_handler) h
  | inr e ↦ rw (e, state_handler) h
]
state_handler-ServesOwn now method (some msg) r h = elim (Bool-cases (method == str "POST")) [
  | inl e ↦ rw (e, state_handler) (merge_adverts-ServesOwn now msg.networks r h)
  | inr e ↦ rw (e, state_handler) h
]

state_handler-IsSound :
    (now : ℕ) (method : Str) (body : Option StateMessage) (r : Registry)
    → IsSound r
    → IsSound (state_handler now method body r).1
state_handler-IsSound now method body r k = record {
  distinct = DistinctKeys-of_keys _ r (state_handler_frame now method body r).0 k.distinct;
  own = state_handler-ServesOwn now method body r k.own;
}

health_tick-IsSound :
    (net : Net) (now : ℕ) (r : Registry) (drops : Drops)
    → IsSound r
    → IsSound (health_tick net now r drops).0
health_tick-IsSound net now r drops k = record {
  distinct = DistinctKeys-of_keys _ r (health_tick-Forgets net now r drops).2 k.distinct;
  own = λ name st e b i.
      let (alive, own, _) = health_tick-AreFresh net now r drops k.distinct name st b e i in
      (alive, own);
}

run_initial_health-IsSound :
    (net : Net) (r : Registry) (drops : Drops)
    → IsSound r
    → IsSound (run_initial_health net r drops).0
unfolding run_initial_health
run_initial_health-IsSound net r drops k = record {
  distinct = DistinctKeys-of_keys _ r (keys-run_checks net r r drops) k.distinct;
  own = λ name st e b i.
      let (alive, own, _) = run_initial_health-AreFresh net r drops k.distinct name st e b i in
      (alive, own);
}

Step-IsSound :
    (admin_key : Str) (s t : AdminState) → Step admin_key s t → IsSound s.reg → IsSound t.reg
Step-IsSound admin_key s t (ticks net now) k = health_tick-IsSound net now s.reg s.drops k
Step-IsSound admin_key s t (adds_network net key nc) k =
    admin_add_network-IsSound admin_key key net nc s k
Step-IsSound admin_key s t (adds_networks nets key ncs) k =
    admin_add_networks_bulk-IsSound admin_key key nets ncs s k
Step-IsSound admin_key s t (adds_node net key path n) k =
    admin_add_node-IsSound admin_key key net path n s k
Step-IsSound admin_key s t (deletes_node key path url) k =
    admin_delete_node-IsSound admin_key key path url s k
Step-IsSound admin_key s t (hears now method body) k = state_handler-IsSound now method body s.reg k

Reach-IsSound :
    (admin_key : Str) (s t : AdminState) → Reach admin_key s t → IsSound s.reg → IsSound t.reg
Reach-IsSound admin_key s t here k = k
Reach-IsSound admin_key s t (next {t = u} r st) k =
    Step-IsSound admin_key u t st (Reach-IsSound admin_key s u r k)

new-IsSound : IsSound new
unfolding new lookup
new-IsSound = record { distinct = tt; own = λ name st e. absurd (cc e) }

first_checks-IsSound :
    (net : Net) (l : LoadError ⊎ Dict NetworkConfig) (s : AdminState)
    → first_checks net (init_registry l) ≡ inr s
    → IsSound s.reg
unfolding first_checks init_registry
first_checks-IsSound net (inl err) s e = absurd (cc e)
first_checks-IsSound net (inr cfgs) s e =
    let same : (run_initial_health net (init_from_configs cfgs new) []).0 ≡ s.reg = cc e in
    subst IsSound same (
      run_initial_health-IsSound net (init_from_configs cfgs new) []
        (init_from_configs-IsSound cfgs new new-IsSound))

-- Once the program has started, whatever ticks of the health loop, requests of administrators and
-- messages of peers follow one another, each of which ends before the next begins, each network
-- stands once in the registry, and every node that serves in a network is alive by its last check
-- and is one of the nodes of that network.
pub Reach-start-IsSound :
    (parse : Str → Option NetworkConfig) (getenv : Str → Str) (net : Net)
    (dir : Option (List Entry)) (admin_key : Str) (s t : AdminState)
    → start parse getenv net dir ≡ inr s
    → Reach admin_key s t
    → IsSound t.reg
unfolding start
Reach-start-IsSound parse getenv net dir admin_key s t e r =
    Reach-IsSound admin_key s t r (first_checks-IsSound net (load_all parse getenv dir) s e)
