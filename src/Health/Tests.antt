-- ===== src/Health/Tests.antt =====
-- Runs of the health checks.
use mezzium.Base.{
  ℕ, ◌-◌, ◌*◌, ◌≤◌, ◌≡◌, refl, ◌⊎◌, inl, true, false, none, some, List, [], ◌∷◌, eqb, if◌then◌else◌,
  length, In,
}
use mezzium.Text.{Str, str, ◌==◌, contains}
use mezzium.Base.Int.{pos}
use mezzium.Dict.{lookup, keys}
use mezzium.Networks.{Node}
use mezzium.Registry.{Registry, NetworkState}
use mezzium.Registry.Removal.{Forgets}
use mezzium.Health.Checks.{Request, Reply, answered, check}
use mezzium.Health.{NodeWithPing, update_network, per_node_timeout}
use mezzium.Health.Outcomes.{Outcome, check-Outcome}
use mezzium.Health.Rounds.{WasFatal, update_network-drops}
use mezzium.Health.Freshness.{IsFresh, health_tick-AreFresh}
use mezzium.Health.Limits.{
  new_limiter, Limiters, Goroutine, Steps, here, next, starts, running, waiting, limits,
  set_limiter, goroutines, acquire, new_limiter,
}
use mezzium.Health.Fairness.{Steps-AreFinished, AreFinished, running_with}
use mezzium.Health.Cycle.{Net, health_tick, marked, health_tick-Forgets}

abbrev node_at : Str → Node
node_at url = record { url = url; priority = pos 1; headers = []; tor = false }

-- The first node answers, the second refuses the request.
abbrev replies : ℕ → Request → Reply
replies i req =
    if eqb i 0 then answered 200 (pos 12) (some (str "0x1")) else answered 403 (pos 3) none

abbrev nodes : List Node
nodes = node_at (str "a") ∷ node_at (str "b") ∷ []

abbrev state : NetworkState
state = record {
  protocol = str "evm";
  route = str "ethereum";
  all = nodes;
  best = [];
  discovered = [];
  timeout_ms = pos 700;
  gas = none;
}

abbrev registry : Registry
registry = (str "ethereum", state) ∷ []

check-Outcome_example :
    Outcome (replies 0) (str "a") [] (check (str "evm") (replies 0) (node_at (str "a")) (pos 9) [])
check-Outcome_example = check-Outcome (replies 0) (node_at (str "a")) (pos 9) [] (str "evm")

abbrev answered_a : NodeWithPing
answered_a = record { node = node_at (str "a"); alive = true; ping = pos 12 }

picked_a : In answered_a (update_network registry (str "evm") replies nodes []).0
unfolding update_network ◌==◌ mezzium.Registry.Pick.pick_fastest_per_priority
picked_a = inl refl

marked_b : In (str "b") (update_network registry (str "evm") replies nodes []).1
unfolding update_network check ◌==◌
marked_b = inl refl

update_network-drops_example :
    In (str "b") []
    ⊎ WasFatal (str "evm") replies (per_node_timeout registry (str "evm")) 0 nodes (str "b")
update_network-drops_example =
    update_network-drops registry (str "evm") replies nodes [] (str "b") marked_b

abbrev net : Net
net name = replies

health_tick-Forgets_example :
    ((u name : Str) (st : NetworkState)
      → In u (marked net 7 registry [])
      → lookup name (health_tick net 7 registry []).0 ≡ some st
      → Forgets u st)
    × ((health_tick net 7 registry []).1 ≡ [])
    × (keys (health_tick net 7 registry []).0 ≡ keys registry)
health_tick-Forgets_example = health_tick-Forgets net 7 registry []

abbrev domains : List Str
domains = str "tatum.io" ∷ []

-- The network that is checked stands at the domain's limiter, and gets it.
abbrev tatum : Registry
tatum =
    (str "btc", record state { all = node_at (str "https://x.tatum.io") ∷ [] })
    ∷ (str "doge", record state { all = node_at (str "https://y.tatum.io") ∷ [] })
    ∷ []

abbrev first_runs : Limiters
first_runs = set_limiter 1 (record { cap = 1; held = 1 }) limits

one_step : Steps limits (goroutines domains tatum) 1 first_runs (running 1 ∷ waiting 1 ∷ [])
unfolding goroutines contains limits acquire new_limiter
one_step = next here (starts 1 (record { cap = 1; held = 1 }) refl)

second_waits : acquire (first_runs 1) ≡ none
unfolding acquire limits set_limiter
second_waits = refl

Steps-AreFinished_example :
    ((i : ℕ) → running_with i (running 1 ∷ waiting 1 ∷ []) ≤ (if eqb i 0 then 5 else 1))
    × (1 ≤ 2 * length tatum)
    × ((ns : Limiters) × (is : List Goroutine) × Steps first_runs
          (running 1 ∷ waiting 1 ∷ [])
          (2 * length tatum - 1)
          ns
          is
        × AreFinished is)
Steps-AreFinished_example =
    Steps-AreFinished domains tatum 1 first_runs (running 1 ∷ waiting 1 ∷ []) one_step

abbrev after_tick : NetworkState
after_tick = record state { best = answered_a ∷ []; all = node_at (str "a") ∷ [] }

ticked : lookup (str "ethereum") (health_tick net 7 registry []).0 ≡ some after_tick
unfolding health_tick lookup mezzium.Dict.update_all ◌==◌ mezzium.Dict.modify
    mezzium.Registry.Pick.pick_fastest_per_priority
ticked = refl

health_tick-AreFresh_example : IsFresh net (str "ethereum") after_tick.all answered_a
health_tick-AreFresh_example =
    health_tick-AreFresh net 7 registry [] (tt, tt) (str "ethereum") after_tick answered_a ticked
      (inl refl)
