-- ===== src/Registry/Tests.antt =====
-- Runs of the registry.
use mezzium.Base.{ℕ, ◌≡◌, refl, inl, Bool, true, false, none, some, List, [], ◌∷◌, In}
use mezzium.Base.Int.{ℤ, pos, ◌≤ℤ◌}
use mezzium.Text.{Str, str, ◌==◌}
use mezzium.Dict.{lookup, update_all}
use mezzium.Networks.{Node}
use mezzium.Registry.{Registry, NetworkState, DiscoveredNode, remove_node_everywhere, has_url}
use mezzium.Registry.Pick.{NodeWithPing, Group, group_alive, pick_from, pick_fastest_per_priority}
use mezzium.Registry.Pick.Choice.{pick-beats, pick_from-Permᴰ}
use mezzium.Registry.Prune.{DistinctUrls}
use mathlib.Core.List.{Permᴰ}

abbrev node_at : Str → ℤ → Node
node_at url priority = record { url = url; priority = priority; headers = []; tor = false }

abbrev pinged : Str → ℤ → Bool → ℤ → NodeWithPing
pinged url priority alive ping = record { node = node_at url priority; alive = alive; ping = ping }

abbrev slow : NodeWithPing
slow = pinged (str "a") (pos 1) true (pos 90)

abbrev fast : NodeWithPing
fast = pinged (str "b") (pos 1) true (pos 20)

abbrev spare : NodeWithPing
spare = pinged (str "c") (pos 0) true (pos 50)

abbrev checked : List NodeWithPing
checked = slow ∷ pinged (str "d") (pos 1) false (pos 1) ∷ fast ∷ spare ∷ []

picked : pick_fastest_per_priority checked ≡ spare ∷ fast ∷ []
unfolding pick_fastest_per_priority
picked = refl

pick-beats_example :
    (f : NodeWithPing) × In f (pick_fastest_per_priority checked)
    × (f.priority ≡ pos 1)
    × (f.ping ≤ℤ pos 90)
pick-beats_example = pick-beats checked slow (inl refl, refl)

-- The groups of the priorities 1 and 0, in the other order.
abbrev visited : List Group
visited =
    record { priority = pos 0; first = spare; others = [] }
    ∷ record { priority = pos 1; first = slow; others = fast ∷ [] }
    ∷ []

visited-Permᴰ : Permᴰ (group_alive [] checked) visited
unfolding group_alive
visited-Permᴰ = Permᴰ.swap refl refl

pick_from-Permᴰ_example : pick_from visited ≡ pick_fastest_per_priority checked
pick_from-Permᴰ_example = pick_from-Permᴰ checked visited visited-Permᴰ

abbrev found : Str → ℕ → DiscoveredNode
found url expires_at = record { node = node_at url (pos 2); expires_at = expires_at }

abbrev state : NetworkState
state = record {
  protocol = str "evm";
  route = str "ethereum";
  all = node_at (str "a") (pos 1) ∷ node_at (str "b") (pos 1) ∷ [];
  best = slow ∷ [];
  discovered = found (str "c") 10 ∷ found (str "e") 90 ∷ [];
  timeout_ms = pos 0;
  gas = none;
}

abbrev registry : Registry
registry = (str "ethereum", state) ∷ []

abbrev removed : NetworkState
removed = record state { all = node_at (str "b") (pos 1) ∷ []; best = [] }

lookup-removed : lookup (str "ethereum") (remove_node_everywhere (str "a") registry) ≡ some removed
unfolding lookup remove_node_everywhere update_all ◌==◌
lookup-removed = refl

lookup-registry : lookup (str "ethereum") registry ≡ some state
unfolding lookup ◌==◌
lookup-registry = refl

state-DistinctUrls : DistinctUrls state.all
unfolding has_url ◌==◌
state-DistinctUrls = (refl, (refl, tt))
