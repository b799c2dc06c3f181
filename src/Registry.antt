-- ===== src/Registry.antt =====
-- pkg/registry: what is known of each network, by its name. Times are nanoseconds since the epoch.
pub mod Pick
pub mod Removal
pub mod Prune
pub mod Ownership
mod Tests
use mezzium.Base.{
  ℕ, Bool, true, false, not, Option, none, some, List, [], ◌∷◌, ◌++◌, ltb, keep, length,
  if◌then◌else◌,
}
use mezzium.Base.Int.{ℤ, pos}
use mezzium.Text.{Str, ◌==◌, to_lower, trim, trim_prefix}
use mezzium.Dict.{Dict, lookup, insert, update_all, modify}
use mezzium.Networks.{Node, NetworkConfig, GasConfig}
use Pick.{NodeWithPing}

pub record DiscoveredNode : Type 0 where
  pub node : Node
  pub expires_at : ℕ

pub record NetworkState : Type 0 where
  pub protocol : Str
  pub route : Str
  pub all : List Node
  pub best : List NodeWithPing
  pub discovered : List DiscoveredNode
  pub timeout_ms : ℤ
  pub gas : Option GasConfig

abbrev pub Registry : Type 0
Registry = Dict NetworkState

unfoldable pub new : Registry
new = []

unfoldable pub state_of_config : NetworkConfig → NetworkState
state_of_config c = record {
  protocol = c.protocol;
  route = c.route;
  all = c.nodes;
  best = [];
  discovered = [];
  timeout_ms = c.timeout_ms;
  gas = c.gas;
}

unfoldable pub init_from_configs : Dict NetworkConfig → Registry → Registry
unfolding state_of_config
init_from_configs [] r = r
init_from_configs ((name, c) ∷ cfgs) r = init_from_configs cfgs (insert name (state_of_config c) r)

unfoldable pub set_best : Str → List NodeWithPing → Registry → Registry
set_best name best r = modify name (λ s. record s { best = best }) r

unfoldable pub best_of : Registry → Str → List NodeWithPing
best_of r name = elim (lookup name r) [
  | none ↦ []
  | some s ↦ if ltb 0 (length s.best) then s.best else []
]

unfoldable pub add_network : NetworkConfig → List NodeWithPing → Registry → Registry
add_network cfg best r =
    insert (trim_prefix cfg.route (b'/' ∷ []))
      (record {
        protocol = cfg.protocol;
        route = cfg.route;
        all = cfg.nodes;
        best = best;
        discovered = [];
        timeout_ms = cfg.timeout_ms;
        gas = none;
      })
      r

unfoldable pub protocol_of : Registry → Str → Str
protocol_of r name = elim (lookup name r) [ none ↦ [] | some s ↦ s.protocol ]

unfoldable pub add_node : Str → Node → Registry → Registry
add_node net n r = modify net (λ s. record s { all = s.all ++ n ∷ [] }) r

unfoldable pub append_best : Str → NodeWithPing → Registry → Registry
append_best net n r = modify net (λ s. record s { best = s.best ++ n ∷ [] }) r

-- The first loop of PruneAndMerge.
unfoldable pub fresh : ℕ → List DiscoveredNode → List DiscoveredNode
fresh now ds = keep (λ d. ltb now d.expires_at) ds

-- The search for a duplicate, up to its `break`.
unfoldable pub has_url : Str → List Node → Bool
has_url url [] = false
has_url url (n ∷ ns) = if n.url == url then true else has_url url ns

-- The second loop of PruneAndMerge.
unfoldable pub merge : List Node → List DiscoveredNode → List Node
unfolding has_url
merge all [] = all
merge all (d ∷ ds) = merge (if has_url d.node.url all then all else all ++ d.node ∷ []) ds

unfoldable pub prune_and_merge_state : ℕ → NetworkState → NetworkState
unfolding fresh merge
prune_and_merge_state now st =
    let ds = fresh now st.discovered in record st { discovered = ds; all = merge st.all ds }

unfoldable pub prune_and_merge : ℕ → Registry → Registry
unfolding prune_and_merge_state
prune_and_merge now r = update_all (prune_and_merge_state now) r

unfoldable pub exists : Registry → Str → Bool
exists r route = elim (lookup (to_lower (trim b'/' route)) r) [ none ↦ false | some s ↦ true ]

unfoldable pub timeout_ms_of : Registry → Str → ℤ
timeout_ms_of r network = elim (lookup network r) [ none ↦ pos 0 | some s ↦ s.timeout_ms ]

unfoldable pub remove_node_from : Str → NetworkState → NetworkState
remove_node_from url st = record st {
  all = keep (λ n. not (n.url == url)) st.all;
  best = keep (λ n. not (n.url == url)) st.best;
  discovered = keep (λ d. not (d.node.url == url)) st.discovered;
}

unfoldable pub remove_node_everywhere : Str → Registry → Registry
unfolding remove_node_from
remove_node_everywhere url r = update_all (remove_node_from url) r

unfoldable pub gas_config_of : Registry → Str → Option GasConfig
gas_config_of r name = elim (lookup name r) [ none ↦ none | some s ↦ s.gas ]

unfoldable pub all_best_or_empty : Registry → Dict (List NodeWithPing)
all_best_or_empty [] = []
all_best_or_empty ((name, st) ∷ r) = (name, st.best) ∷ all_best_or_empty r
