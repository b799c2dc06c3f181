-- ===== src/Registry/Removal.antt =====
-- RemoveNodeEverywhere of pkg/registry/registry.go.
use mathlib.Core.Option
use mezzium.Base.{All-keep, ◌≡◌, ◌≢◌, refl, not, some, List, [], ◌∷◌, arith, In, All, keep, In-keep}
use mezzium.Text.{Str, ◌==◌}
use mezzium.Text.Laws.{eq_iff}
use mezzium.Dict.{lookup, keys}
use mezzium.Dict.Laws.{lookup-update_all, keys-update_all}
use mezzium.Networks.{Node}
use mezzium.Registry.Pick.{NodeWithPing}
use mezzium.Registry.{
  Registry, NetworkState, DiscoveredNode, remove_node_from, remove_node_everywhere,
}

-- No node that the network knows, serves or has discovered has the URL.
pub record Forgets (url : Str) (st : NetworkState) : Type 0 where
  pub in_all : All (λ (n : Node). n.url ≢ url) st.all
  pub in_best : All (λ (n : NodeWithPing). n.url ≢ url) st.best
  pub in_discovered : All (λ (d : DiscoveredNode). d.node.url ≢ url) st.discovered

module _ {A : Type 0} (url : Str) (f : A → Str) where
  pub keep-All_ne : (xs : List A) → All (λ x. f x ≢ url) (keep (λ x. not (f x == url)) xs)
  keep-All_ne [] = tt
  keep-All_ne (x ∷ xs) = ground (arith, keep-All_ne xs, eq_iff (f x) url)

  In-keep_ne : (x : A) (xs : List A) → In x xs → f x ≢ url → In x (keep (λ y. not (f y == url)) xs)
  In-keep_ne x xs i h = In-keep (λ y. not (f y == url)) x xs i (ground (arith, eq_iff (f x) url))

remove_node_from-Forgets : (url : Str) (st : NetworkState) → Forgets url (remove_node_from url st)
unfolding remove_node_from
remove_node_from-Forgets url st = record {
  in_all = keep-All_ne url (λ n. n.url) st.all;
  in_best = keep-All_ne url (λ n. n.url) st.best;
  in_discovered = keep-All_ne url (λ d. d.node.url) st.discovered;
}

remove_node_from-Forgets_still :
    (url u : Str) (st : NetworkState) → Forgets u st → Forgets u (remove_node_from url st)
unfolding remove_node_from
remove_node_from-Forgets_still url u st h = record {
  in_all = All-keep (λ (n : Node). n.url ≢ u) _ st.all h.in_all;
  in_best = All-keep (λ (n : NodeWithPing). n.url ≢ u) _ st.best h.in_best;
  in_discovered = All-keep (λ (d : DiscoveredNode). d.node.url ≢ u) _ st.discovered h.in_discovered;
}

module _ (url : Str) (r : Registry) where
  pub remove_node_everywhere-Forgets_still :
      (name u : Str)
      → ((st : NetworkState) → lookup name r ≡ some st → Forgets u st)
      → (st : NetworkState) → lookup name (remove_node_everywhere url r) ≡ some st
      → Forgets u st
  unfolding remove_node_everywhere
  remove_node_everywhere-Forgets_still name u hold st h =
      let (old, k, e) = (Option.map-eq-some_iff _ _).0 (rw lookup-update_all at h) in
      rw (← e) (remove_node_from-Forgets_still url u old (hold old k))

  -- After the call no network of the registry holds the URL in any of its three lists.
  pub remove_node_everywhere-Forgets :
      (name : Str) (st : NetworkState)
      → lookup name (remove_node_everywhere url r) ≡ some st
      → Forgets url st
  unfolding remove_node_everywhere
  remove_node_everywhere-Forgets name st h =
      let (old, _, e) = (Option.map-eq-some_iff _ _).0 (rw lookup-update_all at h) in
      rw (← e) (remove_node_from-Forgets url old)

  -- The call touches nothing else: the networks are the same, each with its protocol, route,
  -- timeout and gas settings, and every node with another URL stays where it is.
  pub remove_node_everywhere_keeps :
      (name : Str) (st : NetworkState)
      → lookup name r ≡ some st
      → (st' : NetworkState) × (lookup name (remove_node_everywhere url r) ≡ some st')
        × (record st' { all = st.all; best = st.best; discovered = st.discovered } ≡ st)
        × ((n : Node) → In n st.all → n.url ≢ url → In n st'.all)
        × ((n : NodeWithPing) → In n st.best → n.url ≢ url → In n st'.best)
        × ((d : DiscoveredNode) → In d st.discovered → d.node.url ≢ url → In d st'.discovered)
  unfolding remove_node_everywhere
  remove_node_everywhere_keeps name st h = (
    remove_node_from url st,
    rw (lookup-update_all, h) refl,
    refl,
    λ n i ne. In-keep_ne url (λ (m : Node). m.url) n st.all i ne,
    λ n i ne. In-keep_ne url (λ (m : NodeWithPing). m.url) n st.best i ne,
    λ d i ne. In-keep_ne url (λ (m : DiscoveredNode). m.node.url) d st.discovered i ne,
  )

  pub keys-remove_node_everywhere : keys (remove_node_everywhere url r) ≡ keys r
  unfolding remove_node_everywhere
  keys-remove_node_everywhere = keys-update_all (remove_node_from url) r
