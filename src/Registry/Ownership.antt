-- ===== src/Registry/Ownership.antt =====
-- What serves in a network of pkg/registry is one of the network's own nodes.
use mezzium.Base.{
  In-append_cases, ℕ, ◌≡◌, refl, sym, subst, inl, inr, true, not, some, List, [], ◌∷◌, ◌++◌, keep,
  In, In-append_left, In-append_right, In-keep, In-of_keep,
}
use mezzium.Text.{Str, ◌==◌}
use mezzium.Dict.{Dict, lookup, insert}
use mezzium.Dict.Laws.{lookup-modify_self}
use mathlib.Core.Option
use mezzium.Networks.{Node, NetworkConfig}
use mezzium.Dict.Distinct.{
  DistinctKeys, insert-DistinctKeys, Holds, insert-Holds, modify-Holds, update_all-Holds,
}
use mezzium.Registry.Prune.{prune_state-IsPruned}
use mezzium.Registry.Pick.{NodeWithPing}
use mezzium.Registry.{
  Registry, NetworkState, set_best, add_network, add_node, append_best, prune_and_merge,
  prune_and_merge_state, remove_node_from, remove_node_everywhere, init_from_configs,
  state_of_config,
}

-- Nodes that are alive and stand in a list.
abbrev pub AreOf : List Node → List NodeWithPing → Type 0
AreOf all best = (b : NodeWithPing) → In b best → (b.alive ≡ true) × In b.node all

abbrev pub ServesOwn : NetworkState → Type 0
ServesOwn st = AreOf st.all st.best

AreOf-map :
    (all all' : List Node) (best : List NodeWithPing)
    → ((b : NodeWithPing) → In b best → In b.node all → In b.node all')
    → AreOf all best
    → AreOf all' best
AreOf-map all all' best f h b i = ((h b i).0, f b i (h b i).1)

pub AreOf-keep :
    (url : Str) (all : List Node) (best : List NodeWithPing)
    → AreOf all best
    → AreOf
        (keep (λ (n : Node). not (n.url == url)) all)
        (keep (λ (n : NodeWithPing). not (n.url == url)) best)
AreOf-keep url all best h b i =
    let (j, ne) = In-of_keep (λ (n : NodeWithPing). not (n.url == url)) b best i in
    ((h b j).0, In-keep (λ (n : Node). not (n.url == url)) b.node all (h b j).1 ne)

module _ (r : Registry) (own : Holds (λ _. ServesOwn) r) where
  pub set_best-ServesOwn :
      (name : Str) (best : List NodeWithPing)
      → ((st : NetworkState) → lookup name r ≡ some st → AreOf st.all best)
      → Holds (λ _. ServesOwn) (set_best name best r)
  unfolding set_best
  set_best-ServesOwn name best h = modify-Holds (λ _. ServesOwn) name _ r (λ st e o. h st e) own

  pub add_network-ServesOwn :
      (cfg : NetworkConfig) (best : List NodeWithPing)
      → AreOf cfg.nodes best
      → Holds (λ _. ServesOwn) (add_network cfg best r)
  unfolding add_network
  add_network-ServesOwn cfg best h = insert-Holds (λ _. ServesOwn) _ _ r h own

  pub prune_and_merge-ServesOwn : (now : ℕ) → Holds (λ _. ServesOwn) (prune_and_merge now r)
  unfolding prune_and_merge prune_and_merge_state
  prune_and_merge-ServesOwn now =
      update_all-Holds (λ _. ServesOwn) (prune_and_merge_state now) r (λ _. pruned) own
    where
      pruned : (st : NetworkState) → ServesOwn st → ServesOwn (prune_and_merge_state now st)
      pruned st o b i =
          let p = prune_state-IsPruned now st in
          ((o b i).0, subst (In b.node) (sym p.all) (In-append_left b.node st.all p.more (o b i).1))

  pub remove_node_everywhere-ServesOwn :
      (url : Str) → Holds (λ _. ServesOwn) (remove_node_everywhere url r)
  unfolding remove_node_everywhere remove_node_from
  remove_node_everywhere-ServesOwn url =
      update_all-Holds (λ _. ServesOwn) (remove_node_from url) r
        (λ _ st o. AreOf-keep url st.all st.best o) own

  -- AddNode, and the append to the best nodes that follows it.
  pub add_node-ServesOwn :
      (name : Str) (n : Node) (b : NodeWithPing)
      → b.alive ≡ true
      → b.node ≡ n
      → Holds (λ _. ServesOwn) (append_best name b (add_node name n r))
  unfolding append_best add_node
  add_node-ServesOwn name n b alive same =
      modify-Holds (λ _. ServesOwn) name _ (add_node name n r) with_best
        (modify-Holds (λ _. ServesOwn) name _ r
          (λ st e o.
            AreOf-map st.all (st.all ++ n ∷ []) st.best
              (λ c i j. In-append_left c.node st.all (n ∷ []) j) o)
          own)
    where
      with_best :
          (st : NetworkState)
          → lookup name (add_node name n r) ≡ some st
          → ServesOwn st
          → AreOf st.all (st.best ++ b ∷ [])
      with_best st e o c i = elim (In-append_cases c st.best (b ∷ []) i) [
        | inl old ↦ o c old
        | inr (inl new) ↦
            let (was, found, is_new) =
              (Option.map-eq-some_iff _ _).0 (rw lookup-modify_self at e) in
            (
              rw new alive,
              rw (new, same) (rw (← is_new) (In-append_right n was.all (n ∷ []) (inl refl))),
            )
        | inr (inr nowhere) ↦ absurd nowhere
      ]

init_one :
    (name : Str) (c : NetworkConfig) (r : Registry)
    → Holds (λ _. ServesOwn) r
    → Holds (λ _. ServesOwn) (insert name (state_of_config c) r)
unfolding state_of_config
init_one name c r h = insert-Holds (λ _. ServesOwn) name (state_of_config c) r (λ b i. absurd i) h

-- Each network stands once in the registry, and what serves in it is alive and its own.
pub record IsSound (r : Registry) : Type 0 where
  pub distinct : DistinctKeys r
  pub own : Holds (λ _. ServesOwn) r

pub init_from_configs-IsSound :
    (cfgs : Dict NetworkConfig) (r : Registry) → IsSound r → IsSound (init_from_configs cfgs r)
unfolding init_from_configs
init_from_configs-IsSound [] r h = h
init_from_configs-IsSound ((name, c) ∷ cfgs) r h =
    init_from_configs-IsSound cfgs (insert name (state_of_config c) r) (record {
      distinct = insert-DistinctKeys name (state_of_config c) r h.distinct;
      own = init_one name c r h.own;
    })
