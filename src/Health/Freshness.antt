-- ===== src/Health/Freshness.antt =====
-- After a tick of the health loop, cmd/app/health.go, the best nodes are those of this tick's checks.
use mezzium.Base.{
  ℕ, zero, suc, ◌≡◌, refl, sym, ap, ◌∙◌, subst, ◌≢◌, ◌⊎◌, inl, inr, true, not, some, List, [], ◌∷◌,
  Bool-cases, get_elem?, In, In-keep, In-of_keep, All,
}
use mezzium.Text.{Str, ◌==◌}
use mezzium.Text.Laws.{eq_iff, eq_of_test}
use mezzium.Dict.{lookup, keys}
use mezzium.Dict.Laws.{lookup-modify, keys-update_all}
use mathlib.Core.Option
use mezzium.Networks.{Node}
use mezzium.Registry.{
  Registry, NetworkState, set_best, prune_and_merge, prune_and_merge_state, remove_node_from,
  remove_node_everywhere,
}
use mezzium.Registry.Pick.{NodeWithPing}
use mezzium.Dict.Distinct.{
  DistinctKeys, DistinctKeys-of_keys, lookup-entries, Holds, update_all-Holds,
}
use mezzium.Health.Checks.{Request, Drops}
use mezzium.Health.{update_network, drain_drop_urls}
use mezzium.Health.Outcomes.{IsTo, IsServed}
use mezzium.Health.Rounds.{update_network-IsServed}
use mezzium.Health.Cycle.{
  keys-run_checks, Net, run_checks, remove_all, health_tick, run_initial_health, marked,
}

get_elem?-In : {A : Type 0} (xs : List A) (k : ℕ) (a : A) → get_elem? xs k ≡ some a → In a xs
get_elem?-In [] k a e = cc e
get_elem?-In (x ∷ xs) zero a e = inl (cc e)
get_elem?-In (x ∷ xs) (suc k) a e = inr (get_elem?-In xs k a e)

module _ (net : Net) where
  -- The node is alive, is one of the network's nodes, and answered a request of its check, to its
  -- URL or below it, with success, in the time that is noted.
  abbrev pub IsFresh : Str → List Node → NodeWithPing → Type 0
  IsFresh name all b =
      (b.alive ≡ true)
      × In b.node all
      × ((k : ℕ) × (req : Request) × IsTo b.url req × IsServed b.ping (net name k req))

  abbrev pub AreFresh : Str → NetworkState → Type 0
  AreFresh name st = (b : NodeWithPing) → In b st.best → IsFresh name st.all b

  pub update_network-IsFresh :
      (r : Registry) (protocol name : Str) (all : List Node) (drops : Drops) (b : NodeWithPing)
      → In b (update_network r protocol (net name) all drops).0
      → IsFresh name all b
  update_network-IsFresh r protocol name all drops b i =
      let (alive, (k, at, req, to, ok)) =
        update_network-IsServed r protocol (net name) all drops b i in
      (alive, get_elem?-In all k b.node at, (k, req, to, ok))

  set_best_at :
      (name : Str) (best : List NodeWithPing) (r : Registry) (j : Str) (st : NetworkState)
      → lookup j (set_best name best r) ≡ some st
      → ((old : NetworkState) × (lookup j r ≡ some old)
          × (old.all ≡ st.all)
          × (((name ≡ j) × (st.best ≡ best)) ⊎ ((name ≢ j) × (st ≡ old))))
  unfolding set_best
  set_best_at name best r j st e = elim (Bool-cases (name == j)) [
    | inl same ↦
        let (old, found, new) = (Option.map-eq-some_iff _ _).0 (rw (lookup-modify, same) at e) in
        (
          old,
          found,
          ap (λ (s : NetworkState). s.all) new,
          inl (eq_of_test name j same, sym (ap (λ (s : NetworkState). s.best) new)),
        )
    | inr other ↦ (
      st,
      cc (lookup-modify name j (λ (s : NetworkState). record s { best = best }) r, other, e),
      refl,
      inr ((λ q. cc (other, (eq_iff name j).1 q)), refl),
    )
  ]

  -- The entries that are still to be checked have the registry's nodes.
  abbrev Agree : List (Str × NetworkState) → Registry → Type 0
  Agree ns r =
      All
        (λ (e : Str × NetworkState).
          (st : NetworkState) → lookup e.0 r ≡ some st → st.all ≡ e.1.all)
        ns

  Agree-set_best :
      (ns : List (Str × NetworkState)) (r : Registry) (name : Str) (best : List NodeWithPing)
      → Agree ns r
      → Agree ns (set_best name best r)
  Agree-set_best [] r name best h = tt
  Agree-set_best (e ∷ ns) r name best h = (
    (λ st found.
        let (old, was, same, _) = set_best_at name best r e.0 st found in sym same ∙ h.0 old was),
    Agree-set_best ns r name best h.1,
  )

  module _ (r : Registry) (n : Str) (s : NetworkState) (drops : Drops) where
    abbrev served : List NodeWithPing
    served = (update_network r s.protocol (net n) s.all drops).0

    checked_now :
        (name : Str) (old st : NetworkState)
        → ((st' : NetworkState) → lookup n r ≡ some st' → st'.all ≡ s.all)
        → n ≡ name
        → lookup name r ≡ some old
        → old.all ≡ st.all
        → st.best ≡ served
        → AreFresh name st
    checked_now name old st agree here was alls bests b i =
        subst (λ k. IsFresh k st.all b) here
          (subst (λ all. IsFresh n all b) (sym (agree old (rw here was)) ∙ alls)
            (update_network-IsFresh r s.protocol n s.all drops b (subst (In b) bests i)))

    after_check :
        (name : Str) (names : List Str)
        → ((st : NetworkState) → lookup n r ≡ some st → st.all ≡ s.all)
        → In name (n ∷ names) ⊎ ((st : NetworkState) → lookup name r ≡ some st → AreFresh name st)
        → In name names
          ⊎ ((st : NetworkState) → lookup name (set_best n served r) ≡ some st → AreFresh name st)
    after_check name names agree (inl (inr i)) = inl i
    after_check name names agree (inl (inl same)) = inr (λ st e.
        let (old, was, alls, how) = set_best_at n served r name st e in
        elim how [
          | inl (here, bests) ↦ checked_now name old st agree here was alls bests
          | inr (ne, _) ↦ absurd (ne (sym same))
        ])
    after_check name names agree (inr h) = inr (λ st e.
        let (old, was, alls, how) = set_best_at n served r name st e in
        elim how [
          | inl (here, bests) ↦ checked_now name old st agree here was alls bests
          | inr (_, same) ↦ subst (AreFresh name) (sym same) (h old was)
        ])

  run_checks-AreFresh :
      (ns : List (Str × NetworkState)) (r : Registry) (drops : Drops) (name : Str)
      → Agree ns r
      → In name (keys ns) ⊎ ((st : NetworkState) → lookup name r ≡ some st → AreFresh name st)
      → (st : NetworkState) → lookup name (run_checks net ns r drops).0 ≡ some st
      → AreFresh name st
  unfolding run_checks
  run_checks-AreFresh [] r drops name agree (inl i) st e = absurd i
  run_checks-AreFresh [] r drops name agree (inr h) st e = h st e
  run_checks-AreFresh ((n, s) ∷ ns) r drops name agree h st e =
      let (best, drops') = update_network r s.protocol (net n) s.all drops in
      run_checks-AreFresh ns (set_best n best r) drops' name (Agree-set_best ns r n best agree.1)
        (after_check r n s drops name (keys ns) agree.0 h) st e

  remove_node_everywhere-AreFresh :
      (url : Str) (r : Registry) → Holds AreFresh r → Holds AreFresh (remove_node_everywhere url r)
  unfolding remove_node_everywhere remove_node_from
  remove_node_everywhere-AreFresh url r =
      update_all-Holds AreFresh (remove_node_from url) r (λ name st h b i.
        let (j, ne) = In-of_keep (λ (n : NodeWithPing). not (n.url == url)) b st.best i in
        let (alive, own, ok) = h b j in
        (alive, In-keep (λ (n : Node). not (n.url == url)) b.node st.all own ne, ok))

  remove_all-AreFresh :
      (urls : List Str) (r : Registry) → Holds AreFresh r → Holds AreFresh (remove_all urls r)
  unfolding remove_all
  remove_all-AreFresh [] r h = h
  remove_all-AreFresh (url ∷ urls) r h =
      remove_all-AreFresh urls (remove_node_everywhere url r)
        (remove_node_everywhere-AreFresh url r h)

  entries-Agree :
      (ns : List (Str × NetworkState)) (r : Registry)
      → All (λ (e : Str × NetworkState). lookup e.0 r ≡ some e.1) ns
      → Agree ns r
  entries-Agree [] r h = tt
  entries-Agree (e ∷ ns) r h = (
    (λ st found. let same : st ≡ e.1 = cc (h.0, found) in ap (λ (s : NetworkState). s.all) same),
    entries-Agree ns r h.1,
  )

  lookup-In_keys :
      (r : Registry) (name : Str) (st : NetworkState) → lookup name r ≡ some st → In name (keys r)
  unfolding lookup
  lookup-In_keys [] name st e = absurd (cc e)
  lookup-In_keys ((k, v) ∷ r) name st e = elim (Bool-cases (k == name)) [
    | inl same ↦ inl (sym (eq_of_test k name same))
    | inr other ↦ inr (lookup-In_keys r name st (cc (other, e)))
  ]

  -- All networks are checked.
  run_checks_all :
      (r : Registry) (drops : Drops) → DistinctKeys r → Holds AreFresh (run_checks net r r drops).0
  run_checks_all r drops d name st e =
      run_checks-AreFresh r r drops name (entries-Agree r r (lookup-entries r d))
        (inl (subst (In name) (keys-run_checks net r r drops) (lookup-In_keys _ name st e))) st e

  pub run_initial_health-AreFresh :
      (r : Registry) (drops : Drops)
      → DistinctKeys r
      → Holds AreFresh (run_initial_health net r drops).0
  unfolding run_initial_health
  run_initial_health-AreFresh = run_checks_all

  -- After a tick, whatever the registry held before it, as long as each network stood in it once,
  -- each node that serves in a network is alive, is one of the network's nodes, and answered a
  -- request of its check in this tick, to its URL or below it, with success, in the time that is
  -- noted.
  pub health_tick-AreFresh :
      (now : ℕ) (r : Registry) (drops : Drops)
      → DistinctKeys r
      → (name : Str) (st : NetworkState) (b : NodeWithPing)
      → lookup name (health_tick net now r drops).0 ≡ some st
      → In b st.best
      → IsFresh name st.all b
  unfolding health_tick drain_drop_urls prune_and_merge
  health_tick-AreFresh now r drops d name st b e i =
      let merged = prune_and_merge now r in
      remove_all-AreFresh (marked net now r drops) (run_checks net merged merged drops).0
        (run_checks_all merged drops
          (DistinctKeys-of_keys merged r (keys-update_all (prune_and_merge_state now) r) d))
        name st e b i
