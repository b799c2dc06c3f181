-- ===== src/Health/Cycle.antt =====
-- The body of the health loop, cmd/app/health.go. The networks are checked in parallel; each check
-- writes the nodes of its own network alone, and `run_checks` takes them in the order of the list.
-- `net name i req` is what comes of a request of the i-th check of the network.
use mezzium.Base.{ℕ, ◌≡◌, refl, ◌∙◌, ◌⊎◌, inl, inr, some, List, [], ◌∷◌, In}
use mezzium.Text.{Str}
use mezzium.Dict.{lookup, keys}
use mezzium.Dict.Laws.{keys-update_all, keys-modify}
use mezzium.Registry.{
  Registry, NetworkState, set_best, prune_and_merge, prune_and_merge_state, remove_node_everywhere,
}
use mezzium.Registry.Removal.{
  Forgets, remove_node_everywhere-Forgets, remove_node_everywhere-Forgets_still,
  keys-remove_node_everywhere,
}
use mezzium.Health.Checks.{Request, Reply, Drops}
use mezzium.Health.{update_network, drain_drop_urls}

abbrev pub Net : Type 0
Net = Str → ℕ → Request → Reply

unfoldable pub run_checks : Net → List (Str × NetworkState) → Registry → Drops → Registry × Drops
unfolding update_network set_best
run_checks net [] r drops = (r, drops)
run_checks net ((name, st) ∷ rest) r drops =
    let (best, drops') = update_network r st.protocol (net name) st.all drops in
    run_checks net rest (set_best name best r) drops'

-- runInitialHealth, which leaves what the checks marked to the first tick.
unfoldable pub run_initial_health : Net → Registry → Drops → Registry × Drops
unfolding run_checks
run_initial_health net r drops = run_checks net r r drops

unfoldable pub remove_all : List Str → Registry → Registry
unfolding remove_node_everywhere
remove_all [] r = r
remove_all (url ∷ urls) r = remove_all urls (remove_node_everywhere url r)

-- One tick of startHealthLoop.
unfoldable pub health_tick : Net → ℕ → Registry → Drops → Registry × Drops
unfolding prune_and_merge run_checks drain_drop_urls remove_all
health_tick net now r drops =
    let merged = prune_and_merge now r in
    let (checked, marked) = run_checks net merged merged drops in
    let (urls, left) = drain_drop_urls marked in (remove_all urls checked, left)

remove_all-Forgets :
    (urls : List Str) (r : Registry) (u : Str) (name : Str) (st : NetworkState)
    → In u urls ⊎ ((st' : NetworkState) → lookup name r ≡ some st' → Forgets u st')
    → lookup name (remove_all urls r) ≡ some st
    → Forgets u st
unfolding remove_all
remove_all-Forgets [] r u name st (inl i) e = absurd i
remove_all-Forgets [] r u name st (inr h) e = h st e
remove_all-Forgets (url ∷ urls) r u name st (inl (inl same)) e =
    remove_all-Forgets urls (remove_node_everywhere url r) u name st
      (inr (λ st' k. rw same (remove_node_everywhere-Forgets url r name st' k))) e
remove_all-Forgets (url ∷ urls) r u name st (inl (inr i)) e =
    remove_all-Forgets urls (remove_node_everywhere url r) u name st (inl i) e
remove_all-Forgets (url ∷ urls) r u name st (inr h) e =
    remove_all-Forgets urls (remove_node_everywhere url r) u name st
      (inr (remove_node_everywhere-Forgets_still url r name u h)) e

pub keys-run_checks :
    (net : Net) (ns : List (Str × NetworkState)) (r : Registry) (drops : Drops)
    → keys (run_checks net ns r drops).0 ≡ keys r
unfolding run_checks set_best
keys-run_checks net [] r drops = refl
keys-run_checks net ((name, st) ∷ ns) r drops = keys-run_checks net ns _ _ ∙ keys-modify name _ r

pub keys-remove_all : (urls : List Str) (r : Registry) → keys (remove_all urls r) ≡ keys r
unfolding remove_all
keys-remove_all [] r = refl
keys-remove_all (url ∷ urls) r = keys-remove_all urls _ ∙ keys-remove_node_everywhere url r

module _ (net : Net) (now : ℕ) (r : Registry) (drops : Drops) where
  -- What the checks of the tick marked.
  abbrev pub marked : Drops
  marked = (run_checks net (prune_and_merge now r) (prune_and_merge now r) drops).1

  -- At the end of a tick no network holds a URL that was marked in it or before, in any of its
  -- lists, no mark is left over, and the networks are the same as before.
  pub health_tick-Forgets :
      ((u name : Str) (st : NetworkState)
        → In u marked
        → lookup name (health_tick net now r drops).0 ≡ some st
        → Forgets u st)
      × ((health_tick net now r drops).1 ≡ [])
      × (keys (health_tick net now r drops).0 ≡ keys r)
  unfolding health_tick drain_drop_urls prune_and_merge
  health_tick-Forgets = (
    λ u name st i e. remove_all-Forgets marked _ u name st (inl i) e,
    refl,
    keys-remove_all marked _
        ∙ keys-run_checks net (prune_and_merge now r) (prune_and_merge now r) drops
        ∙ keys-update_all (prune_and_merge_state now) r,
  )
