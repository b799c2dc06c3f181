-- ===== src/Registry/Prune.antt =====
-- PruneAndMerge of pkg/registry/registry.go.
use mathlib.Core.List.{append-nil, append_assoc}
use mezzium.Base.{
  In-keep, All_at, ℕ, ◌<◌, ◌≡◌, refl, sym, ◌∙◌, inl, inr, true, false, some, List, [], ◌∷◌, ◌++◌,
  arith, In, In-of_keep, All, keep, keep_idem, ltb, if◌then◌else◌, Bool-cases,
}
use mezzium.Text.{Str, ◌==◌}
use mezzium.Text.Laws.{eq_iff, eq_refl}
use mezzium.Dict.{lookup}
use mezzium.Dict.Laws.{lookup-update_all, update_all_idem}
use mezzium.Networks.{Node}
use mezzium.Registry.{
  Registry, NetworkState, DiscoveredNode, fresh, has_url, merge, prune_and_merge_state,
  prune_and_merge,
}

fresh-All : (now : ℕ) (ds : List DiscoveredNode) → All (λ d. now < d.expires_at) (fresh now ds)
unfolding fresh
fresh-All now [] = tt
fresh-All now (d ∷ ds) = ground (arith, fresh-All now ds)

has_url-append :
    (url : Str) (n : Node) (ns : List Node)
    → has_url url (ns ++ n ∷ []) ≡ (if has_url url ns then true else n.url == url)
unfolding has_url
has_url-append url n [] = ground arith
has_url-append url n (x ∷ ns) = ground (arith, has_url-append url n ns)

-- Known nodes stay known.
has_url-merge :
    (url : Str) (ns : List Node) (ds : List DiscoveredNode)
    → has_url url ns ≡ true
    → has_url url (merge ns ds) ≡ true
unfolding merge
has_url-merge url ns [] h = h
has_url-merge url ns (d ∷ ds) h =
    has_url-merge url (if has_url d.node.url ns then ns else ns ++ d.node ∷ []) ds
      (ground (arith, has_url-append url d.node ns))

-- What has been discovered becomes known.
merge-All :
    (ns : List Node) (ds : List DiscoveredNode)
    → All (λ d. has_url d.node.url (merge ns ds) ≡ true) ds
unfolding merge
merge-All ns [] = tt
merge-All ns (d ∷ ds) = (
  has_url-merge d.node.url (if has_url d.node.url ns then ns else ns ++ d.node ∷ []) ds
      (ground (arith, has_url-append d.node.url d.node ns, eq_refl d.node.url)),
  merge-All (if has_url d.node.url ns then ns else ns ++ d.node ∷ []) ds,
)

abbrev From : List DiscoveredNode → List Node → Type 0
From ds ns = (n : Node) → In n ns → (d : DiscoveredNode) × In d ds × (n ≡ d.node)

From-head :
    (d : DiscoveredNode) (ds : List DiscoveredNode) (more : List Node)
    → From ds more
    → From (d ∷ ds) (d.node ∷ more)
From-head d ds more h n (inl e) = (d, inl refl, e)
From-head d ds more h n (inr i) = let (x, j, q) = h n i in (x, inr j, q)

-- The known nodes come first, and what is behind them are discovered nodes.
merge_extends :
    (ns : List Node) (ds : List DiscoveredNode)
    → (more : List Node) × (merge ns ds ≡ ns ++ more) × From ds more
unfolding merge
merge_extends ns [] = ([], sym (append-nil ns), λ n i. absurd i)
merge_extends ns (d ∷ ds) = elim (Bool-cases (has_url d.node.url ns)) [
  | inl known ↦
      let (more, e, from) = merge_extends ns ds in
      (more, simp known e, λ n i. let (x, j, q) = from n i in (x, inr j, q))
  | inr unknown ↦
      let (more, e, from) = merge_extends (ns ++ d.node ∷ []) ds in
      (
        d.node ∷ more,
        simp unknown (e ∙ append_assoc ns (d.node ∷ []) more),
        From-head d ds more from,
      )
]

-- The URLs of the list are distinct.
abbrev pub DistinctUrls : List Node → Type 0
DistinctUrls [] = Unit
DistinctUrls (n ∷ ns) = (has_url n.url ns ≡ false) × DistinctUrls ns

append-DistinctUrls :
    (n : Node) (ns : List Node)
    → DistinctUrls ns
    → has_url n.url ns ≡ false
    → DistinctUrls (ns ++ n ∷ [])
unfolding has_url
append-DistinctUrls n [] h k = (refl, tt)
append-DistinctUrls n (x ∷ ns) h k = ground (
  arith,
  append-DistinctUrls n ns h.1,
  has_url-append x.url n ns,
  eq_iff x.url n.url,
  eq_iff n.url x.url,
)

merge-DistinctUrls :
    (ns : List Node) (ds : List DiscoveredNode) → DistinctUrls ns → DistinctUrls (merge ns ds)
unfolding merge
merge-DistinctUrls ns [] h = h
merge-DistinctUrls ns (d ∷ ds) h =
    merge-DistinctUrls (if has_url d.node.url ns then ns else ns ++ d.node ∷ []) ds
      (ground (arith, append-DistinctUrls d.node ns h))

-- Nothing is left to merge once all are known.
merge_known :
    (ns : List Node) (ds : List DiscoveredNode)
    → All (λ d. has_url d.node.url ns ≡ true) ds
    → merge ns ds ≡ ns
unfolding merge
merge_known ns [] h = refl
merge_known ns (d ∷ ds) h = ground (arith, merge_known ns ds h.1)

-- What one call does to a network.
pub record IsPruned (now : ℕ) (st st' : NetworkState) : Type 0 where
  pub more : List Node
  -- The known nodes keep their places, and only discovered nodes come behind them.
  pub all : st'.all ≡ st.all ++ more
  pub from : From st.discovered more
  pub best : st'.best ≡ st.best
  -- What is left of the discovered nodes was there before, is not expired, and is known by its URL.
  pub kept : (d : DiscoveredNode) → In d st'.discovered → In d st.discovered
  pub current : All (λ d. now < d.expires_at) st'.discovered
  pub known : All (λ d. has_url d.node.url st'.all ≡ true) st'.discovered

fresh_was :
    (now : ℕ) (ds : List DiscoveredNode) (d : DiscoveredNode) → In d (fresh now ds) → In d ds
unfolding fresh
fresh_was now ds d i = (In-of_keep (λ x. ltb now x.expires_at) d ds i).0

pub prune_state-IsPruned :
    (now : ℕ) (st : NetworkState) → IsPruned now st (prune_and_merge_state now st)
unfolding prune_and_merge_state
prune_state-IsPruned now st =
    let (more, e, from) = merge_extends st.all (fresh now st.discovered) in
    record {
      more = more;
      all = e;
      from = λ n i. let (d, j, q) = from n i in (d, fresh_was now st.discovered d j, q);
      best = refl;
      kept = fresh_was now st.discovered;
      current = fresh-All now st.discovered;
      known = merge-All st.all (fresh now st.discovered);
    }

prune_state_idem :
    (now : ℕ) (st : NetworkState)
    → prune_and_merge_state now (prune_and_merge_state now st) ≡ prune_and_merge_state now st
unfolding prune_and_merge_state fresh
prune_state_idem now st =
    let ds = keep (λ (d : DiscoveredNode). ltb now d.expires_at) st.discovered in
    rw keep_idem (rw (merge_known (merge st.all ds) ds (merge-All st.all ds)) refl)

module _ (now : ℕ) (r : Registry) where
  -- Every network of the registry is still there, with its best nodes and, in place, the nodes it
  -- knew; behind these stand only nodes that it had discovered; and what is left in its list of
  -- discovered nodes was there before, expires after `now`, and is among the known nodes by URL.
  pub prune_and_merge-IsPruned :
      (name : Str) (st : NetworkState)
      → lookup name r ≡ some st
      → (st' : NetworkState) × (lookup name (prune_and_merge now r) ≡ some st')
        × IsPruned now st st'
  unfolding prune_and_merge
  prune_and_merge-IsPruned name st h =
      (prune_and_merge_state now st, rw (lookup-update_all, h) refl, prune_state-IsPruned now st)

  pub prune_and_merge_known :
      (name : Str) (st : NetworkState) (d : DiscoveredNode)
      → lookup name r ≡ some st
      → In d st.discovered
      → now < d.expires_at
      → (st' : NetworkState) × (lookup name (prune_and_merge now r) ≡ some st')
        × (has_url d.node.url st'.all ≡ true)
  unfolding prune_and_merge prune_and_merge_state fresh
  prune_and_merge_known name st d h i soon = (
    prune_and_merge_state now st,
    rw (lookup-update_all, h) refl,
    All_at
        (λ (x : DiscoveredNode). has_url x.node.url (merge st.all (fresh now st.discovered)) ≡ true)
        d (fresh now st.discovered) (merge-All st.all (fresh now st.discovered))
        (In-keep (λ (x : DiscoveredNode). ltb now x.expires_at) d st.discovered i (ground arith)),
  )

  -- A second call at the same time changes nothing.
  pub prune_and_merge_idem : prune_and_merge now (prune_and_merge now r) ≡ prune_and_merge now r
  unfolding prune_and_merge
  prune_and_merge_idem = update_all_idem (prune_and_merge_state now) r (prune_state_idem now)

  -- No URL is added twice: if the known nodes of a network have distinct URLs, they still do.
  pub prune_and_merge-DistinctUrls :
      (name : Str) (st : NetworkState)
      → lookup name r ≡ some st
      → DistinctUrls st.all
      → (st' : NetworkState) × (lookup name (prune_and_merge now r) ≡ some st')
        × DistinctUrls st'.all
  unfolding prune_and_merge prune_and_merge_state
  prune_and_merge-DistinctUrls name st h d = (
    prune_and_merge_state now st,
    rw (lookup-update_all, h) refl,
    merge-DistinctUrls st.all (fresh now st.discovered) d,
  )
