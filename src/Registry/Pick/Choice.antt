-- ===== src/Registry/Pick/Choice.antt =====
-- What PickFastestPerPriority promises.
use mathlib.Core.List.{Permᴰ}
use mathlib.Core.Path.{ap}
use mezzium.Base.{◌≡◌, refl, sym, ◌∙◌, subst, inl, inr, true, List, [], ◌∷◌, All, In, All_of}
use mezzium.Base.Int.{ℤ, ◌≤ℤ◌}
use mezzium.Registry.Pick.{
  NodeWithPing, Group, group_alive, fastest, fastest_of_each, pick_from, pick_fastest_per_priority,
}
use mezzium.Registry.Pick.Groups.{
  Member, IsGroup, Lacks, DistinctGroups, Placed, group_alive-IsGroup, group_alive-DistinctGroups,
  group_alive-Placed, fastest_holds, fastest-le, fastest-le_of_In,
}
use mezzium.Registry.Pick.Sort.{
  Avoids, DistinctPriorities, IsSorted, sort_by_priority-All, sort_by_priority-IsSorted,
  In-sort_by_priority, sort_by_priority-Permᴰ,
}

-- A node that is listed and alive.
abbrev pub Eligible : List NodeWithPing → NodeWithPing → Type 0
Eligible nodes n = In n nodes × (n.alive ≡ true)

module _ (Q : NodeWithPing → Type 0) where
  fastest-Member : (g : Group) → IsGroup Q g → Member Q g.priority (fastest g.first g.others)
  fastest-Member g h = fastest_holds (Member Q g.priority) g.first g.others h.0 h.1

  fastest_of_each-All :
      (m : List Group) → All (IsGroup Q) m → All (λ n. (n.alive ≡ true) × Q n) (fastest_of_each m)
  unfolding fastest_of_each
  fastest_of_each-All [] h = tt
  fastest_of_each-All (g ∷ gs) h =
      let f = fastest-Member g h.0 in ((f.1, f.2), fastest_of_each-All gs h.1)

  fastest_of_each-Avoids :
      (p : ℤ) (m : List Group) → All (IsGroup Q) m → Lacks p m → Avoids p (fastest_of_each m)
  unfolding fastest_of_each
  fastest_of_each-Avoids p [] h k = tt
  fastest_of_each-Avoids p (g ∷ gs) h k =
      (λ e. k.0 (sym (fastest-Member g h.0).0 ∙ e), fastest_of_each-Avoids p gs h.1 k.1)

  fastest_of_each-DistinctPriorities :
      (m : List Group)
      → All (IsGroup Q) m
      → DistinctGroups m
      → DistinctPriorities (fastest_of_each m)
  unfolding fastest_of_each
  fastest_of_each-DistinctPriorities [] h d = tt
  fastest_of_each-DistinctPriorities (g ∷ gs) h d = (
    subst (λ p. Avoids p (fastest_of_each gs)) (sym (fastest-Member g h.0).0)
        (fastest_of_each-Avoids g.priority gs h.1 d.0),
    fastest_of_each-DistinctPriorities gs h.1 d.1,
  )

  fastest_of_each-beats :
      (k : NodeWithPing) (m : List Group)
      → All (IsGroup Q) m
      → Placed k m
      → (f : NodeWithPing) × In f (fastest_of_each m)
        × (f.priority ≡ k.priority)
        × (f.ping ≤ℤ k.ping)
  unfolding fastest_of_each
  fastest_of_each-beats k [] h p = absurd p
  fastest_of_each-beats k (g ∷ gs) h (inl (e, inl same)) = (
    fastest g.first g.others,
    inl refl,
    (fastest-Member g h.0).0 ∙ e,
    rw same (fastest-le g.first g.others),
  )
  fastest_of_each-beats k (g ∷ gs) h (inl (e, inr i)) = (
    fastest g.first g.others,
    inl refl,
    (fastest-Member g h.0).0 ∙ e,
    fastest-le_of_In k g.first g.others i,
  )
  fastest_of_each-beats k (g ∷ gs) h (inr p) =
      let (f, i, e, l) = fastest_of_each-beats k gs h.1 p in (f, inr i, e, l)

module _ (nodes : List NodeWithPing) where
  groups-IsGroup : All (IsGroup (λ n. In n nodes)) (group_alive [] nodes)
  groups-IsGroup =
      group_alive-IsGroup (λ n. In n nodes) [] nodes tt (All_of (λ n. In n nodes) nodes (λ a i. i))

  groups_DistinctPriorities : DistinctPriorities (fastest_of_each (group_alive [] nodes))
  groups_DistinctPriorities =
      fastest_of_each-DistinctPriorities (λ n. In n nodes) _ groups-IsGroup
        (group_alive-DistinctGroups [] nodes tt)

  -- Every node that is picked is one of the nodes given, and is alive.
  pub pick-Eligible : All (Eligible nodes) (pick_fastest_per_priority nodes)
  unfolding pick_fastest_per_priority
  pick-Eligible =
      sort_by_priority-All (Eligible nodes) (fastest_of_each (group_alive [] nodes))
        (swap_parts _ (fastest_of_each-All (λ n. In n nodes) _ groups-IsGroup))
    where
      swap_parts :
          (l : List NodeWithPing)
          → All (λ n. (n.alive ≡ true) × In n nodes) l
          → All (Eligible nodes) l
      swap_parts [] h = tt
      swap_parts (n ∷ l) h = ((h.0.1, h.0.0), swap_parts l h.1)

  -- The priorities of the picked nodes rise strictly: one node for each, in order.
  pub pick-IsSorted : IsSorted (pick_fastest_per_priority nodes)
  unfolding pick_fastest_per_priority
  pick-IsSorted = sort_by_priority-IsSorted _ groups_DistinctPriorities

  -- For each node that is alive, one of its priority is picked that is no slower.
  pub pick-beats :
      (k : NodeWithPing)
      → Eligible nodes k
      → (f : NodeWithPing) × In f (pick_fastest_per_priority nodes)
        × (f.priority ≡ k.priority)
        × (f.ping ≤ℤ k.ping)
  unfolding pick_fastest_per_priority
  pick-beats k (i, a) =
      let (f, j, e, l) =
        fastest_of_each-beats (λ n. In n nodes) k _ groups-IsGroup
          (group_alive-Placed k [] nodes i a) in
      (f, In-sort_by_priority f _ j, e, l)

  -- Go visits a map's entries in no fixed order: whatever order it takes, the result is the same.
  pub pick_from-Permᴰ :
      (visited : List Group)
      → Permᴰ (group_alive [] nodes) visited
      → pick_from visited ≡ pick_fastest_per_priority nodes
  unfolding pick_fastest_per_priority
  pick_from-Permᴰ visited p =
      sym (sort_by_priority-Permᴰ (fastest_of_each-Permᴰ p) groups_DistinctPriorities)
    where
      fastest_of_each-Permᴰ :
          {m m' : List Group} → Permᴰ m m' → Permᴰ (fastest_of_each m) (fastest_of_each m')
      fastest_of_each-Permᴰ Permᴰ.nil = Permᴰ.nil
      fastest_of_each-Permᴰ (Permᴰ.cons e q) =
          Permᴰ.cons (ap (λ (g : Group). fastest g.first g.others) e) (fastest_of_each-Permᴰ q)
      fastest_of_each-Permᴰ (Permᴰ.swap e e') =
          Permᴰ.swap (ap (λ (g : Group). fastest g.first g.others) e)
            (ap (λ (g : Group). fastest g.first g.others) e')
      fastest_of_each-Permᴰ (Permᴰ.trans q q') =
          Permᴰ.trans (fastest_of_each-Permᴰ q) (fastest_of_each-Permᴰ q')
