-- ===== src/Registry/Pick/Groups.antt =====
-- The grouping loop and the fastest of a group, of PickFastestPerPriority.
use mezzium.Base.{
  ◌≡◌, ◌≢◌, refl, ◌⊎◌, inl, inr, true, List, [], ◌∷◌, arith, All, In, All-append, In-append_left,
  In-append_right, if◌then◌else◌, Bool-cases,
}
use mezzium.Base.Int.{ℤ, ◌≤ℤ◌, eqb_ℤ, ltb_ℤ, eqb_ℤ_iff}
use mezzium.Registry.Pick.{NodeWithPing, Group, add_to_group, group_alive, fastest}

-- Every node of a group is alive, has the group's priority, and satisfies `Q`.
abbrev pub Member : (NodeWithPing → Type 0) → ℤ → NodeWithPing → Type 0
Member Q p n = (n.priority ≡ p) × (n.alive ≡ true) × Q n

abbrev pub IsGroup : (NodeWithPing → Type 0) → Group → Type 0
IsGroup Q g = Member Q g.priority g.first × All (Member Q g.priority) g.others

abbrev pub Lacks : ℤ → List Group → Type 0
Lacks p = All (λ g. g.priority ≢ p)

abbrev pub DistinctGroups : List Group → Type 0
DistinctGroups [] = Unit
DistinctGroups (g ∷ gs) = Lacks g.priority gs × DistinctGroups gs

-- `n` stands in the group of its priority.
abbrev pub Placed : NodeWithPing → List Group → Type 0
Placed n [] = ⊥
Placed n (g ∷ gs) = ((g.priority ≡ n.priority) × ((n ≡ g.first) ⊎ In n g.others)) ⊎ Placed n gs

module _ (Q : NodeWithPing → Type 0) where
  add_to_group-IsGroup :
      (n : NodeWithPing) (m : List Group)
      → n.alive ≡ true
      → Q n
      → All (IsGroup Q) m
      → All (IsGroup Q) (add_to_group n m)
  unfolding add_to_group
  add_to_group-IsGroup n [] a q h = (((refl, a, q), tt), tt)
  add_to_group-IsGroup n (g ∷ gs) a q h = elim (Bool-cases (eqb_ℤ g.priority n.priority)) [
    | inl same ↦
        let e : n.priority ≡ g.priority = ground (arith, eqb_ℤ_iff g.priority n.priority) in
        rw same
          ((h.0.0, All-append (Member Q g.priority) g.others (n ∷ []) h.0.1 ((e, a, q), tt)), h.1)
    | inr other ↦ rw other (h.0, add_to_group-IsGroup n gs a q h.1)
  ]

  pub group_alive-IsGroup :
      (m : List Group) (ns : List NodeWithPing)
      → All (IsGroup Q) m
      → All Q ns
      → All (IsGroup Q) (group_alive m ns)
  unfolding group_alive
  group_alive-IsGroup m [] h q = h
  group_alive-IsGroup m (n ∷ ns) h q = elim (Bool-cases n.alive) [
    | inl up ↦
        group_alive-IsGroup (if n.alive then add_to_group n m else m) ns
          (simp up (add_to_group-IsGroup n m up q.0 h)) q.1
    | inr down ↦ group_alive-IsGroup (if n.alive then add_to_group n m else m) ns (simp down h) q.1
  ]

add_to_group-Lacks :
    (p : ℤ) (n : NodeWithPing) (m : List Group)
    → n.priority ≢ p
    → Lacks p m
    → Lacks p (add_to_group n m)
unfolding add_to_group
add_to_group-Lacks p n [] h k = (h, tt)
add_to_group-Lacks p n (g ∷ gs) h k = ground (arith, add_to_group-Lacks p n gs h k.1)

add_to_group-DistinctGroups :
    (n : NodeWithPing) (m : List Group) → DistinctGroups m → DistinctGroups (add_to_group n m)
unfolding add_to_group
add_to_group-DistinctGroups n [] h = (tt, tt)
add_to_group-DistinctGroups n (g ∷ gs) h = elim (Bool-cases (eqb_ℤ g.priority n.priority)) [
  | inl same ↦ rw same h
  | inr other ↦
      let ne : n.priority ≢ g.priority = λ e. ground (arith, eqb_ℤ_iff g.priority n.priority) in
      rw other (add_to_group-Lacks g.priority n gs ne h.0, add_to_group-DistinctGroups n gs h.1)
]

pub group_alive-DistinctGroups :
    (m : List Group) (ns : List NodeWithPing) → DistinctGroups m → DistinctGroups (group_alive m ns)
unfolding group_alive
group_alive-DistinctGroups m [] h = h
group_alive-DistinctGroups m (n ∷ ns) h =
    group_alive-DistinctGroups (if n.alive then add_to_group n m else m) ns
      (ground (arith, add_to_group-DistinctGroups n m h))

add_to_group-Placed : (n : NodeWithPing) (m : List Group) → Placed n (add_to_group n m)
unfolding add_to_group
add_to_group-Placed n [] = inl (refl, inl refl)
add_to_group-Placed n (g ∷ gs) = elim (Bool-cases (eqb_ℤ g.priority n.priority)) [
  | inl same ↦
      rw same (inl ((eqb_ℤ_iff _ _).0 same, inr (In-append_right n g.others (n ∷ []) (inl refl))))
  | inr other ↦ rw other (inr (add_to_group-Placed n gs))
]

add_to_group_keeps_Placed :
    (k n : NodeWithPing) (m : List Group) → Placed k m → Placed k (add_to_group n m)
unfolding add_to_group
add_to_group_keeps_Placed k n [] h = absurd h
add_to_group_keeps_Placed k n (g ∷ gs) h =
    ground (arith, add_to_group_keeps_Placed k n gs, In-append_left k g.others (n ∷ []))

group_alive_keeps_Placed :
    (k : NodeWithPing) (m : List Group) (ns : List NodeWithPing)
    → Placed k m
    → Placed k (group_alive m ns)
unfolding group_alive
group_alive_keeps_Placed k m [] h = h
group_alive_keeps_Placed k m (n ∷ ns) h =
    group_alive_keeps_Placed k (if n.alive then add_to_group n m else m) ns
      (ground (arith, add_to_group_keeps_Placed k n m))

-- No node that is alive is lost.
pub group_alive-Placed :
    (k : NodeWithPing) (m : List Group) (ns : List NodeWithPing)
    → In k ns
    → k.alive ≡ true
    → Placed k (group_alive m ns)
unfolding group_alive
group_alive-Placed k m [] i a = absurd i
group_alive-Placed k m (n ∷ ns) (inl e) a =
    group_alive_keeps_Placed k (if n.alive then add_to_group n m else m) ns
      (rw (← e) (simp a (add_to_group-Placed k m)))
group_alive-Placed k m (n ∷ ns) (inr i) a =
    group_alive-Placed k (if n.alive then add_to_group n m else m) ns i a

-- The fastest is one of the group.
pub fastest_holds :
    (P : NodeWithPing → Type 0) (b : NodeWithPing) (ns : List NodeWithPing)
    → P b
    → All P ns
    → P (fastest b ns)
unfolding fastest
fastest_holds P b [] h k = h
fastest_holds P b (c ∷ ns) h k =
    fastest_holds P (if ltb_ℤ c.ping b.ping then c else b) ns
      (elim (Bool-cases (ltb_ℤ c.ping b.ping)) [ inl l ↦ rw l k.0 | inr g ↦ rw g h ]) k.1

pub fastest-le : (b : NodeWithPing) (ns : List NodeWithPing) → (fastest b ns).ping ≤ℤ b.ping
unfolding fastest
fastest-le b [] = omega arith
fastest-le b (c ∷ ns) = ground (arith, fastest-le (if ltb_ℤ c.ping b.ping then c else b) ns)

-- None of the group is faster.
pub fastest-le_of_In :
    (k b : NodeWithPing) (ns : List NodeWithPing) → In k ns → (fastest b ns).ping ≤ℤ k.ping
unfolding fastest
fastest-le_of_In k b [] i = absurd i
fastest-le_of_In k b (c ∷ ns) (inl e) =
    rw e (ground (arith, fastest-le (if ltb_ℤ c.ping b.ping then c else b) ns))
fastest-le_of_In k b (c ∷ ns) (inr i) =
    fastest-le_of_In k (if ltb_ℤ c.ping b.ping then c else b) ns i
