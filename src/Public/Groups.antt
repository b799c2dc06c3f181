-- ===== src/Public/Groups.antt =====
-- The groups of the endpoints of pkg/api/public.go, by the priority of the nodes.
use mezzium.Base.{
  ℕ, ◌≡◌, refl, sym, ap, ◌∙◌, subst, ◌≢◌, ◌⊎◌, inl, inr, Bool, true, false, not, List, [], ◌∷◌,
  ◌++◌, arith, Bool-cases, keep, All, All-append,
}
use mezzium.Base.Int.{ℤ, ◌<ℤ◌, eqb_ℤ, eqb_ℤ_iff}
use mathlib.Core.List.{append-nil, append_assoc}
use mezzium.Throttle.{Throttler, is_throttled}
use mezzium.Registry.Pick.{NodeWithPing}
use mezzium.Public.{group_by_priority, Groups, add_to_group, flatten}

-- The nodes of a priority, in their order.
abbrev pub of_priority : ℤ → List NodeWithPing → List NodeWithPing
of_priority p nodes = keep (λ (n : NodeWithPing). eqb_ℤ n.priority p) nodes

-- Each group holds nodes of its own priority.
abbrev pub Homogeneous : Groups → Type 0
Homogeneous gs =
    All (λ (g : ℤ × List NodeWithPing). All (λ (n : NodeWithPing). n.priority ≡ g.0) g.1) gs

-- The priorities of the groups are above a bound, and rise.
abbrev pub Above : ℤ → Groups → Type 0
Above p gs = All (λ (g : ℤ × List NodeWithPing). p <ℤ g.0) gs

abbrev pub Rising : Groups → Type 0
Rising [] = Unit
Rising (g ∷ gs) = Above g.0 gs × Rising gs

-- A priority that is none of the groups'.
abbrev pub Fresh : ℤ → Groups → Type 0
Fresh p gs = All (λ (g : ℤ × List NodeWithPing). g.0 ≢ p) gs

abbrev pub Distinct : Groups → Type 0
Distinct [] = Unit
Distinct (g ∷ gs) = Fresh g.0 gs × Distinct gs

add_to_group-Fresh :
    (n : NodeWithPing) (gs : Groups) (p : ℤ)
    → n.priority ≢ p
    → Fresh p gs
    → Fresh p (add_to_group n gs)
unfolding add_to_group
add_to_group-Fresh n [] p ne h = (ne, tt)
add_to_group-Fresh n ((q, ms) ∷ gs) p ne h = elim (Bool-cases (eqb_ℤ q n.priority)) [
  | inl e ↦ rw (e, add_to_group) (h.0, h.1)
  | inr e ↦ rw (e, add_to_group) (h.0, add_to_group-Fresh n gs p ne h.1)
]

pub add_to_group-Distinct :
    (n : NodeWithPing) (gs : Groups) → Distinct gs → Distinct (add_to_group n gs)
unfolding add_to_group
add_to_group-Distinct n [] h = (tt, tt)
add_to_group-Distinct n ((q, ms) ∷ gs) h = elim (Bool-cases (eqb_ℤ q n.priority)) [
  | inl e ↦ rw (e, add_to_group) h
  | inr e ↦
      let ne : n.priority ≢ q = λ k. ground (arith, k, eqb_ℤ_iff q n.priority) in
      rw (e, add_to_group) (add_to_group-Fresh n gs q ne h.0, add_to_group-Distinct n gs h.1)
]

pub add_to_group-Homogeneous :
    (n : NodeWithPing) (gs : Groups) → Homogeneous gs → Homogeneous (add_to_group n gs)
unfolding add_to_group
add_to_group-Homogeneous n [] h = ((refl, tt), tt)
add_to_group-Homogeneous n ((q, ms) ∷ gs) h = elim (Bool-cases (eqb_ℤ q n.priority)) [
  | inl e ↦
      let same : q ≡ n.priority = (eqb_ℤ_iff q n.priority).0 e in
      rw (e, add_to_group)
        (All-append (λ (m : NodeWithPing). m.priority ≡ q) ms (n ∷ []) h.0 (sym same, tt), h.1)
  | inr e ↦ rw (e, add_to_group) (h.0, add_to_group-Homogeneous n gs h.1)
]

pub keep-append :
    {A : Type 0} (p : A → Bool) (xs ys : List A) → keep p (xs ++ ys) ≡ keep p xs ++ keep p ys
keep-append p [] ys = refl
keep-append p (x ∷ xs) ys = ground (arith, keep-append p xs ys)

pub eqb_ℤ_ne : (a b : ℤ) → a ≢ b → eqb_ℤ a b ≡ false
eqb_ℤ_ne a b ne = elim (Bool-cases (eqb_ℤ a b)) [
  | inl e ↦ absurd (ne ((eqb_ℤ_iff a b).0 e))
  | inr e ↦ e
]

-- Of nodes that are all of another priority, none is left.
pub of_priority-other :
    (p q : ℤ) (ns : List NodeWithPing)
    → All (λ (n : NodeWithPing). n.priority ≡ q) ns
    → q ≢ p
    → of_priority p ns ≡ []
of_priority-other p q [] h ne = refl
of_priority-other p q (n ∷ ns) h ne =
    let other : eqb_ℤ n.priority p ≡ false = eqb_ℤ_ne n.priority p (λ k. ne (sym h.0 ∙ k)) in
    rw other (of_priority-other p q ns h.1 ne)

pub of_priority-Fresh :
    (p : ℤ) (gs : Groups) → Homogeneous gs → Fresh p gs → of_priority p (flatten gs) ≡ []
unfolding flatten
of_priority-Fresh p [] h f = refl
of_priority-Fresh p ((q, ms) ∷ gs) h f =
    keep-append _ ms (flatten gs)
    ∙ (rw (of_priority-other p q ms h.0 f.0) (of_priority-Fresh p gs h.1 f.1))

-- A node behind a group of its own priority, where no later group has it.
of_priority-grouped :
    (p : ℤ) (n : NodeWithPing) (ms : List NodeWithPing) (gs : Groups)
    → Homogeneous gs
    → Fresh n.priority gs
    → of_priority p ((ms ++ n ∷ []) ++ flatten gs)
      ≡ of_priority p (ms ++ flatten gs) ++ of_priority p (n ∷ [])
of_priority-grouped p n ms gs h f =
    let test = λ (m : NodeWithPing). eqb_ℤ m.priority p in
    keep-append test (ms ++ n ∷ []) (flatten gs)
    ∙ ap (λ l. l ++ of_priority p (flatten gs)) (keep-append test ms (n ∷ []))
    ∙ swapped (Bool-cases (eqb_ℤ n.priority p))
    ∙ ap (λ l. l ++ of_priority p (n ∷ [])) (sym (keep-append test ms (flatten gs)))
  where
    swapped :
        (eqb_ℤ n.priority p ≡ true) ⊎ (eqb_ℤ n.priority p ≡ false)
        → (of_priority p ms ++ of_priority p (n ∷ [])) ++ of_priority p (flatten gs)
          ≡ (of_priority p ms ++ of_priority p (flatten gs)) ++ of_priority p (n ∷ [])
    swapped (inl e) =
        let same = (eqb_ℤ_iff n.priority p).0 e in
        let gone = of_priority-Fresh p gs h (subst (λ q. Fresh q gs) same f) in
        rw gone (append-nil _ ∙ ap (λ l. l ++ of_priority p (n ∷ [])) (sym (append-nil _)))
    swapped (inr e) =
        rw e (ap (λ l. l ++ of_priority p (flatten gs)) (append-nil _) ∙ sym (append-nil _))

-- A node is added behind those of its priority.
pub of_priority-add_to_group :
    (p : ℤ) (n : NodeWithPing) (gs : Groups)
    → Homogeneous gs
    → Distinct gs
    → of_priority p (flatten (add_to_group n gs))
      ≡ of_priority p (flatten gs) ++ of_priority p (n ∷ [])
unfolding add_to_group flatten
of_priority-add_to_group p n [] h d = refl
of_priority-add_to_group p n ((q, ms) ∷ gs) h d = elim (Bool-cases (eqb_ℤ q n.priority)) [
  | inl e ↦
      rw (e, add_to_group)
        (let same = (eqb_ℤ_iff q n.priority).0 e in
          of_priority-grouped p n ms gs h.1 (subst (λ k. Fresh k gs) same d.0))
  | inr e ↦
      rw (e, add_to_group)
        (let test = λ (m : NodeWithPing). eqb_ℤ m.priority p in
          keep-append test ms (flatten (add_to_group n gs))
          ∙ ap (λ l. of_priority p ms ++ l) (of_priority-add_to_group p n gs h.1 d.1)
          ∙ sym (
              append_assoc (of_priority p ms) (of_priority p (flatten gs)) (of_priority p (n ∷ [])))
          ∙ ap (λ l. l ++ of_priority p (n ∷ [])) (sym (keep-append test ms (flatten gs))))
]

-- The nodes that are not throttled.
abbrev pub unthrottled : ℕ → Throttler → List NodeWithPing → List NodeWithPing
unthrottled now t nodes = keep (λ (n : NodeWithPing). not (is_throttled now n.url t)) nodes

module _ (now : ℕ) (t : Throttler) where
  pub group_by_priority-Distinct :
      (ns : List NodeWithPing) (gs : Groups)
      → Homogeneous gs
      → Distinct gs
      → Homogeneous (group_by_priority now t ns gs) × Distinct (group_by_priority now t ns gs)
  unfolding group_by_priority
  group_by_priority-Distinct [] gs h d = (h, d)
  group_by_priority-Distinct (n ∷ ns) gs h d = elim (Bool-cases (is_throttled now n.url t)) [
    | inl e ↦ rw (e, group_by_priority) (group_by_priority-Distinct ns gs h d)
    | inr e ↦
        rw (e, group_by_priority)
          (group_by_priority-Distinct ns (add_to_group n gs) (add_to_group-Homogeneous n gs h)
            (add_to_group-Distinct n gs d))
  ]

  pub of_priority-group_by_priority :
      (p : ℤ) (ns : List NodeWithPing) (gs : Groups)
      → Homogeneous gs
      → Distinct gs
      → of_priority p (flatten (group_by_priority now t ns gs))
        ≡ of_priority p (flatten gs) ++ of_priority p (unthrottled now t ns)
  unfolding group_by_priority
  of_priority-group_by_priority p [] gs h d = sym (append-nil _)
  of_priority-group_by_priority p (n ∷ ns) gs h d = elim (Bool-cases (is_throttled now n.url t)) [
    | inl e ↦ rw (e, group_by_priority) (of_priority-group_by_priority p ns gs h d)
    | inr e ↦
        rw (e, group_by_priority)
          (of_priority-group_by_priority p ns (add_to_group n gs) (add_to_group-Homogeneous n gs h)
              (add_to_group-Distinct n gs d)
            ∙ ap (λ l. l ++ of_priority p (unthrottled now t ns))
                (of_priority-add_to_group p n gs h d)
            ∙ append_assoc (of_priority p (flatten gs)) (of_priority p (n ∷ []))
                (of_priority p (unthrottled now t ns))
            ∙ ap (λ l. of_priority p (flatten gs) ++ l)
                (sym (
                  keep-append (λ (m : NodeWithPing). eqb_ℤ m.priority p) (n ∷ [])
                    (unthrottled now t ns))))
  ]
