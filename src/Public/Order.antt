-- ===== src/Public/Order.antt =====
-- The order in which the endpoints of pkg/api/public.go ask the nodes.
use mezzium.Base.{
  ℕ, ◌≡◌, refl, sym, ap, ◌∙◌, subst, ◌≢◌, ◌⊎◌, inl, inr, true, false, not, List, [], ◌∷◌, ◌++◌,
  arith, Bool-cases, In, In-keep, In-of_keep, All, All-append,
}
use mezzium.Base.Int.{ℤ, ◌≤ℤ◌, ◌<ℤ◌, ltb_ℤ, eqb_ℤ, ltb_ℤ_iff, eqb_ℤ_iff, eq_of_parts}
use mezzium.Registry.Pick.{NodeWithPing}
use mezzium.Throttle.{Throttler, is_throttled}
use mezzium.Public.{Groups, group_by_priority, insert_group, sort_groups, flatten, candidates}
use mezzium.Public.Groups.{
  unthrottled, group_by_priority-Distinct, of_priority-group_by_priority, of_priority, Homogeneous,
  Above, Rising, Fresh, Distinct, keep-append, of_priority-other,
}

All-insert_group :
    (P : ℤ × List NodeWithPing → Type 0) (g : ℤ × List NodeWithPing) (gs : Groups)
    → P g
    → All P gs
    → All P (insert_group g gs)
unfolding insert_group
All-insert_group P g [] h a = (h, tt)
All-insert_group P g (k ∷ gs) h a = elim (Bool-cases (ltb_ℤ k.0 g.0)) [
  | inl e ↦ rw (e, insert_group) (a.0, All-insert_group P g gs h a.1)
  | inr e ↦ rw (e, insert_group) (h, a)
]

All-sort_groups :
    (P : ℤ × List NodeWithPing → Type 0) (gs : Groups) → All P gs → All P (sort_groups gs)
unfolding sort_groups
All-sort_groups P [] a = tt
All-sort_groups P (g ∷ gs) a = All-insert_group P g (sort_groups gs) a.0 (All-sort_groups P gs a.1)

Above-trans : (p q : ℤ) (gs : Groups) → p <ℤ q → Above q gs → Above p gs
Above-trans p q [] h a = tt
Above-trans p q (g ∷ gs) h a = (omega arith, Above-trans p q gs h a.1)

lt_of_test : (a b : ℤ) → ltb_ℤ b a ≡ false → b ≢ a → a <ℤ b
lt_of_test a b h ne = elim (Bool-cases (ltb_ℤ a b)) [
  | inl e ↦ (ltb_ℤ_iff a b).0 e
  | inr e ↦ absurd (ne (eq_of_parts b a (ground (arith, e, h))))
]

insert_group-Rising :
    (g : ℤ × List NodeWithPing) (gs : Groups)
    → Fresh g.0 gs
    → Rising gs
    → Rising (insert_group g gs)
unfolding insert_group
insert_group-Rising g [] f r = (tt, tt)
insert_group-Rising g (k ∷ gs) f r = elim (Bool-cases (ltb_ℤ k.0 g.0)) [
  | inl e ↦
      rw (e, insert_group)
        (
          All-insert_group (λ (m : ℤ × List NodeWithPing). k.0 <ℤ m.0) g gs (ground (arith, e)) r.0,
          insert_group-Rising g gs f.1 r.1,
        )
  | inr e ↦
      let below : g.0 <ℤ k.0 = lt_of_test g.0 k.0 e f.0 in
      rw (e, insert_group) ((below, Above-trans g.0 k.0 gs below r.0), r)
]

sort_groups-Rising : (gs : Groups) → Distinct gs → Rising (sort_groups gs)
unfolding sort_groups
sort_groups-Rising [] d = tt
sort_groups-Rising (g ∷ gs) d =
    insert_group-Rising g (sort_groups gs)
      (All-sort_groups (λ (m : ℤ × List NodeWithPing). m.0 ≢ g.0) gs d.0)
      (sort_groups-Rising gs d.1)

-- Moving a group of another priority to the front changes no priority's nodes.
of_priority-swap :
    (p q r : ℤ) (xs ys zs : List NodeWithPing)
    → All (λ (n : NodeWithPing). n.priority ≡ q) xs
    → All (λ (n : NodeWithPing). n.priority ≡ r) ys
    → q ≢ r
    → of_priority p (xs ++ (ys ++ zs)) ≡ of_priority p (ys ++ (xs ++ zs))
of_priority-swap p q r xs ys zs hx hy ne =
    let test = λ (m : NodeWithPing). eqb_ℤ m.priority p in
    keep-append test xs (ys ++ zs)
    ∙ ap (λ l. of_priority p xs ++ l) (keep-append test ys zs)
    ∙ swapped (Bool-cases (eqb_ℤ q p))
    ∙ ap (λ l. of_priority p ys ++ l) (sym (keep-append test xs zs))
    ∙ sym (keep-append test ys (xs ++ zs))
  where
    swapped :
        (eqb_ℤ q p ≡ true) ⊎ (eqb_ℤ q p ≡ false)
        → of_priority p xs ++ (of_priority p ys ++ of_priority p zs)
          ≡ of_priority p ys ++ (of_priority p xs ++ of_priority p zs)
    swapped (inl e) =
        let same = (eqb_ℤ_iff q p).0 e in
        rw (of_priority-other p r ys hy (λ k. ne (same ∙ sym k))) refl
    swapped (inr e) = rw (of_priority-other p q xs hx (λ k. cc (e, (eqb_ℤ_iff q p).1 k))) refl

of_priority-insert_group :
    (p : ℤ) (g : ℤ × List NodeWithPing) (gs : Groups)
    → Homogeneous (g ∷ gs)
    → of_priority p (flatten (insert_group g gs)) ≡ of_priority p (flatten (g ∷ gs))
unfolding insert_group flatten
of_priority-insert_group p g [] h = refl
of_priority-insert_group p g (k ∷ gs) h = elim (Bool-cases (ltb_ℤ k.0 g.0)) [
  | inl e ↦
      let ne : k.0 ≢ g.0 = λ same. ground (arith, e, same) in
      rw (e, insert_group)
        (keep-append _ k.1 (flatten (insert_group g gs))
          ∙ ap (λ l. of_priority p k.1 ++ l) (of_priority-insert_group p g gs (h.0, h.1.1))
          ∙ sym (keep-append _ k.1 (g.1 ++ flatten gs))
          ∙ of_priority-swap p k.0 g.0 k.1 g.1 (flatten gs) h.1.0 h.0 ne)
  | inr e ↦ rw (e, insert_group) refl
]

of_priority-sort_groups :
    (p : ℤ) (gs : Groups)
    → Homogeneous gs
    → of_priority p (flatten (sort_groups gs)) ≡ of_priority p (flatten gs)
unfolding sort_groups flatten
of_priority-sort_groups p [] h = refl
of_priority-sort_groups p (g ∷ gs) h =
    of_priority-insert_group p g (sort_groups gs) (h.0, All-sort_groups _ gs h.1)
    ∙ keep-append _ g.1 (flatten (sort_groups gs))
    ∙ ap (λ l. of_priority p g.1 ++ l) (of_priority-sort_groups p gs h.1)
    ∙ sym (keep-append _ g.1 (flatten gs))

-- The priorities of the nodes do not fall.
abbrev pub ByPriority : List NodeWithPing → Type 0
ByPriority [] = Unit
ByPriority (n ∷ ns) = All (λ (m : NodeWithPing). n.priority ≤ℤ m.priority) ns × ByPriority ns

All_at_most :
    (p q : ℤ) (ns : List NodeWithPing)
    → All (λ (n : NodeWithPing). n.priority ≡ q) ns
    → p ≤ℤ q
    → All (λ (n : NodeWithPing). p ≤ℤ n.priority) ns
All_at_most p q [] h le = tt
All_at_most p q (n ∷ ns) h le = (rw h.0 le, All_at_most p q ns h.1 le)

flatten-Above :
    (p : ℤ) (gs : Groups)
    → Homogeneous gs
    → Above p gs
    → All (λ (n : NodeWithPing). p ≤ℤ n.priority) (flatten gs)
unfolding flatten
flatten-Above p [] h a = tt
flatten-Above p (g ∷ gs) h a =
    All-append _ g.1 (flatten gs) (All_at_most p g.0 g.1 h.0 (omega arith))
      (flatten-Above p gs h.1 a.1)

ByPriority-append :
    (p : ℤ) (ns zs : List NodeWithPing)
    → All (λ (n : NodeWithPing). n.priority ≡ p) ns
    → All (λ (n : NodeWithPing). p ≤ℤ n.priority) zs
    → ByPriority zs
    → ByPriority (ns ++ zs)
ByPriority-append p [] zs h a b = b
ByPriority-append p (n ∷ ns) zs h a b = (
  rw h.0 (All-append _ ns zs (All_at_most p p ns h.1 (omega arith)) a),
  ByPriority-append p ns zs h.1 a b,
)

flatten-ByPriority : (gs : Groups) → Homogeneous gs → Rising gs → ByPriority (flatten gs)
unfolding flatten
flatten-ByPriority [] h r = tt
flatten-ByPriority (g ∷ gs) h r =
    ByPriority-append g.0 g.1 (flatten gs) h.0 (flatten-Above g.0 gs h.1 r.0)
      (flatten-ByPriority gs h.1 r.1)

-- The nodes are asked in the order of their priorities, and those of the same priority in the order
-- of the network's list; each node of the list is asked, but for those that are throttled.
pub candidates-ByPriority :
    (now : ℕ) (t : Throttler) (nodes : List NodeWithPing) (p : ℤ)
    → ByPriority (candidates now t nodes)
      × (of_priority p (candidates now t nodes) ≡ of_priority p (unthrottled now t nodes))
unfolding candidates flatten
candidates-ByPriority now t nodes p =
    let gs = group_by_priority now t nodes [] in
    let (h, d) = group_by_priority-Distinct now t nodes [] tt tt in
    (
      flatten-ByPriority (sort_groups gs) (All-sort_groups _ gs h) (sort_groups-Rising gs d),
      of_priority-sort_groups p gs h ∙ of_priority-group_by_priority now t p nodes [] tt tt,
    )

-- A node that is asked is one of the list, and not throttled.
pub candidates-unthrottled :
    (now : ℕ) (t : Throttler) (nodes : List NodeWithPing) (n : NodeWithPing)
    → In n (candidates now t nodes)
    → In n nodes × (is_throttled now n.url t ≡ false)
candidates-unthrottled now t nodes n i =
    let test = λ (m : NodeWithPing). eqb_ℤ m.priority n.priority in
    let own : test n ≡ true = (eqb_ℤ_iff n.priority n.priority).1 refl in
    let (_, same) = candidates-ByPriority now t nodes n.priority in
    let j =
      In-of_keep test n (unthrottled now t nodes)
        (subst (In n) same (In-keep test n (candidates now t nodes) i own)) in
    let (k, free) = In-of_keep (λ (m : NodeWithPing). not (is_throttled now m.url t)) n nodes j.0 in
    (k, ground (arith, free))
