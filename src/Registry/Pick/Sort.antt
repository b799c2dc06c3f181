-- ===== src/Registry/Pick/Sort.antt =====
-- Sorting by priority: the items stay, the result is in order, and for distinct priorities it does
-- not depend on the order of the input.
use mathlib.Core.List.{Permᴰ}
use mezzium.Base.{
  subst, sym, ◌≡◌, ◌≢◌, refl, ◌∙◌, inl, inr, List, [], ◌∷◌, arith, All, In, Bool-cases,
}
use mezzium.Base.Int.{ℤ, ◌<ℤ◌, ltb_ℤ}
use mezzium.Registry.Pick.{NodeWithPing, insert_by_priority, sort_by_priority}

abbrev pub Avoids : ℤ → List NodeWithPing → Type 0
Avoids p = All (λ n. n.priority ≢ p)

abbrev pub DistinctPriorities : List NodeWithPing → Type 0
DistinctPriorities [] = Unit
DistinctPriorities (n ∷ ns) = Avoids n.priority ns × DistinctPriorities ns

abbrev pub Above : ℤ → List NodeWithPing → Type 0
Above p = All (λ n. p <ℤ n.priority)

-- Priorities rise strictly, so that each occurs once.
abbrev pub IsSorted : List NodeWithPing → Type 0
IsSorted [] = Unit
IsSorted (n ∷ ns) = Above n.priority ns × IsSorted ns

module _ (P : NodeWithPing → Type 0) where
  pub insert_by_priority-All :
      (n : NodeWithPing) (xs : List NodeWithPing) → P n → All P xs → All P (insert_by_priority n xs)
  unfolding insert_by_priority
  insert_by_priority-All n [] h k = (h, tt)
  insert_by_priority-All n (x ∷ xs) h k = ground (arith, insert_by_priority-All n xs h k.1)

  pub sort_by_priority-All : (ns : List NodeWithPing) → All P ns → All P (sort_by_priority ns)
  unfolding sort_by_priority
  sort_by_priority-All [] h = tt
  sort_by_priority-All (n ∷ ns) h =
      insert_by_priority-All n (sort_by_priority ns) h.0 (sort_by_priority-All ns h.1)

In-insert_self : (n : NodeWithPing) (xs : List NodeWithPing) → In n (insert_by_priority n xs)
unfolding insert_by_priority
In-insert_self n [] = inl refl
In-insert_self n (x ∷ xs) = ground (arith, In-insert_self n xs)

In-insert : (k n : NodeWithPing) (xs : List NodeWithPing) → In k xs → In k (insert_by_priority n xs)
unfolding insert_by_priority
In-insert k n [] i = absurd i
In-insert k n (x ∷ xs) i = ground (arith, In-insert k n xs)

pub In-sort_by_priority :
    (k : NodeWithPing) (ns : List NodeWithPing) → In k ns → In k (sort_by_priority ns)
unfolding sort_by_priority
In-sort_by_priority k [] i = absurd i
In-sort_by_priority k (n ∷ ns) (inl e) = rw e (In-insert_self n (sort_by_priority ns))
In-sort_by_priority k (n ∷ ns) (inr i) =
    In-insert k n (sort_by_priority ns) (In-sort_by_priority k ns i)

Above-mono : (p q : ℤ) (ns : List NodeWithPing) → p <ℤ q → Above q ns → Above p ns
Above-mono p q [] h k = tt
Above-mono p q (n ∷ ns) h k = (omega arith, Above-mono p q ns h k.1)

insert_by_priority-IsSorted :
    (n : NodeWithPing) (xs : List NodeWithPing)
    → Avoids n.priority xs
    → IsSorted xs
    → IsSorted (insert_by_priority n xs)
unfolding insert_by_priority
insert_by_priority-IsSorted n [] a s = (tt, tt)
insert_by_priority-IsSorted n (x ∷ xs) a s = elim (Bool-cases (ltb_ℤ n.priority x.priority)) [
  | inl l ↦
      let below : n.priority <ℤ x.priority = ground arith in
      rw l ((below, Above-mono n.priority x.priority xs below s.0), s)
  | inr g ↦
      let ne = a.0 in
      let above : x.priority <ℤ n.priority = ground arith in
      rw g (
        insert_by_priority-All (λ k. x.priority <ℤ k.priority) n xs above s.0,
        insert_by_priority-IsSorted n xs a.1 s.1,
      )
]

pub sort_by_priority-IsSorted :
    (ns : List NodeWithPing) → DistinctPriorities ns → IsSorted (sort_by_priority ns)
unfolding sort_by_priority
sort_by_priority-IsSorted [] h = tt
sort_by_priority-IsSorted (n ∷ ns) h =
    insert_by_priority-IsSorted n (sort_by_priority ns)
      (sort_by_priority-All (λ k. k.priority ≢ n.priority) ns h.0)
      (sort_by_priority-IsSorted ns h.1)

insert_comm :
    (a b : NodeWithPing) (xs : List NodeWithPing)
    → a.priority ≢ b.priority
    → insert_by_priority a (insert_by_priority b xs)
      ≡ insert_by_priority b (insert_by_priority a xs)
unfolding insert_by_priority
insert_comm a b [] h = ground arith
insert_comm a b (x ∷ xs) h = ground (arith, insert_comm a b xs h)

Permᴰ-All :
    (P : NodeWithPing → Type 0) {xs ys : List NodeWithPing} → Permᴰ xs ys → All P xs → All P ys
Permᴰ-All P Permᴰ.nil h = tt
Permᴰ-All P (Permᴰ.cons e p) h = (subst P e h.0, Permᴰ-All P p h.1)
Permᴰ-All P (Permᴰ.swap e e') h = (subst P e' h.1.0, (subst P e h.0, h.1.1))
Permᴰ-All P (Permᴰ.trans p q) h = Permᴰ-All P q (Permᴰ-All P p h)

Permᴰ-DistinctPriorities :
    {xs ys : List NodeWithPing} → Permᴰ xs ys → DistinctPriorities xs → DistinctPriorities ys
Permᴰ-DistinctPriorities Permᴰ.nil h = tt
Permᴰ-DistinctPriorities (Permᴰ.cons {l₂ = ys} e p) h = (
  subst (λ (n : NodeWithPing). Avoids n.priority ys) e (Permᴰ-All (λ k. _) p h.0),
  Permᴰ-DistinctPriorities p h.1,
)
Permᴰ-DistinctPriorities (Permᴰ.swap {a = a} {b = b} {l = l} e e') h = (
  (λ q. h.0.0 (cc), subst (λ (n : NodeWithPing). Avoids n.priority l) e' h.1.0),
  (subst (λ (n : NodeWithPing). Avoids n.priority l) e h.0.1, h.1.1),
)
Permᴰ-DistinctPriorities (Permᴰ.trans p q) h =
    Permᴰ-DistinctPriorities q (Permᴰ-DistinctPriorities p h)

-- The order in which the items come does not matter if the priorities are distinct.
pub sort_by_priority-Permᴰ :
    {xs ys : List NodeWithPing}
    → Permᴰ xs ys
    → DistinctPriorities xs
    → sort_by_priority xs ≡ sort_by_priority ys
unfolding sort_by_priority
sort_by_priority-Permᴰ Permᴰ.nil h = refl
sort_by_priority-Permᴰ (Permᴰ.cons e p) h = cc (e, sort_by_priority-Permᴰ p h.1)
sort_by_priority-Permᴰ (Permᴰ.swap {a = a} {b = b} {l = l} e e') h =
    rw (← e, ← e') (insert_comm a b (sort_by_priority l) (λ q. h.0.0 (sym q)))
sort_by_priority-Permᴰ (Permᴰ.trans p q) h =
    sort_by_priority-Permᴰ p h ∙ sort_by_priority-Permᴰ q (Permᴰ-DistinctPriorities p h)
