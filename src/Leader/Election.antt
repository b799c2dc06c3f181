-- ===== src/Leader/Election.antt =====
-- Elect of pkg/leader/leader.go.
use mezzium.Base.{
  if◌then◌else◌, ◌≡◌, refl, sym, ◌∙◌, subst, inl, inr, ◌⊎◌, false, List, [], ◌∷◌, In, All, All_at,
  Bool-cases,
}
use mezzium.Text.{Str, str_lt}
use mezzium.Text.Laws.{str_lt_irrefl, str_lt_trans, str_lt_total, str_lt_asym}
use mezzium.Peers.{Peer}
use mezzium.Leader.{least_from, elect}

-- No peer's id is before `m`.
abbrev pub NoneBefore : Str → List Peer → Type 0
NoneBefore m = All (λ (p : Peer). str_lt p.id m ≡ false)

-- `m` is not before `a`, where `b` is the lesser of the two.
not-before_trans : (a b m : Str) → str_lt b m ≡ false → str_lt a b ≡ false → str_lt a m ≡ false
not-before_trans a b m h k = elim (Bool-cases (str_lt a m)) [
  | inl before ↦ elim (Bool-cases (str_lt b a)) [
    | inl l ↦ cc (str_lt_trans b a m l before)
    | inr g ↦ let e : a ≡ b = str_lt_total a b k g in rw e h
  ]
  | inr e ↦ e
]

least_from-start : (m : Str) (ps : List Peer) → str_lt m (least_from m ps) ≡ false
unfolding least_from
least_from-start m [] = str_lt_irrefl m
least_from-start m (p ∷ ps) = elim (Bool-cases (str_lt p.id m)) [
  | inl l ↦ rw l (
      not-before_trans m p.id (least_from p.id ps) (least_from-start p.id ps)
        (str_lt_asym p.id m l))
  | inr g ↦ rw g (least_from-start m ps)
]

least_from-head :
    (m : Str) (p : Peer) (ps : List Peer) → str_lt p.id (least_from m (p ∷ ps)) ≡ false
unfolding least_from
least_from-head m p ps = elim (Bool-cases (str_lt p.id m)) [
  | inl l ↦ rw l (least_from-start p.id ps)
  | inr g ↦ rw g (not-before_trans p.id m (least_from m ps) (least_from-start m ps) g)
]

least_from-NoneBefore : (m : Str) (ps : List Peer) (l : Str) → l ≡ least_from m ps → NoneBefore l ps
unfolding least_from
least_from-NoneBefore m [] l e = tt
least_from-NoneBefore m (p ∷ ps) l e = (
  rw e (least_from-head m p ps),
  least_from-NoneBefore (if str_lt p.id m then p.id else m) ps l e,
)

least_from-In :
    (m : Str) (ps : List Peer)
    → (least_from m ps ≡ m) ⊎ ((p : Peer) × In p ps × (p.id ≡ least_from m ps))
unfolding least_from
least_from-In m [] = inl refl
least_from-In m (p ∷ ps) = elim (Bool-cases (str_lt p.id m)) [
  | inl l ↦ elim (least_from-In p.id ps) [
    | inl e ↦ rw l (inr (p, inl refl, sym e))
    | inr (q, i, e) ↦ rw l (inr (q, inr i, e))
  ]
  | inr g ↦ elim (least_from-In m ps) [
    | inl e ↦ rw g (inl e)
    | inr (q, i, e) ↦ rw g (inr (q, inr i, e))
  ]
]

-- The elected id is that of one of the peers, if there are any, and no peer's id is before it.
pub elect-least :
    (p : Peer) (ps : List Peer)
    → ((q : Peer) × In q (p ∷ ps) × (q.id ≡ elect (p ∷ ps))) × NoneBefore (elect (p ∷ ps)) (p ∷ ps)
unfolding elect
elect-least p ps = (
  elim (least_from-In p.id (p ∷ ps)) [ inl e ↦ (p, inl refl, sym e) | inr found ↦ found ],
  least_from-NoneBefore p.id (p ∷ ps) (least_from p.id (p ∷ ps)) refl,
)

-- Each id of the first list occurs in the second.
abbrev pub IdsWithin : List Peer → List Peer → Type 0
IdsWithin xs ys = (p : Peer) → In p xs → (q : Peer) × In q ys × (q.id ≡ p.id)

elected_not_before :
    (x : Peer) (xs : List Peer) (y : Peer) (ys : List Peer)
    → IdsWithin (x ∷ xs) (y ∷ ys)
    → str_lt (elect (x ∷ xs)) (elect (y ∷ ys)) ≡ false
elected_not_before x xs y ys h =
    let (p, i, e) = (elect-least x xs).0 in
    let (q, j, e') = h p i in
    subst (λ m. str_lt m (elect (y ∷ ys)) ≡ false) (e' ∙ e)
      (All_at (λ r. str_lt r.id (elect (y ∷ ys)) ≡ false) q (y ∷ ys) (elect-least y ys).1 j)

-- Nodes that know the same ids elect the same leader, whatever the order and the rest of what they
-- know, and however often an id occurs.
pub elect_agree : (xs ys : List Peer) → IdsWithin xs ys → IdsWithin ys xs → elect xs ≡ elect ys
elect_agree [] [] h k = refl
elect_agree [] (y ∷ ys) h k = absurd ((k y (inl refl)).1)
elect_agree (x ∷ xs) [] h k = absurd ((h x (inl refl)).1)
elect_agree (x ∷ xs) (y ∷ ys) h k =
    str_lt_total (elect (x ∷ xs)) (elect (y ∷ ys)) (elected_not_before x xs y ys h)
      (elected_not_before y ys x xs k)
