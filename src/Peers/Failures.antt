-- ===== src/Peers/Failures.antt =====
-- OnFailure and OnSuccess of pkg/peers/store.go: two failures in a row remove a peer.
use mezzium.Base.{
  ◌≡◌, ◌≢◌, refl, inl, inr, Bool, true, false, none, some, List, [], ◌∷◌, arith, if◌then◌else◌,
  Option-cases, ap, ◌∙◌,
}
use mezzium.Base.Int.{ℤ, pos, ◌+ℤ◌, wrap64}
use mezzium.Text.{Str}
use mezzium.Text.Laws.{eq_iff, eq_refl}
use mezzium.Dict.{lookup}
use mezzium.Dict.Laws.{lookup-insert, lookup-delete}
use mezzium.Peers.{Peer, Store, on_failure, on_success}

pub data Outcome : Type 0 where
  failure success : Outcome

abbrev pub record_outcome : Str → Outcome → Store → Store
record_outcome id failure s = on_failure id s
record_outcome id success s = on_success id s

-- The outcomes of the calls to one peer, in order.
pub record_outcomes : Str → List Outcome → Store → Store
record_outcomes id [] s = s
record_outcomes id (o ∷ os) s = record_outcomes id os (record_outcome id o s)

-- Whether two failures follow one another; the first argument says that one has just been seen.
unfoldable pub two_in_a_row : Bool → List Outcome → Bool
two_in_a_row seen [] = false
two_in_a_row seen (success ∷ os) = two_in_a_row false os
two_in_a_row true (failure ∷ os) = true
two_in_a_row false (failure ∷ os) = two_in_a_row true os

unfoldable pub ends_in_failure : Bool → List Outcome → Bool
ends_in_failure seen [] = seen
ends_in_failure seen (success ∷ os) = ends_in_failure false os
ends_in_failure seen (failure ∷ os) = ends_in_failure true os

abbrev pub count_of : Bool → ℤ
count_of seen = if seen then pos 1 else pos 0

lookup-on_failure :
    (id : Str) (s : Store) (p : Peer) (seen : Bool)
    → lookup id s ≡ some p
    → p.failures ≡ count_of seen
    → lookup id (on_failure id s) ≡ (if seen then none else some (record p { failures = pos 1 }))
unfolding on_failure wrap64 ◌+ℤ◌
lookup-on_failure id s p true h e =
    ground (arith, lookup-delete id id s, eq_refl id, ap (λ (q : ℤ). wrap64 (q +ℤ pos 1)) e)
lookup-on_failure id s p false h e = ground (
  arith,
  lookup-insert id id (record p { failures = pos 1 }) s,
  eq_refl id,
  ap (λ (q : ℤ). wrap64 (q +ℤ pos 1)) e,
)

lookup-on_success :
    (id : Str) (s : Store) (p : Peer)
    → lookup id s ≡ some p
    → lookup id (on_success id s) ≡ some (record p { failures = pos 0 })
unfolding on_success
lookup-on_success id s p h =
    ground (arith, lookup-insert id id (record p { failures = pos 0 }) s, eq_refl id)

record_outcomes_absent :
    (id : Str) (os : List Outcome) (s : Store) → lookup id s ≡ none → record_outcomes id os s ≡ s
unfolding record_outcomes on_failure on_success
record_outcomes_absent id [] s h = refl
record_outcomes_absent id (failure ∷ os) s h = rw (h, on_failure) (record_outcomes_absent id os s h)
record_outcomes_absent id (success ∷ os) s h = rw (h, on_success) (record_outcomes_absent id os s h)

-- A peer with no failure (or, if `seen`, one) to its name is in the store after a series of calls
-- exactly if no two failures follow one another in the series; its count then says whether the
-- last call failed, and its id and address are as they were.
pub record_outcomes-lookup :
    (id : Str) (os : List Outcome) (s : Store) (p : Peer) (seen : Bool)
    → lookup id s ≡ some p
    → p.failures ≡ count_of seen
    → lookup id (record_outcomes id os s) ≡ (
        if two_in_a_row seen os
        then none
        else some (record p { failures = count_of (ends_in_failure seen os) }))
unfolding record_outcomes two_in_a_row ends_in_failure
record_outcomes-lookup id [] s p seen h e = rw (← e) h
record_outcomes-lookup id (failure ∷ os) s p true h e =
    let gone = lookup-on_failure id s p true h e in
    rw (record_outcomes_absent id os (on_failure id s) gone) gone
record_outcomes-lookup id (failure ∷ os) s p false h e =
    record_outcomes-lookup id os (on_failure id s) (record p { failures = pos 1 }) true
      (lookup-on_failure id s p false h e) refl
record_outcomes-lookup id (success ∷ os) s p seen h e =
    record_outcomes-lookup id os (on_success id s) (record p { failures = pos 0 }) false
      (lookup-on_success id s p h) refl

pub on_failure_frame : (id j : Str) (s : Store) → id ≢ j → lookup j (on_failure id s) ≡ lookup j s
unfolding on_failure
on_failure_frame id j s ne = elim (Option-cases (lookup id s)) [
  | inl e ↦ rw (e, on_failure) refl
  | inr (p, e) ↦ ground (
    arith,
    eq_iff id j,
    lookup-delete id j s,
    lookup-insert id j (record p { failures = wrap64 (p.failures +ℤ pos 1) }) s,
  )
]

pub on_success_frame : (id j : Str) (s : Store) → id ≢ j → lookup j (on_success id s) ≡ lookup j s
unfolding on_success
on_success_frame id j s ne = elim (Option-cases (lookup id s)) [
  | inl e ↦ rw (e, on_success) refl
  | inr (p, e) ↦ ground (arith, eq_iff id j, lookup-insert id j (record p { failures = pos 0 }) s)
]

-- The calls to one peer leave every other as it is.
record_outcomes_frame :
    (id j : Str) (os : List Outcome) (s : Store)
    → id ≢ j
    → lookup j (record_outcomes id os s) ≡ lookup j s
unfolding record_outcomes
record_outcomes_frame id j [] s ne = refl
record_outcomes_frame id j (failure ∷ os) s ne =
    record_outcomes_frame id j os (on_failure id s) ne ∙ on_failure_frame id j s ne
record_outcomes_frame id j (success ∷ os) s ne =
    record_outcomes_frame id j os (on_success id s) ne ∙ on_success_frame id j s ne
