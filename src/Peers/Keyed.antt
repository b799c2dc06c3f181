-- ===== src/Peers/Keyed.antt =====
-- Each entry of the store of pkg/peers stands under its own id.
use mezzium.Base.{◌≡◌, inl, inr, some, arith, Option-cases, Bool-cases}
use mezzium.Base.Int.{ℤ, pos, ◌+ℤ◌, wrap64, leb_ℤ}
use mezzium.Text.{Str}
use mezzium.Text.Laws.{eq_iff}
use mezzium.Dict.{lookup, insert, delete}
use mezzium.Dict.Laws.{lookup-insert, lookup-delete}
use mezzium.Peers.{Peer, Store, new_store, add, remove, on_failure, on_success}

abbrev pub IsKeyed : Store → Type 0
IsKeyed s = (k : Str) (p : Peer) → lookup k s ≡ some p → p.id ≡ k

-- The calls that change the store.
pub data Step : Store → Store → Type 0 where
  adds : {s : Store} (p : Peer) → Step s (add p s)
  removes : {s : Store} (id : Str) → Step s (remove id s)
  fails : {s : Store} (id : Str) → Step s (on_failure id s)
  succeeds : {s : Store} (id : Str) → Step s (on_success id s)

pub data Reach (s : Store) : Store → Type 0 where
  here : Reach s s
  next : {t u : Store} → Reach s t → Step t u → Reach s u

insert-IsKeyed : (p : Peer) (s : Store) → IsKeyed s → IsKeyed (insert p.id p s)
insert-IsKeyed p s h k q e = ground (arith, lookup-insert p.id k p s, eq_iff p.id k, h k q)

delete-IsKeyed : (id : Str) (s : Store) → IsKeyed s → IsKeyed (delete id s)
delete-IsKeyed id s h k q e = ground (arith, lookup-delete id k s, h k q)

reinsert-IsKeyed :
    (id : Str) (p : Peer) (f : ℤ) (s : Store)
    → lookup id s ≡ some p
    → IsKeyed s
    → IsKeyed (insert id (record p { failures = f }) s)
reinsert-IsKeyed id p f s e h k q e' =
    ground (arith, lookup-insert id k (record p { failures = f }) s, eq_iff id k, h k q, h id p)

Step-IsKeyed : {s t : Store} → Step s t → IsKeyed s → IsKeyed t
unfolding add remove on_failure on_success
Step-IsKeyed (adds {s = s} p) h = insert-IsKeyed p s h
Step-IsKeyed (removes {s = s} id) h = delete-IsKeyed id s h
Step-IsKeyed (fails {s = s} id) h = elim (Option-cases (lookup id s)) [
  | inl e ↦ rw (e, on_failure) h
  | inr (p, e) ↦ elim (Bool-cases (leb_ℤ (pos 2) (wrap64 (p.failures +ℤ pos 1)))) [
    | inl over ↦ rw (e, on_failure) (rw over (delete-IsKeyed id s h))
    | inr under ↦
        rw (e, on_failure) (rw under (reinsert-IsKeyed id p (wrap64 (p.failures +ℤ pos 1)) s e h))
  ]
]
Step-IsKeyed (succeeds {s = s} id) h = elim (Option-cases (lookup id s)) [
  | inl e ↦ rw (e, on_success) h
  | inr (p, e) ↦ rw (e, on_success) (reinsert-IsKeyed id p (pos 0) s e h)
]

-- Whatever calls follow one another, starting from the empty store, a peer is found under its own
-- id only.
pub Reach-IsKeyed : {s : Store} → Reach new_store s → IsKeyed s
unfolding new_store lookup
Reach-IsKeyed here k p e = cc
Reach-IsKeyed (next r st) k p e = Step-IsKeyed st (Reach-IsKeyed r) k p e
