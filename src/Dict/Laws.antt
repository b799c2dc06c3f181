-- ===== src/Dict/Laws.antt =====
-- Reading after writing, in each combination.
use mathlib.Core.Option
use mezzium.Base.{◌≡◌, ◌≢◌, refl, ap, none, some, List, [], ◌∷◌, arith, if◌then◌else◌}
use mezzium.Text.{Str, ◌==◌}
use mezzium.Text.Laws.{eq_iff, eq_refl}
use mezzium.Dict.{Dict, lookup, insert, delete, update_all, modify, keys}

module _ {ℓ} {V : Type ℓ} where
  pub lookup-insert :
      (written read : Str) (v : V) (m : Dict V)
      → lookup read (insert written v m) ≡ (if written == read then some v else lookup read m)
  unfolding lookup insert
  lookup-insert written read v [] = refl
  lookup-insert written read v ((key, old) ∷ rest) = ground (
    arith,
    lookup-insert written read v rest,
    eq_iff key written,
    eq_iff key read,
    eq_iff written read,
  )

  pub lookup-delete :
      (k j : Str) (m : Dict V) → lookup j (delete k m) ≡ (if k == j then none else lookup j m)
  unfolding lookup delete
  lookup-delete k j [] = ground arith
  lookup-delete k j ((i, w) ∷ m) =
      ground (arith, eq_iff k j, eq_iff i k, eq_iff i j, lookup-delete k j m)

  pub lookup-insert_self : (k : Str) (v : V) (m : Dict V) → lookup k (insert k v m) ≡ some v
  lookup-insert_self k v m = rw (lookup-insert, eq_refl k) refl

  pub lookup-insert_ne :
      (k j : Str) (v : V) (m : Dict V) → k ≢ j → lookup j (insert k v m) ≡ lookup j m
  lookup-insert_ne k j v m h = ground (arith, lookup-insert k j v m, eq_iff k j)

  pub lookup-delete_self : (k : Str) (m : Dict V) → lookup k (delete k m) ≡ none
  lookup-delete_self k m = rw (lookup-delete, eq_refl k) refl

  pub lookup-delete_ne : (k j : Str) (m : Dict V) → k ≢ j → lookup j (delete k m) ≡ lookup j m
  lookup-delete_ne k j m h = ground (arith, lookup-delete k j m, eq_iff k j)

  pub lookup-update_all :
      (k : Str) (f : V → V) (m : Dict V) → lookup k (update_all f m) ≡ Option.map f (lookup k m)
  unfolding lookup update_all
  lookup-update_all k f [] = refl
  lookup-update_all k f ((i, w) ∷ m) = ground (arith, lookup-update_all k f m)

  pub lookup-modify :
      (k j : Str) (f : V → V) (m : Dict V)
      → lookup j (modify k f m) ≡ (if k == j then Option.map f (lookup j m) else lookup j m)
  unfolding lookup modify
  lookup-modify k j f [] = ground arith
  lookup-modify k j f ((i, w) ∷ m) =
      ground (arith, eq_iff k j, eq_iff i k, eq_iff i j, lookup-modify k j f m)

  pub lookup-modify_self :
      (k : Str) (f : V → V) (m : Dict V) → lookup k (modify k f m) ≡ Option.map f (lookup k m)
  lookup-modify_self k f m = rw (lookup-modify, eq_refl k) refl

  pub lookup-modify_ne :
      (k j : Str) (f : V → V) (m : Dict V) → k ≢ j → lookup j (modify k f m) ≡ lookup j m
  lookup-modify_ne k j f m h = ground (arith, lookup-modify k j f m, eq_iff k j)

  pub keys-update_all : (f : V → V) (m : Dict V) → keys (update_all f m) ≡ keys m
  unfolding update_all
  keys-update_all f [] = refl
  keys-update_all f ((j, v) ∷ m) = ap (λ (l : List Str). j ∷ l) (keys-update_all f m)

  pub keys-modify : (k : Str) (f : V → V) (m : Dict V) → keys (modify k f m) ≡ keys m
  unfolding modify
  keys-modify k f [] = refl
  keys-modify k f ((j, v) ∷ m) = ground (arith, keys-modify k f m)

  pub update_all_idem :
      (f : V → V) (m : Dict V)
      → ((v : V) → f (f v) ≡ f v)
      → update_all f (update_all f m) ≡ update_all f m
  unfolding update_all
  update_all_idem f [] h = refl
  update_all_idem f ((j, v) ∷ m) h = cc (h v, update_all_idem f m h)
