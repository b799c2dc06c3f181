-- ===== src/Dict/Distinct.antt =====
-- Go's maps hold a key once, and what holds of all their values.
use mezzium.Base.{◌≡◌, refl, sym, subst, ◌≢◌, inl, inr, some, [], ◌∷◌, arith, Bool-cases, All}
use mezzium.Text.{Str, ◌==◌}
use mezzium.Text.Laws.{eq_iff, eq_refl, eq_of_test}
use mezzium.Dict.{Dict, lookup, insert, update_all, modify, keys}
use mezzium.Dict.Laws.{lookup-insert, lookup-update_all, lookup-modify}
use mathlib.Core.Option

module _ {ℓ} {V : Type ℓ} where
  -- No key occurs twice.
  abbrev pub DistinctKeys : Dict V → Type 0
  DistinctKeys [] = Unit
  DistinctKeys ((k, v) ∷ m) = All (λ (j : Str). j ≢ k) (keys m) × DistinctKeys m

  keys-insert-All :
      (P : Str → Type 0) (k : Str) (v : V) (m : Dict V)
      → P k
      → All P (keys m)
      → All P (keys (insert k v m))
  unfolding insert
  keys-insert-All P k v [] p h = (p, tt)
  keys-insert-All P k v ((j, w) ∷ m) p h = elim (Bool-cases (j == k)) [
    | inl e ↦ rw (e, insert) (p, h.1)
    | inr e ↦ rw (e, insert) (h.0, keys-insert-All P k v m p h.1)
  ]

  pub insert-DistinctKeys :
      (k : Str) (v : V) (m : Dict V) → DistinctKeys m → DistinctKeys (insert k v m)
  unfolding insert
  insert-DistinctKeys k v [] h = (tt, tt)
  insert-DistinctKeys k v ((j, w) ∷ m) h = elim (Bool-cases (j == k)) [
    | inl e ↦
        rw (e, insert) (subst (λ i. All (λ (x : Str). x ≢ i) (keys m)) ((eq_iff j k).0 e) h.0, h.1)
    | inr e ↦
        rw (e, insert)
          (
            keys-insert-All (λ (x : Str). x ≢ j) k v m
                (λ q. ground (arith, e, (eq_iff j k).1 (sym q))) h.0,
            insert-DistinctKeys k v m h.1,
          )
  ]

  -- Maps with the same keys.
  pub DistinctKeys-of_keys : (m n : Dict V) → keys m ≡ keys n → DistinctKeys n → DistinctKeys m
  DistinctKeys-of_keys [] n e h = tt
  DistinctKeys-of_keys ((k, v) ∷ m) [] e h = absurd (cc e)
  DistinctKeys-of_keys ((k, v) ∷ m) ((j, w) ∷ n) e h =
      let rest : keys m ≡ keys n = cc e in
      let same : j ≡ k = cc e in
      (
        subst (λ i. All (λ (x : Str). x ≢ i) (keys m)) same
            (subst (λ ks. All (λ (x : Str). x ≢ j) ks) (sym rest) h.0),
        DistinctKeys-of_keys m n rest h.1,
      )

  lookup_behind :
      (k : Str) (v : V) (m n : Dict V)
      → All (λ (j : Str). j ≢ k) (keys n)
      → All (λ (e : Str × V). lookup e.0 m ≡ some e.1) n
      → All (λ (e : Str × V). lookup e.0 ((k, v) ∷ m) ≡ some e.1) n
  unfolding lookup
  lookup_behind k v m [] ne h = tt
  lookup_behind k v m ((j, w) ∷ n) ne h =
      (ground (arith, h.0, ne.0, eq_iff k j), lookup_behind k v m n ne.1 h.1)

  -- What is found of an entry of the map.
  pub lookup-entries :
      (m : Dict V) → DistinctKeys m → All (λ (e : Str × V). lookup e.0 m ≡ some e.1) m
  unfolding lookup
  lookup-entries [] h = tt
  lookup-entries ((k, v) ∷ m) h =
      (rw (eq_refl k) refl, lookup_behind k v m m h.0 (lookup-entries m h.1))

module _ {ℓ κ} {V : Type ℓ} (P : Str → V → Type κ) where
  -- Each value that is found has the property.
  abbrev pub Holds : Dict V → Type (ℓ ⊔ κ)
  Holds m = (k : Str) (v : V) → lookup k m ≡ some v → P k v

  pub insert-Holds : (k : Str) (v : V) (m : Dict V) → P k v → Holds m → Holds (insert k v m)
  insert-Holds k v m p h j w e = elim (Bool-cases (k == j)) [
    | inl same ↦
        subst (P j) (cc (lookup-insert k j v m, same, e))
          (subst (λ i. P i v) (eq_of_test k j same) p)
    | inr other ↦ h j w (cc (lookup-insert k j v m, other, e))
  ]

  pub modify-Holds :
      (k : Str) (f : V → V) (m : Dict V)
      → ((v : V) → lookup k m ≡ some v → P k v → P k (f v))
      → Holds m
      → Holds (modify k f m)
  modify-Holds k f m p h j w e = elim (Bool-cases (k == j)) [
    | inl same ↦
        let (old, found, new) = (Option.map-eq-some_iff _ _).0 (rw (lookup-modify, same) at e) in
        let at_k : lookup k m ≡ some old = rw (eq_of_test k j same) found in
        subst (P j) new (subst (λ i. P i (f old)) (eq_of_test k j same) (p old at_k (h k old at_k)))
    | inr other ↦ h j w (cc (lookup-modify k j f m, other, e))
  ]

  pub update_all-Holds :
      (f : V → V) (m : Dict V)
      → ((i : Str) (v : V) → P i v → P i (f v))
      → Holds m
      → Holds (update_all f m)
  update_all-Holds f m p h j w e =
      let (old, found, new) = (Option.map-eq-some_iff _ _).0 (rw lookup-update_all at e) in
      rw (← new) (p j old (h j old found))
