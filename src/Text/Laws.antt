-- ===== src/Text/Laws.antt =====
-- Equality and the order of byte strings.
use mezzium.Base.{
  if◌then◌else◌, ◌≢◌, inr, inl, Bool-cases, ◌≡◌, refl, ◌↔◌, true, false, [], ◌∷◌, arith,
}
use mezzium.Text.{Str, ◌==◌, str_lt}

pub eq_iff : (s t : Str) → ((s == t) ≡ true) ↔ (s ≡ t)
unfolding ◌==◌
eq_iff [] [] = (λ h. refl, λ h. refl)
eq_iff [] (d ∷ t) = ground arith
eq_iff (c ∷ s) [] = ground arith
eq_iff (c ∷ s) (d ∷ t) = ground (arith, eq_iff s t)

pub eq_refl : (s : Str) → (s == s) ≡ true
eq_refl s = (eq_iff s s).1 refl

pub eq_of_test : (s t : Str) → (s == t) ≡ true → s ≡ t
eq_of_test s t = (eq_iff s t).0

pub str_lt_irrefl : (s : Str) → str_lt s s ≡ false
unfolding str_lt
str_lt_irrefl [] = refl
str_lt_irrefl (c ∷ s) = ground (arith, str_lt_irrefl s)

pub str_lt_trans : (s t u : Str) → str_lt s t ≡ true → str_lt t u ≡ true → str_lt s u ≡ true
unfolding str_lt
str_lt_trans s t [] h k = ground arith
str_lt_trans s [] (e ∷ u) h k = ground arith
str_lt_trans [] (d ∷ t) (e ∷ u) h k = refl
str_lt_trans (c ∷ s) (d ∷ t) (e ∷ u) h k = ground (arith, str_lt_trans s t u)

-- Neither is before the other only if they are the same.
pub str_lt_total : (s t : Str) → str_lt s t ≡ false → str_lt t s ≡ false → s ≡ t
unfolding str_lt
str_lt_total [] [] h k = refl
str_lt_total [] (d ∷ t) h k = ground arith
str_lt_total (c ∷ s) [] h k = ground arith
str_lt_total (c ∷ s) (d ∷ t) h k = ground (arith, str_lt_total s t)

pub str_lt_asym : (s t : Str) → str_lt s t ≡ true → str_lt t s ≡ false
str_lt_asym s t h = elim (Bool-cases (str_lt t s)) [
  | inl k ↦ cc (str_lt_trans s t s h k, str_lt_irrefl s)
  | inr k ↦ k
]

pub ne_of_test : (a b : Str) → (a == b) ≡ false → a ≢ b
ne_of_test a b f e = ground (arith, eq_iff a b)

pub copied_unless_empty : (s : Str) → (if s == [] then [] else s) ≡ s
unfolding ◌==◌
copied_unless_empty [] = refl
copied_unless_empty (c ∷ s) = refl
