-- ===== src/Networks/Placeholders.antt =====
-- What pkg/networks/loader.go makes of the placeholders in a text.
use mezzium.Base.{
  ℕ, zero, suc, ◌≤◌, ◌≡◌, refl, sym, ap, ◌∙◌, subst, ◌≢◌, ◌↔◌, ◌⊎◌, inl, inr, true, some, [], ◌∷◌,
  ◌++◌, arith, eqb, eqb_iff, Bool-cases, Option-cases, length, All,
}
use mezzium.Text.{Str, str, strip_prefix, split}
use mezzium.Networks.Loader.{expand, placeholder, closed, name_run, is_name_byte}
use mezzium.Networks.Expansion.{expand-some, expand-none, placeholder_lem}

-- A capital letter, a digit or an underscore.
abbrev pub IsNameByte : ℕ → Type 0
IsNameByte c = ((65 ≤ c) × (c ≤ 90)) ⊎ ((48 ≤ c) × (c ≤ 57)) ⊎ (c ≡ 95)

abbrev pub IsName : Str → Type 0
IsName var = (var ≢ []) × All IsNameByte var

-- The text with the placeholders ${VAR} replaced, from left to right, by the values of their
-- variables, which are not expanded again, and all other bytes as they are.
pub data Expands (getenv : Str → Str) : Str → Str → Type 0 where
  ends : Expands getenv [] []
  byte :
      {c : ℕ} {s t : Str}
      → ((var rest : Str) → IsName var → c ∷ s ≢ str "${" ++ (var ++ b'}' ∷ rest))
      → Expands getenv s t
      → Expands getenv (c ∷ s) (c ∷ t)
  value :
      {var rest t : Str}
      → IsName var
      → Expands getenv rest t
      → Expands getenv (str "${" ++ (var ++ b'}' ∷ rest)) (getenv var ++ t)

is_name_byte_iff : (c : ℕ) → (is_name_byte c ≡ true) ↔ IsNameByte c
unfolding is_name_byte
is_name_byte_iff c = ((λ h. ground (arith, h)), (λ h. ground (arith, h)))

name_run_split : (s : Str) → (s ≡ (name_run s).0 ++ (name_run s).1) × All IsNameByte (name_run s).0
unfolding name_run
name_run_split [] = (refl, tt)
name_run_split (c ∷ s) = elim (Bool-cases (is_name_byte c)) [
  | inl e ↦
      let (split, all) = name_run_split s in
      rw (e, name_run) (ap (λ (t : Str). c ∷ t) split, ((is_name_byte_iff c).0 e, all))
  | inr e ↦ rw (e, name_run) (refl, tt)
]

closed-some :
    (p : Str × Str) (var : Str)
    → closed p ≡ some var
    → (rest : Str) × (p.0 ≡ var) × (var ≢ []) × (p.1 ≡ b'}' ∷ rest)
unfolding closed
closed-some ([], rest) var h = absurd (cc h)
closed-some (c ∷ run, []) var h = absurd (cc h)
closed-some (c ∷ run, d ∷ rest) var h = elim (Bool-cases (eqb d b'}')) [
  | inl e ↦
      let same : c ∷ run ≡ var = cc (e, h) in
      let last : d ≡ b'}' = (eqb_iff d b'}').0 e in
      (rest, same, (λ k. cc (same, k)), ap (λ (x : ℕ). x ∷ rest) last)
  | inr e ↦ absurd (cc (e, h))
]

strip_prefix-some : (s t rest : Str) → strip_prefix s t ≡ some rest → s ≡ t ++ rest
unfolding strip_prefix
strip_prefix-some s [] rest h = cc h
strip_prefix-some [] (d ∷ t) rest h = absurd (cc h)
strip_prefix-some (c ∷ s) (d ∷ t) rest h = elim (Bool-cases (eqb c d)) [
  | inl e ↦
      let same : c ≡ d = (eqb_iff c d).0 e in
      let more : s ≡ t ++ rest = strip_prefix-some s t rest (cc (e, h)) in cc (same, more)
  | inr e ↦ absurd (cc (e, h))
]

placeholder-some :
    (s var : Str)
    → placeholder s ≡ some var
    → (rest : Str) × IsName var × (s ≡ str "${" ++ (var ++ b'}' ∷ rest))
unfolding placeholder
placeholder-some s var h = elim (Option-cases (strip_prefix s (str "${"))) [
  | inl e ↦ absurd (cc (e, h))
  | inr (t, e) ↦
      let (rest, run, ne, last) = closed-some (name_run t) var (cc (e, h)) in
      let (split, all) = name_run_split t in
      (
        rest,
        (ne, subst (λ (v : Str). All IsNameByte v) run all),
        strip_prefix-some s (str "${") t e
            ∙ ap (λ (x : Str). str "${" ++ x)
                (split
                  ∙ ap (λ (x : Str). x ++ (name_run t).1) run
                  ∙ ap (λ (x : Str). var ++ x) last),
      )
]

All_names : (var : Str) → All IsNameByte var → All (λ (c : ℕ). is_name_byte c ≡ true) var
All_names [] h = tt
All_names (c ∷ var) h = ((is_name_byte_iff c).1 h.0, All_names var h.1)

placeholder_of :
    (var rest : Str) → IsName var → placeholder (str "${" ++ (var ++ b'}' ∷ rest)) ≡ some var
placeholder_of [] rest h = absurd (h.0 refl)
placeholder_of (c ∷ var) rest h = placeholder_lem c var rest (All_names (c ∷ var) h.1)

-- The text behind its first bytes.
abbrev drop : ℕ → Str → Str
drop zero s = s
drop (suc n) [] = []
drop (suc n) (c ∷ s) = drop n s

drop_name : (var rest : Str) → drop (suc (length var)) (var ++ b'}' ∷ rest) ≡ rest
drop_name [] rest = refl
drop_name (c ∷ var) rest = drop_name var rest

module _ (getenv : Str → Str) where
  expand_from : (k : ℕ) (s : Str) → Expands getenv (drop k s) (expand getenv k s)
  unfolding expand
  expand_from zero [] = ends
  expand_from (suc k) [] = ends
  expand_from (suc k) (c ∷ s) = expand_from k s
  expand_from zero (c ∷ s) = elim (Option-cases (placeholder (c ∷ s))) [
    | inl e ↦ subst (Expands getenv (c ∷ s)) (sym (expand-none getenv c s e)) (
        byte (λ var rest name same. cc (e, ap placeholder same, placeholder_of var rest name))
          (expand_from zero s))
    | inr (var, e) ↦
        let (rest, name, same) = placeholder-some (c ∷ s) var e in
        let tail : s ≡ b'{' ∷ (var ++ b'}' ∷ rest) = cc same in
        let behind : drop (suc (suc (length var))) s ≡ rest =
          ap (drop (suc (suc (length var)))) tail ∙ drop_name var rest in
        subst (Expands getenv (c ∷ s)) (sym (expand-some getenv c s var e)) (
          subst
            (λ (x : Str). Expands getenv x (getenv var ++ expand getenv (suc (suc (length var))) s))
            (sym same)
            (value name (
              subst (λ (x : Str). Expands getenv x (expand getenv (suc (suc (length var))) s))
                behind (expand_from (suc (suc (length var))) s))))
  ]

  -- Every text is expanded.
  pub expand-Expands : (s : Str) → Expands getenv s (expand getenv zero s)
  expand-Expands s = expand_from zero s
