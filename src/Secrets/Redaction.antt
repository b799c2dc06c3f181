-- ===== src/Secrets/Redaction.antt =====
-- RedactString of pkg/secrets leaves no trace of the values.
use mezzium.Base.{
  ℕ, zero, suc, ◌-◌, ◌≡◌, refl, sym, subst, ◌≢◌, ◌⊎◌, inl, inr, true, false, List, [], ◌∷◌, ◌++◌,
  arith, Bool-cases, length, In, All,
}
use mezzium.Text.{Str, ◌==◌, has_prefix, contains}
use mezzium.Secrets.{hide, redact_string, hidden, replace_from, hidden, redact_string}

-- A byte that is none of a text.
abbrev pub Lacks : ℕ → Str → Type 0
Lacks b s = All (λ (c : ℕ). c ≢ b) s

has_prefix-cons :
    (c d : ℕ) (s t : Str) → has_prefix (c ∷ s) (d ∷ t) ≡ true → (c ≡ d) × (has_prefix s t ≡ true)
unfolding has_prefix
has_prefix-cons c d s t h = ground (arith, h)

has_prefix-nil : (s : Str) → has_prefix s [] ≡ true
unfolding has_prefix
has_prefix-nil [] = refl
has_prefix-nil (c ∷ s) = refl

-- The mark that is put in the place of a value shares no byte with a text.
abbrev pub IsUnmarked : Str → Type 0
IsUnmarked t = All (λ (b : ℕ). Lacks b hidden) t

hidden-Lacks :
    (d : ℕ) (x : Str) (t : Str) → Lacks d hidden → has_prefix (hidden ++ x) (d ∷ t) ≡ false
unfolding has_prefix hidden
hidden-Lacks d x t h = ground (arith, h.0)

has_prefix-cons_back :
    (c d : ℕ) (s t : Str) → c ≡ d → has_prefix s t ≡ true → has_prefix (c ∷ s) (d ∷ t) ≡ true
unfolding has_prefix
has_prefix-cons_back c d s t e h = ground (arith, e, h)

contains-cases :
    (c : ℕ) (s t : Str)
    → contains (c ∷ s) t ≡ true
    → (has_prefix (c ∷ s) t ≡ true) ⊎ (contains s t ≡ true)
unfolding contains
contains-cases c s t h = ground (arith, h)

contains_prefix : (c : ℕ) (s t : Str) → has_prefix (c ∷ s) t ≡ true → contains (c ∷ s) t ≡ true
unfolding contains
contains_prefix c s t h = ground (arith, h)

contains_later : (c : ℕ) (s t : Str) → contains s t ≡ true → contains (c ∷ s) t ≡ true
unfolding contains
contains_later c s t h = ground (arith, h)

contains_skip :
    (m x : Str) (d : ℕ) (t : Str)
    → Lacks d m
    → contains (m ++ x) (d ∷ t) ≡ true
    → contains x (d ∷ t) ≡ true
contains_skip [] x d t h k = k
contains_skip (c ∷ m) x d t h k = elim (contains-cases c (m ++ x) (d ∷ t) k) [
  | inl p ↦ absurd (h.0 (has_prefix-cons c d (m ++ x) t p).0)
  | inr i ↦ contains_skip m x d t h.1 i
]

module _ (old : Str) where
  abbrev replaced : ℕ → Str → Str
  replaced skip s = replace_from skip old hidden s

  replaced_match :
      (c : ℕ) (s : Str)
      → has_prefix (c ∷ s) old ≡ true
      → replaced zero (c ∷ s) ≡ hidden ++ replaced (length old - 1) s
  unfolding replace_from
  replaced_match c s e = rw (e, replace_from) refl

  replaced_keep :
      (c : ℕ) (s : Str)
      → has_prefix (c ∷ s) old ≡ false
      → replaced zero (c ∷ s) ≡ c ∷ replaced zero s
  unfolding replace_from
  replaced_keep c s e = rw (e, replace_from) refl

  has_prefix-replaced :
      (s : Str) (d : ℕ) (t : Str)
      → IsUnmarked (d ∷ t)
      → has_prefix (replaced zero s) (d ∷ t) ≡ true
      → has_prefix s (d ∷ t) ≡ true
  unfolding replace_from
  has_prefix-replaced [] d t u h = h
  has_prefix-replaced (c ∷ s) d t u h = elim (Bool-cases (has_prefix (c ∷ s) old)) [
    | inl e ↦ absurd (
        cc (
          subst (λ x. has_prefix x (d ∷ t) ≡ true) (replaced_match c s e) h,
          hidden-Lacks d (replaced (length old - 1) s) t u.0,
        ))
    | inr e ↦
        let (same, rest) =
          has_prefix-cons c d (replaced zero s) t
            (subst (λ x. has_prefix x (d ∷ t) ≡ true) (replaced_keep c s e) h) in
        has_prefix-cons_back c d s t same (rest_prefix t u.1 rest (has_prefix-replaced s))
  ]
    where
      rest_prefix :
          (t' : Str)
          → IsUnmarked t'
          → has_prefix (replaced zero s) t' ≡ true
          → ((d' : ℕ) (t'' : Str)
              → IsUnmarked (d' ∷ t'')
              → has_prefix (replaced zero s) (d' ∷ t'') ≡ true
              → has_prefix s (d' ∷ t'') ≡ true)
          → has_prefix s t' ≡ true
      rest_prefix [] v k later = has_prefix-nil s
      rest_prefix (d' ∷ t'') v k later = later d' t'' v k

  contains-replaced :
      (skip : ℕ) (s : Str) (d : ℕ) (t : Str)
      → IsUnmarked (d ∷ t)
      → contains (replaced skip s) (d ∷ t) ≡ true
      → contains s (d ∷ t) ≡ true
  unfolding replace_from
  contains-replaced zero [] d t u h = h
  contains-replaced (suc skip) [] d t u h = h
  contains-replaced (suc skip) (c ∷ s) d t u h =
      contains_later c s (d ∷ t) (contains-replaced skip s d t u h)
  contains-replaced zero (c ∷ s) d t u h = elim (Bool-cases (has_prefix (c ∷ s) old)) [
    | inl e ↦ contains_later c s (d ∷ t) (
        contains-replaced (length old - 1) s d t u (
          contains_skip hidden (replaced (length old - 1) s) d t u.0
            (subst (λ x. contains x (d ∷ t) ≡ true) (replaced_match c s e) h)))
    | inr e ↦
        elim (contains-cases c (replaced zero s) (d ∷ t)
          (subst (λ x. contains x (d ∷ t) ≡ true) (replaced_keep c s e) h)) [
            | inl p ↦ contains_prefix c s (d ∷ t) (
                has_prefix-replaced (c ∷ s) d t u
                  (subst (λ x. has_prefix x (d ∷ t) ≡ true) (sym (replaced_keep c s e)) p))
            | inr i ↦ contains_later c s (d ∷ t) (contains-replaced zero s d t u i)
          ]
  ]

module _ (d : ℕ) (t : Str) (u : IsUnmarked (d ∷ t)) where
  -- A value that is replaced is gone.
  replaced_gone : (skip : ℕ) (s : Str) → ¬ (contains (replaced (d ∷ t) skip s) (d ∷ t) ≡ true)
  unfolding replace_from contains has_prefix
  replaced_gone zero [] h = cc h
  replaced_gone (suc skip) [] h = cc h
  replaced_gone (suc skip) (c ∷ s) h = replaced_gone skip s h
  replaced_gone zero (c ∷ s) h = elim (Bool-cases (has_prefix (c ∷ s) (d ∷ t))) [
    | inl e ↦ replaced_gone (length (d ∷ t) - 1) s (
        contains_skip hidden (replaced (d ∷ t) (length (d ∷ t) - 1) s) d t u.0
          (subst (λ x. contains x (d ∷ t) ≡ true) (replaced_match (d ∷ t) c s e) h))
    | inr e ↦
        elim (contains-cases c (replaced (d ∷ t) zero s) (d ∷ t)
          (subst (λ x. contains x (d ∷ t) ≡ true) (replaced_keep (d ∷ t) c s e) h)) [
            | inl p ↦ cc (
              e,
              has_prefix-replaced (d ∷ t) (c ∷ s) d t u
                  (subst (λ x. has_prefix x (d ∷ t) ≡ true) (sym (replaced_keep (d ∷ t) c s e)) p),
            )
            | inr i ↦ replaced_gone zero s i
          ]
  ]

  contains-hide : (val s : Str) → contains (hide val s) (d ∷ t) ≡ true → contains s (d ∷ t) ≡ true
  unfolding hide ◌==◌
  contains-hide [] s h = h
  contains-hide (c ∷ val) s h = contains-replaced (c ∷ val) zero s d t u h

  contains-redact_string :
      (vals : List Str) (s : Str)
      → contains (redact_string vals s) (d ∷ t) ≡ true
      → contains s (d ∷ t) ≡ true
  unfolding redact_string
  contains-redact_string [] s h = h
  contains-redact_string (val ∷ vals) s h =
      contains-hide val s (contains-redact_string vals (hide val s) h)

  hidden_gone : (s : Str) → ¬ (contains (hide (d ∷ t) s) (d ∷ t) ≡ true)
  unfolding hide ◌==◌
  hidden_gone s h = replaced_gone zero s h

  redacted_gone :
      (vals : List Str) (s : Str)
      → In (d ∷ t) vals
      → ¬ (contains (redact_string vals s) (d ∷ t) ≡ true)
  unfolding redact_string
  redacted_gone [] s i h = absurd i
  redacted_gone (val ∷ vals) s (inl e) h = hidden_gone s (
      subst (λ v. contains (hide v s) (d ∷ t) ≡ true) (sym e)
        (contains-redact_string vals (hide val s) h))
  redacted_gone (val ∷ vals) s (inr i) h = redacted_gone vals (hide val s) i h

-- A value that is to be hidden, is not empty and has no byte of the mark "[HIDDEN]", does not occur
-- in a text that RedactString has gone over, whatever the other values are.
pub contains-redact_string_none :
    (vals : List Str) (s v : Str)
    → In v vals
    → v ≢ []
    → IsUnmarked v
    → contains (redact_string vals s) v ≡ false
contains-redact_string_none vals s [] i ne u = absurd (ne refl)
contains-redact_string_none vals s (d ∷ t) i ne u =
    elim (Bool-cases (contains (redact_string vals s) (d ∷ t))) [
      | inl h ↦ absurd (redacted_gone d t u vals s i h)
      | inr h ↦ h
    ]
