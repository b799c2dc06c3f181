-- ===== src/Networks/Files.antt =====
-- Which entries of a directory pkg/networks/loader.go reads, and under which names.
use mezzium.Base.{
  ℕ, ◌≡◌, refl, ap, ◌∙◌, ◌↔◌, inl, inr, false, some, [], ◌∷◌, ◌++◌, arith, Bool-cases, Option-cases,
  length, length-append,
}
use mezzium.Text.{Str, str, ◌==◌}
use mezzium.Text.Laws.{eq_refl, eq_of_test}
use mezzium.Networks.Loader.{Entry, key_of, strip_suffix}

-- A file, no directory, whose name is that of a network and ".yaml".
abbrev pub IsFile : Entry → Str → Type 0
IsFile e k = (e.is_dir ≡ false) × (e.name ≡ k ++ str ".yaml")

strip_suffix-some : (suffix s k : Str) → strip_suffix suffix s ≡ some k → s ≡ k ++ suffix
unfolding strip_suffix
strip_suffix-some suffix [] k h = elim (Bool-cases ([] == suffix)) [
  | inl e ↦
      let none_left : [] ≡ k = cc (e, h) in
      eq_of_test [] suffix e ∙ ap (λ (x : Str). x ++ suffix) none_left
  | inr e ↦ absurd (cc (e, h))
]
strip_suffix-some suffix (c ∷ s) k h = elim (Bool-cases (c ∷ s == suffix)) [
  | inl e ↦
      let none_left : [] ≡ k = cc (e, h) in
      eq_of_test (c ∷ s) suffix e ∙ ap (λ (x : Str). x ++ suffix) none_left
  | inr e ↦ elim (Option-cases (strip_suffix suffix s)) [
    | inl n ↦ absurd (cc (e, n, h))
    | inr (r, n) ↦
        let more : c ∷ r ≡ k = cc (e, n, h) in
        ap (λ (x : Str). c ∷ x) (strip_suffix-some suffix s r n)
        ∙ ap (λ (x : Str). x ++ suffix) more
  ]
]

longer_ne : (c : ℕ) (k suffix : Str) → (c ∷ (k ++ suffix) == suffix) ≡ false
longer_ne c k suffix = elim (Bool-cases (c ∷ (k ++ suffix) == suffix)) [
  | inl e ↦
      let same : length (c ∷ (k ++ suffix)) ≡ length suffix = ap length (eq_of_test _ suffix e) in
      absurd (ground (arith, same, length-append k suffix))
  | inr e ↦ e
]

strip_suffix_of : (d : ℕ) (end k : Str) → strip_suffix (d ∷ end) (k ++ d ∷ end) ≡ some k
unfolding strip_suffix
strip_suffix_of d end [] = rw (eq_refl (d ∷ end), strip_suffix) refl
strip_suffix_of d end (c ∷ k) =
    rw (longer_ne c k (d ∷ end), strip_suffix_of d end k, strip_suffix) refl

pub key_of_iff : (e : Entry) (k : Str) → (key_of e ≡ some k) ↔ IsFile e k
unfolding key_of
key_of_iff e k = elim (Bool-cases e.is_dir) [
  | inl d ↦ ((λ h. absurd (cc (d, h))), (λ h. absurd (cc (d, h.0))))
  | inr f ↦ (
    (λ h. (f, strip_suffix-some (str ".yaml") e.name k (cc (f, h)))),
    (λ h.
        rw (f, key_of) (ap (strip_suffix (str ".yaml")) h.1 ∙ strip_suffix_of b'.' (str "yaml") k)),
  )
]
