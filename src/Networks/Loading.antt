-- ===== src/Networks/Loading.antt =====
-- Which directories pkg/networks/loader.go loads, and what it makes of their files.
use mezzium.Base.{
  ◌≡◌, refl, sym, ap, ◌∙◌, subst, ◌⊎◌, inl, inr, Option, none, some, List, [], ◌∷◌, Bool-cases,
  Option-cases, In,
}
use mezzium.Text.{Str, ◌==◌}
use mezzium.Text.Laws.{eq_iff}
use mezzium.Dict.{Dict, lookup, insert}
use mezzium.Dict.Laws.{lookup-insert, lookup-insert_self}
use mezzium.Networks.{NetworkConfig}
use mezzium.Networks.Loader.{
  Entry, LoadError, key_of, config_of, add_network, load_entries, load_all,
}
use mezzium.Networks.Configs.{Describes, Fails, config_of-Describes, config_of-Fails}
use mezzium.Networks.Files.{IsFile, key_of_iff}

abbrev pub Has : Str → Dict NetworkConfig → Type 0
Has k out = (nc : NetworkConfig) × (lookup k out ≡ some nc)

Has-insert :
    (k : Str) (nc : NetworkConfig) (j : Str) (before : Dict NetworkConfig)
    → Has j before
    → Has j (insert k nc before)
Has-insert k nc j before (n, h) = elim (Bool-cases (k == j)) [
  | inl e ↦ (nc, rw (lookup-insert k j nc before, e) refl)
  | inr e ↦ (n, rw (lookup-insert k j nc before, e) h)
]

lookup-insert_inv :
    (k j : Str) (nc n : NetworkConfig) (before : Dict NetworkConfig)
    → lookup j (insert k nc before) ≡ some n
    → ((k ≡ j) × (nc ≡ n)) ⊎ (lookup j before ≡ some n)
lookup-insert_inv k j nc n before h = elim (Bool-cases (k == j)) [
  | inl e ↦ inl ((eq_iff k j).0 e, cc (subst (λ x. x ≡ some n) (lookup-insert k j nc before) h, e))
  | inr e ↦ inr (cc (lookup-insert k j nc before, e, h))
]

result-cases :
    (r : LoadError ⊎ NetworkConfig)
    → ((err : LoadError) × (r ≡ inl err)) ⊎ ((nc : NetworkConfig) × (r ≡ inr nc))
result-cases (inl err) = inl (err, refl)
result-cases (inr nc) = inr (nc, refl)

module _ (parse : Str → Option NetworkConfig) (getenv : Str → Str) where
  load_step_none :
      (e : Entry) (es : List Entry) (out : Dict NetworkConfig)
      → key_of e ≡ none
      → load_entries parse getenv (e ∷ es) out ≡ load_entries parse getenv es out
  unfolding load_entries add_network
  load_step_none e es out h = rw (h, load_entries) refl

  load_step_inl :
      (e : Entry) (es : List Entry) (out : Dict NetworkConfig) (k : Str) (err : LoadError)
      → key_of e ≡ some k
      → config_of parse getenv e ≡ inl err
      → load_entries parse getenv (e ∷ es) out ≡ inl err
  unfolding load_entries add_network
  load_step_inl e es out k err h c = rw (h, c, load_entries) refl

  load_step_inr :
      (e : Entry) (es : List Entry) (out : Dict NetworkConfig) (k : Str) (nc : NetworkConfig)
      → key_of e ≡ some k
      → config_of parse getenv e ≡ inr nc
      → load_entries parse getenv (e ∷ es) out ≡ load_entries parse getenv es (insert k nc out)
  unfolding load_entries add_network
  load_step_inr e es out k nc h c = rw (h, c, load_entries) refl

  -- What loading gives: the error of a file that is read, or the networks of the files.
  abbrev LoadsFrom : List Entry → Dict NetworkConfig → LoadError ⊎ Dict NetworkConfig → Type 0
  LoadsFrom es before (inl err) =
      (e : Entry) × (k : Str) × In e es × (key_of e ≡ some k) × (config_of parse getenv e ≡ inl err)
  LoadsFrom es before (inr out) =
      ((k : Str) → Has k before → Has k out)
      × ((e : Entry) (k : Str) → In e es → key_of e ≡ some k → Has k out)
      × ((k : Str) (nc : NetworkConfig)
          → lookup k out ≡ some nc
          → (lookup k before ≡ some nc)
            ⊎ ((e : Entry) × In e es × (key_of e ≡ some k) × (config_of parse getenv e ≡ inr nc)))

  skipped :
      (e : Entry) (es : List Entry) (before : Dict NetworkConfig)
      (r : LoadError ⊎ Dict NetworkConfig)
      → key_of e ≡ none
      → LoadsFrom es before r
      → LoadsFrom (e ∷ es) before r
  skipped e es before (inl err) nk (e', k, i, ke, ce) = (e', k, inr i, ke, ce)
  skipped e es before (inr out) nk (kept, all, from) = (
    kept,
    (λ e' k i ke. elim i [ inl same ↦ absurd (cc (same, nk, ke)) | inr i' ↦ all e' k i' ke ]),
    (λ k nc h. elim (from k nc h) [
      | inl old ↦ inl old
      | inr (e', i, ke, ce) ↦ inr (e', inr i, ke, ce)
    ]),
  )

  added :
      (e : Entry) (es : List Entry) (before : Dict NetworkConfig) (k : Str) (nc : NetworkConfig)
      (r : LoadError ⊎ Dict NetworkConfig)
      → key_of e ≡ some k
      → config_of parse getenv e ≡ inr nc
      → LoadsFrom es (insert k nc before) r
      → LoadsFrom (e ∷ es) before r
  added e es before k nc (inl err) sk ci (e', k', i, ke, ce) = (e', k', inr i, ke, ce)
  added e es before k nc (inr out) sk ci (kept, all, from) = (
    (λ j has. kept j (Has-insert k nc j before has)),
    (λ e' j i ke. elim i [
      | inl same ↦
          let kj : k ≡ j = cc (same, sk, ke) in
          kept j (subst (λ x. Has x (insert k nc before)) kj (nc, lookup-insert_self k nc before))
      | inr i' ↦ all e' j i' ke
    ]),
    (λ j n h. elim (from j n h) [
      | inl l ↦ elim (lookup-insert_inv k j nc n before l) [
        | inl (kj, same) ↦ inr (e, inl refl, sk ∙ ap some kj, ci ∙ ap inr same)
        | inr old ↦ inl old
      ]
      | inr (e', i, ke, ce) ↦ inr (e', inr i, ke, ce)
    ]),
  )

  load_entries-LoadsFrom :
      (es : List Entry) (before : Dict NetworkConfig)
      → LoadsFrom es before (load_entries parse getenv es before)
  unfolding load_entries
  load_entries-LoadsFrom [] before = ((λ k h. h), (λ e k i ke. absurd i), (λ k nc h. inl h))
  load_entries-LoadsFrom (e ∷ es) before = elim (Option-cases (key_of e)) [
    | inl nk ↦ subst (LoadsFrom (e ∷ es) before) (sym (load_step_none e es before nk)) (
        skipped e es before (load_entries parse getenv es before) nk
          (load_entries-LoadsFrom es before))
    | inr (k, sk) ↦ elim (result-cases (config_of parse getenv e)) [
      | inl (err, ce) ↦
          subst (LoadsFrom (e ∷ es) before) (sym (load_step_inl e es before k err sk ce))
            (e, k, inl refl, sk, ce)
      | inr (nc, ci) ↦
          subst (LoadsFrom (e ∷ es) before) (sym (load_step_inr e es before k nc sk ci)) (
            added e es before k nc (load_entries parse getenv es (insert k nc before)) sk ci
              (load_entries-LoadsFrom es (insert k nc before)))
    ]
  ]

  -- The error of one of the files that are read, or networks that are just those of the files.
  abbrev pub Loads : List Entry → LoadError ⊎ Dict NetworkConfig → Type 0
  Loads es (inl err) = (e : Entry) × (k : Str) × In e es × IsFile e k × Fails parse getenv e err
  Loads es (inr out) =
      ((e : Entry) (k : Str) → In e es → IsFile e k → Has k out)
      × ((k : Str) (nc : NetworkConfig)
          → lookup k out ≡ some nc
          → (e : Entry) × In e es × IsFile e k × Describes parse getenv e nc)

  LoadsFrom-Loads :
      (es : List Entry) (r : LoadError ⊎ Dict NetworkConfig) → LoadsFrom es [] r → Loads es r
  unfolding lookup
  LoadsFrom-Loads es (inl err) (e, k, i, ke, ce) =
      (e, k, i, (key_of_iff e k).0 ke, config_of-Fails parse getenv e err ce)
  LoadsFrom-Loads es (inr out) (kept, all, from) = (
    (λ e k i file. all e k i ((key_of_iff e k).1 file)),
    (λ k nc h. elim (from k nc h) [
      | inl old ↦ absurd (cc old)
      | inr (e, i, ke, ce) ↦ (e, i, (key_of_iff e k).0 ke, config_of-Describes parse getenv e nc ce)
    ]),
  )

  -- LoadAll on a directory that can be read either gives the error of a file "….yaml" in it (it
  -- cannot be read or decoded, or has no route or no protocol), or it gives a network under the name
  -- of each such file and nothing else: each network is the decoded text of a file of its name, the
  -- placeholders replaced by the variables of the environment and a priority of 0 by 1, with a
  -- route, a protocol and no node of priority 0.
  pub load_all-Loads : (es : List Entry) → Loads es (load_all parse getenv (some es))
  unfolding load_all
  load_all-Loads es =
      LoadsFrom-Loads es (load_entries parse getenv es []) (load_entries-LoadsFrom es [])
