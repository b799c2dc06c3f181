-- ===== src/Networks/Configs.antt =====
-- What pkg/networks/loader.go makes of one file.
use mezzium.Base.{
  zero, ◌≡◌, refl, sym, ap, ◌∙◌, subst, ◌≢◌, ◌⊎◌, inl, inr, Bool, true, false, ◌||◌, Option, none,
  some, List, [], ◌∷◌, map, arith, if◌then◌else◌, Bool-cases, Option-cases, All,
}
use mezzium.Text.{Str, ◌==◌}
use mezzium.Text.Laws.{eq_iff, eq_of_test}
use mezzium.Base.Int.{pos, eqb_ℤ, eqb_ℤ_iff}
use mezzium.Networks.{Node, NetworkConfig}
use mezzium.Networks.Placeholders.{Expands, expand-Expands}
use mezzium.Networks.Loader.{
  Entry, LoadError, incomplete, invalid, file_unreadable, config_of, checked, expand, with_defaults,
  with_priority,
}

-- A configuration that has what the loader requires.
abbrev pub IsReady : NetworkConfig → Type 0
IsReady nc = (nc.route ≢ []) × (nc.protocol ≢ []) × All (λ (n : Node). n.priority ≢ pos 0) nc.nodes

with_priority_lem : (n : Node) → (with_priority n).priority ≢ pos 0
unfolding with_priority
with_priority_lem n = elim (Bool-cases (eqb_ℤ n.priority (pos 0))) [
  | inl e ↦ rw (e, with_priority) (λ k. ground (arith, k))
  | inr e ↦ rw (e, with_priority) (λ k. cc (e, (eqb_ℤ_iff n.priority (pos 0)).1 k))
]

-- The nodes with a priority of 1 where there was none.
abbrev pub Defaulted : List Node → List Node → Type 0
Defaulted [] [] = Unit
Defaulted [] (m ∷ ms) = ⊥
Defaulted (n ∷ ns) [] = ⊥
Defaulted (n ∷ ns) (m ∷ ms) =
    (((n.priority ≢ pos 0) × (m ≡ n))
      ⊎ ((n.priority ≡ pos 0) × (m ≡ record n { priority = pos 1 })))
    × Defaulted ns ms

with_priority-cases :
    (n : Node)
    → ((n.priority ≢ pos 0) × (with_priority n ≡ n))
      ⊎ ((n.priority ≡ pos 0) × (with_priority n ≡ record n { priority = pos 1 }))
unfolding with_priority
with_priority-cases n = elim (Bool-cases (eqb_ℤ n.priority (pos 0))) [
  | inl e ↦ inr ((eqb_ℤ_iff n.priority (pos 0)).0 e, rw (e, with_priority) refl)
  | inr e ↦ inl ((λ k. cc (e, (eqb_ℤ_iff n.priority (pos 0)).1 k)), rw (e, with_priority) refl)
]

map-Defaulted : (ns : List Node) → Defaulted ns (map with_priority ns)
map-Defaulted [] = tt
map-Defaulted (n ∷ ns) = (with_priority-cases n, map-Defaulted ns)

nodes_ready : (ns : List Node) → All (λ (n : Node). n.priority ≢ pos 0) (map with_priority ns)
nodes_ready [] = tt
nodes_ready (n ∷ ns) = (with_priority_lem n, nodes_ready ns)

if-inr :
    (b : Bool) (err : LoadError) (a nc : NetworkConfig)
    → ◌≡◌ {A = LoadError ⊎ NetworkConfig} (if b then inl err else inr a) (inr nc)
    → (b ≡ false) × (a ≡ nc)
if-inr true err a nc h = absurd (cc h)
if-inr false err a nc h = (refl, cc h)

-- What the loader makes of a decoded file.
abbrev pub IsLoadedAs : NetworkConfig → NetworkConfig → Type 0
IsLoadedAs raw nc =
    (record nc { nodes = raw.nodes } ≡ raw) × Defaulted raw.nodes nc.nodes × IsReady nc

checked-none : (name : Str) → checked name none ≡ inl (invalid name)
unfolding checked
checked-none name = refl

checked-some :
    (name : Str) (raw nc : NetworkConfig) → checked name (some raw) ≡ inr nc → IsLoadedAs raw nc
unfolding checked with_defaults
checked-some name raw nc h =
    let (full, same) =
      if-inr (raw.route == [] || raw.protocol == []) (incomplete name) (with_defaults raw) nc h in
    (
      ap (λ (x : NetworkConfig). record x { nodes = raw.nodes }) (sym same),
      subst (λ (x : NetworkConfig). Defaulted raw.nodes x.nodes) same (map-Defaulted raw.nodes),
      subst IsReady same (
        (λ k. ground (arith, full, (eq_iff raw.route []).1 k)),
        (λ k. ground (arith, full, (eq_iff raw.protocol []).1 k)),
        nodes_ready raw.nodes,
      ),
    )

module _ (parse : Str → Option NetworkConfig) (getenv : Str → Str) where
  -- A file that is read and decoded, and the network that is kept.
  abbrev pub Describes : Entry → NetworkConfig → Type 0
  Describes e nc =
      (b : Str) × (text : Str) × (raw : NetworkConfig) × (e.content ≡ some b)
      × Expands getenv b text
      × (parse text ≡ some raw)
      × IsLoadedAs raw nc

  -- A file that cannot be read, or whose text cannot be decoded, or lacks a route or a protocol.
  abbrev pub Fails : Entry → LoadError → Type 0
  Fails e err =
      ((e.content ≡ none) × (err ≡ file_unreadable e.name))
      ⊎ ((b : Str) × (text : Str) × (e.content ≡ some b)
          × Expands getenv b text
          × (((parse text ≡ none) × (err ≡ invalid e.name))
              ⊎ ((raw : NetworkConfig) × (parse text ≡ some raw)
                  × ((raw.route ≡ []) ⊎ (raw.protocol ≡ []))
                  × (err ≡ incomplete e.name))))

  incomplete_of :
      (name : Str) (raw : NetworkConfig) (err : LoadError)
      → checked name (some raw) ≡ inl err
      → ((raw.route ≡ []) ⊎ (raw.protocol ≡ [])) × (err ≡ incomplete name)
  unfolding checked
  incomplete_of name raw err h = elim (Bool-cases (raw.route == [])) [
    | inl r ↦ (inl (eq_of_test raw.route [] r), cc (r, h))
    | inr r ↦ elim (Bool-cases (raw.protocol == [])) [
      | inl q ↦ (inr (eq_of_test raw.protocol [] q), cc (r, q, h))
      | inr q ↦ absurd (cc (r, q, h))
    ]
  ]

  config_none :
      (e : Entry) → e.content ≡ none → config_of parse getenv e ≡ inl (file_unreadable e.name)
  unfolding config_of
  config_none e h = rw (h, config_of) refl

  config_some :
      (e : Entry) (b : Str)
      → e.content ≡ some b
      → config_of parse getenv e ≡ checked e.name (parse (expand getenv zero b))
  unfolding config_of
  config_some e b h = rw (h, config_of) refl

  pub config_of-Describes :
      (e : Entry) (nc : NetworkConfig) → config_of parse getenv e ≡ inr nc → Describes e nc
  config_of-Describes e nc h = elim (Option-cases e.content) [
    | inl none_e ↦ absurd (cc (config_none e none_e, h))
    | inr (b, some_e) ↦
        let step = sym (config_some e b some_e) ∙ h in
        elim (Option-cases (parse (expand getenv zero b))) [
          | inl none_p ↦ absurd (cc (checked-none e.name, none_p, step))
          | inr (raw, some_p) ↦ (
            b,
            expand getenv zero b,
            raw,
            some_e,
            expand-Expands getenv b,
            some_p,
            checked-some e.name raw nc (sym (ap (checked e.name) some_p) ∙ step),
          )
        ]
  ]

  pub config_of-Fails :
      (e : Entry) (err : LoadError) → config_of parse getenv e ≡ inl err → Fails e err
  config_of-Fails e err h = elim (Option-cases e.content) [
    | inl none_e ↦
        let same : file_unreadable e.name ≡ err = cc (config_none e none_e, h) in
        inl (none_e, sym same)
    | inr (b, some_e) ↦
        let step = sym (config_some e b some_e) ∙ h in
        inr (
          b,
          expand getenv zero b,
          some_e,
          expand-Expands getenv b,
          elim (Option-cases (parse (expand getenv zero b))) [
            | inl none_p ↦
                let same : invalid e.name ≡ err = cc (checked-none e.name, none_p, step) in
                inl (none_p, sym same)
            | inr (raw, some_p) ↦
                let (lacks, same) =
                  incomplete_of e.name raw err (sym (ap (checked e.name) some_p) ∙ step) in
                inr (raw, some_p, lacks, same)
          ],
        )
  ]
