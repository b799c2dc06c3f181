-- ===== src/Gas/Asking.antt =====
-- How the loop over the nodes in servePolygonGas and the other servers of pkg/api/gas.go answers where
-- the cache cannot.
use mezzium.Base.{
  ℕ, ◌/◌, ◌≤◌, ◌<◌, ◌≡◌, refl, sym, ap, ◌∙◌, ◌≢◌, ◌⊎◌, inl, inr, Option, none, some, List, [], ◌∷◌,
  arith, eqb, Bool-cases, Option-cases, All,
}
use mezzium.Text.{Str, str}
use mezzium.Registry.Pick.{NodeWithPing}
use mezzium.Gas.{OracleApi, Response, json, http_error, accepted, first_computed, ask}

module _ {O : Type 0} (api : OracleApi O) (o : O) where
  -- The external service answered with success.
  abbrev IsOfficial : ℕ → Str → Type 0
  IsOfficial code body =
      (api.fetch_from_official o ≡ some (code, body)) × (200 ≤ code) × (code < 300)

  abbrev NotOfficial : Type 0
  NotOfficial = (code : ℕ) (body : Str) → ¬ IsOfficial code body

  -- The bytes are those of the first node for which the oracle can compute some.
  abbrev IsFirst : Str → List NodeWithPing → Type 0
  IsFirst body [] = ⊥
  IsFirst body (n ∷ ns) =
      (api.compute_from_rpc_bytes o n ≡ some body)
      ⊎ ((api.compute_from_rpc_bytes o n ≡ none) × IsFirst body ns)

  -- The oracle can compute nothing for any of the nodes, or nothing but no bytes for the first.
  abbrev Uncomputed : List NodeWithPing → Type 0
  Uncomputed nodes =
      All (λ (n : NodeWithPing). api.compute_from_rpc_bytes o n ≡ none) nodes ⊎ IsFirst [] nodes

  first_computed-none :
      (n : NodeWithPing) (ns : List NodeWithPing)
      → api.compute_from_rpc_bytes o n ≡ none
      → first_computed api o (n ∷ ns) ≡ first_computed api o ns
  unfolding first_computed
  first_computed-none n ns e = rw (e, first_computed) refl

  first_computed-some :
      (n : NodeWithPing) (ns : List NodeWithPing) (b : Str)
      → api.compute_from_rpc_bytes o n ≡ some b
      → first_computed api o (n ∷ ns) ≡ b
  unfolding first_computed
  first_computed-some n ns b e = rw (e, first_computed) refl

  first_computed-IsFirst :
      (nodes : List NodeWithPing) (body : Str)
      → first_computed api o nodes ≡ body
      → body ≢ []
      → IsFirst body nodes
  unfolding first_computed
  first_computed-IsFirst [] body e ne = absurd (ne (sym e))
  first_computed-IsFirst (n ∷ ns) body e ne = elim (Option-cases (api.compute_from_rpc_bytes o n)) [
    | inl k ↦ inr (k, first_computed-IsFirst ns body (sym (first_computed-none n ns k) ∙ e) ne)
    | inr (b, k) ↦ inl (k ∙ ap some (sym (first_computed-some n ns b k) ∙ e))
  ]

  first_computed-Uncomputed :
      (nodes : List NodeWithPing) → first_computed api o nodes ≡ [] → Uncomputed nodes
  unfolding first_computed
  first_computed-Uncomputed [] e = inl tt
  first_computed-Uncomputed (n ∷ ns) e = elim (Option-cases (api.compute_from_rpc_bytes o n)) [
    | inl k ↦ elim (first_computed-Uncomputed ns (sym (first_computed-none n ns k) ∙ e)) [
      | inl all ↦ inl (k, all)
      | inr first ↦ inr (inr (k, first))
    ]
    | inr (b, k) ↦ inr (inl (k ∙ ap some (sym (first_computed-some n ns b k) ∙ e)))
  ]

  -- The ways in which a request that the cache cannot serve ends.
  pub data Asked (nodes : List NodeWithPing) (a : Response × Option Str) : Type 0 where
    official :
        (code : ℕ) (body : Str)
        → IsOfficial code body
        → a ≡ (json code body, some body)
        → Asked nodes a
    no_nodes :
        (message : Str)
        → NotOfficial
        → nodes ≡ []
        → a ≡ (http_error 503 message, none)
        → Asked nodes a
    uncomputed :
        (message : Str)
        → NotOfficial
        → Uncomputed nodes
        → a ≡ (http_error 502 message, none)
        → Asked nodes a
    computed :
        (body : Str)
        → NotOfficial
        → body ≢ []
        → IsFirst body nodes
        → a ≡ (json 200 body, some body)
        → Asked nodes a

  accepted-cases :
      (f : Option (ℕ × Str))
      → ((accepted f ≡ none)
          × ((code : ℕ) (body : Str) → ¬ ((f ≡ some (code, body)) × (200 ≤ code) × (code < 300))))
        ⊎ ((code : ℕ) × (body : Str) × (accepted f ≡ some (code, body))
            × (f ≡ some (code, body))
            × (200 ≤ code)
            × (code < 300))
  unfolding accepted
  accepted-cases none = inl (refl, λ code body h. cc)
  accepted-cases (some (c, b)) = elim (Bool-cases (eqb (c / 100) 2)) [
    | inl e ↦ inr (c, b, rw (e, accepted) refl, refl, ground arith, ground arith)
    | inr e ↦ inl (rw (e, accepted) refl, λ code body h. ground arith)
  ]

  pub ask-Asked :
      (nodes : List NodeWithPing) (message : Str) → Asked nodes (ask api o nodes message)
  unfolding ask
  ask-Asked nodes message = elim (accepted-cases (api.fetch_from_official o)) [
    | inr (code, body, e, f, lo, hi) ↦ official code body (f, lo, hi) (rw (e, ask) refl)
    | inl (e, f) ↦ rest nodes f e
  ]
    where
      rest :
          (ns : List NodeWithPing)
          → NotOfficial
          → accepted (api.fetch_from_official o) ≡ none
          → Asked ns (ask api o ns message)
      rest [] f e = no_nodes message f refl (rw (e, ask) refl)
      rest (n ∷ ns) f e = by_bytes (first_computed api o (n ∷ ns)) refl
        where
          by_bytes :
              (b : Str)
              → first_computed api o (n ∷ ns) ≡ b
              → Asked (n ∷ ns) (ask api o (n ∷ ns) message)
          by_bytes [] k =
              uncomputed (str "gas calc failed") f (first_computed-Uncomputed (n ∷ ns) k)
                (rw (e, ask) (rw k refl))
          by_bytes (c ∷ cs) k =
              computed (c ∷ cs) f (λ h. cc) (first_computed-IsFirst (n ∷ ns) (c ∷ cs) k (λ h. cc))
                (rw (e, ask) (rw k refl))

  -- What is sent as a price is what is to be cached.
  pub Asked-json :
      (nodes : List NodeWithPing) (a : Response × Option Str) (code : ℕ) (body : Str)
      → Asked nodes a
      → a.0 ≡ json code body
      → a.1 ≡ some body
  Asked-json nodes a code body (official c b f e) sent = cc
  Asked-json nodes a code body (no_nodes m f n e) sent = cc
  Asked-json nodes a code body (uncomputed m f n e) sent = cc
  Asked-json nodes a code body (computed b f ne i e) sent = cc
