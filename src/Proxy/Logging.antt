-- ===== src/Proxy/Logging.antt =====
-- The log of pkg/api in Serve, pkg/api/proxy.go.
use mezzium.Base.{
  ℕ, ◌+◌, ◌≡◌, refl, sym, ap, ◌∙◌, subst, inl, inr, Option, none, some, List, [], ◌∷◌, ◌++◌, map,
  Option-cases, length, In, In-append_right,
}
use mezzium.Text.{Str, split}
use mezzium.Registry.{Registry}
use mezzium.Registry.Pick.{NodeWithPing}
use mezzium.Proxy.{
  Headers, Incoming, Adapted, Messages, Outgoing, Answer, Served, relayed, logged_answer, received,
  forward,
}
use mezzium.Proxy.Relay.{
  Relayed, answered, exhausted, Forwarded, no_nodes, none_allowed, tried, forward-Forwarded,
}
use mezzium.Log.Laws.{IsLogged, after_log-IsLogged}

-- An answer of the i-th attempt that is passed on, but for what the log has done to its body.
abbrev pub Passes : (ℕ → Outgoing → Option Answer) → Answer → List Outgoing → Type 0
Passes send b sent =
    (i : ℕ) × (o : Outgoing) × (a : Answer) × In o sent
    × (send i o ≡ some a)
    × (b.status ≡ a.status)
    × (b.headers ≡ a.headers)
    × IsLogged a.body b.body

received_of :
    (send : ℕ → Outgoing → Option Answer) (i : ℕ) (o : Outgoing) (b : Answer)
    → received send i o ≡ some b
    → (a : Answer) × (send i o ≡ some a) × (logged_answer a ≡ b)
unfolding received
received_of send i o b e = elim (Option-cases (send i o)) [
  | inl k ↦ absurd (
      cc (
        subst
          (λ (x : Option Answer).
            ◌≡◌ {A = Option Answer} (elim x [ none ↦ none | some a ↦ some (logged_answer a) ])
              (some b))
          k e))
  | inr (a, k) ↦ (
    a,
    k,
    cc (
        subst
          (λ (x : Option Answer).
            ◌≡◌ {A = Option Answer} (elim x [ none ↦ none | some a ↦ some (logged_answer a) ])
              (some b))
          k e),
  )
]

received-Passes :
    (send : ℕ → Outgoing → Option Answer) (i : ℕ) (o : Outgoing) (b : Answer) (sent : List Outgoing)
    → In o sent
    → received send i o ≡ some b
    → Passes send b sent
unfolding logged_answer
received-Passes send i o b sent at e =
    let (a, k, same) = received_of send i o b e in
    (
      i,
      o,
      a,
      at,
      k,
      sym (ap (λ (x : Answer). x.status) same),
      sym (ap (λ (x : Answer). x.headers) same),
      subst (IsLogged a.body) (ap (λ (x : Answer). x.body) same) (after_log-IsLogged a.room a.body),
    )

module _ (decode : Str → Option Messages) (send : ℕ → Outgoing → Option Answer)
    (request : NodeWithPing → Outgoing) where
  Relayed-Passes :
      (nodes : List NodeWithPing) (a : Served × List Outgoing) (b : Answer) (sent : List Outgoing)
      → Relayed decode send request 0 nodes a
      → a ≡ (relayed b, sent)
      → Passes send b sent
  Relayed-Passes nodes a b sent (answered before n after c split fail s good e) f =
      let same : c ≡ b = cc (e, f) in
      let out : map request before ++ request n ∷ [] ≡ sent = cc (e, f) in
      received-Passes send (0 + length before) (request n) b sent
        (subst (In (request n)) out
          (In-append_right (request n) (map request before) (request n ∷ []) (inl refl)))
        (s ∙ ap some same)
  Relayed-Passes nodes a b sent (exhausted message fail e) f = absurd (cc (e, f))

module _ (r : Registry) (adapt : Str → Str → Str → Str → Str → Headers → Str → Adapted)
    (decode : Str → Option Messages) (send : ℕ → Outgoing → Option Answer) (network tail : Str)
    (q : Incoming) where
  Forwarded-Passes :
      (a : Served × List Outgoing) (b : Answer) (sent : List Outgoing)
      → Forwarded r adapt decode send network tail q a
      → a ≡ (relayed b, sent)
      → Passes send b sent
  Forwarded-Passes a b sent (no_nodes m e k) f = absurd (cc (k, f))
  Forwarded-Passes a b sent (none_allowed x xs m e k l) f = absurd (cc (l, f))
  Forwarded-Passes a b sent (tried first others raw nodes e ne k c rel) f =
      Relayed-Passes decode send _ nodes a b sent rel f

  -- The answer that is passed on to the client is the answer of an upstream that was asked, with
  -- its status and its headers. Its body is that of the upstream as long as it has at most 4096
  -- bytes; in a body of 4111 bytes or more, the 15 bytes behind the first 4096 are written over
  -- with "... [truncated]".
  pub forward-Passes :
      (b : Answer) (sent : List Outgoing)
      → forward r adapt decode send network tail q ≡ (relayed b, sent)
      → Passes send b sent
  forward-Passes b sent e =
      Forwarded-Passes (forward r adapt decode send network tail q) b sent
        (forward-Forwarded r adapt decode send network tail q) e
