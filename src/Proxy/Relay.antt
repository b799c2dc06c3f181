-- ===== src/Proxy/Relay.antt =====
-- The attempts of Serve, pkg/api/proxy.go.
use mezzium.Base.{
  ℕ, ◌+◌, ◌<◌, ◌≡◌, refl, sym, ap, ◌∙◌, subst, ◌≢◌, ◌⊎◌, inl, inr, true, false, ◌||◌, Option, none,
  some, List, [], ◌∷◌, ◌++◌, map, arith, leb, Bool-cases, Option-cases, length, keep, In,
  In-of_keep, All, All_of,
}
use mezzium.Text.{Str, str, split}
use mezzium.Registry.{Registry, best_of, protocol_of}
use mezzium.Registry.Pick.{NodeWithPing}
use mezzium.Proxy.{
  received, logged_request, node_timeout, set_all, outgoing, attempt, Headers, Incoming, Adapted,
  Outgoing, Answer, Messages, Served, relayed, http_error, is_rate_limited, is_allowed,
  filter_allowed, relay, forward,
}

module _ (decode : Str → Option Messages) where
  -- An answer that is passed on.
  abbrev pub IsGood : Answer → Type 0
  IsGood a = (is_rate_limited decode a ≡ false) × (a.status < 500)

  -- The upstream did not answer, or its answer is passed over.
  abbrev pub Fails : Option Answer → Type 0
  Fails none = Unit
  Fails (some a) = ¬ IsGood a

  module _ (send : ℕ → Outgoing → Option Answer) (request : NodeWithPing → Outgoing) where
    abbrev pub AllFail : ℕ → List NodeWithPing → Type 0
    AllFail i [] = Unit
    AllFail i (n ∷ ns) = Fails (received send i (request n)) × AllFail (i + 1) ns

    -- The ways in which the attempts from the i-th on end.
    pub data Relayed (i : ℕ) (nodes : List NodeWithPing) (a : Served × List Outgoing) : Type 0 where
      answered :
          (before : List NodeWithPing) (n : NodeWithPing) (after : List NodeWithPing) (b : Answer)
          → nodes ≡ before ++ n ∷ after
          → AllFail i before
          → received send (i + length before) (request n) ≡ some b
          → IsGood b
          → a ≡ (relayed b, map request before ++ request n ∷ [])
          → Relayed i nodes a
      exhausted :
          (message : Str)
          → AllFail i nodes
          → a ≡ (http_error 502 message, map request nodes)
          → Relayed i nodes a

    passed_over :
        (i : ℕ) (n : NodeWithPing) (ns : List NodeWithPing) (a b : Served × List Outgoing)
        → Fails (received send i (request n))
        → a ≡ (b.0, request n ∷ b.1)
        → Relayed (i + 1) ns b
        → Relayed i (n ∷ ns) a
    passed_over i n ns a b f e (answered before m after c split fail s good d) =
        answered (n ∷ before) m after c (ap (λ (l : List NodeWithPing). n ∷ l) split) (f, fail)
          (ap (λ k. received send k (request m)) (omega arith) ∙ s) good (e ∙ rw d refl)
    passed_over i n ns a b f e (exhausted message fail d) =
        exhausted message (f, fail) (e ∙ rw d refl)

    relay-Relayed :
        (i : ℕ) (nodes : List NodeWithPing) → Relayed i nodes (relay decode send request i nodes)
    unfolding relay
    relay-Relayed i [] = exhausted (str "all upstreams failed") tt refl
    relay-Relayed i (n ∷ ns) = elim (Option-cases (received send i (request n))) [
      | inl e ↦
          passed_over i n ns _ (relay decode send request (i + 1) ns) (rw e tt) (rw (e, relay) refl)
            (relay-Relayed (i + 1) ns)
      | inr (a, e) ↦ elim (Bool-cases (is_rate_limited decode a || leb 500 a.status)) [
        | inl bad ↦
            passed_over i n ns _ (relay decode send request (i + 1) ns)
              (rw e (λ h. ground (arith, h))) (rw (e, relay) (rw bad refl))
              (relay-Relayed (i + 1) ns)
        | inr good ↦
            answered [] n ns a refl tt (ap (λ k. received send k (request n)) (omega arith) ∙ e)
              (ground arith, ground arith) (rw (e, relay) (rw good refl))
      ]
    ]

module _ (r : Registry) (adapt : Str → Str → Str → Str → Str → Headers → Str → Adapted)
    (decode : Str → Option Messages) (send : ℕ → Outgoing → Option Answer) (network tail : Str)
    (q : Incoming) where
  -- What the adapter makes of the request, with the first of the best nodes.
  abbrev pub adapted : NodeWithPing → Adapted
  adapted first =
      adapt network (protocol_of r network) first.url tail q.method q.headers (logged_request q)

  -- The requests that are sent, but for the query, which is dropped when the adapter turns a GET
  -- into a POST with a body.
  abbrev pub request_to : Adapted → Str → NodeWithPing → Outgoing
  request_to ad raw_query =
      outgoing ad (set_all ad.headers q.headers) raw_query (node_timeout r network)

  -- A node of the network that serves, and that the adapter allows.
  abbrev pub IsCandidate : List Str → NodeWithPing → Type 0
  IsCandidate subs n = In n (best_of r network) × ((subs ≡ []) ⊎ (is_allowed subs n.url ≡ true))

  -- The ways in which a request that is no gas request ends.
  pub data Forwarded (a : Served × List Outgoing) : Type 0 where
    no_nodes :
        (message : Str) → best_of r network ≡ [] → a ≡ (http_error 503 message, []) → Forwarded a
    none_allowed :
        (first : NodeWithPing) (others : List NodeWithPing) (message : Str)
        → best_of r network ≡ first ∷ others
        → filter_allowed (adapted first).allowed_host_substr (best_of r network) ≡ []
        → a ≡ (http_error 503 message, [])
        → Forwarded a
    tried :
        (first : NodeWithPing) (others : List NodeWithPing) (raw_query : Str)
        (nodes : List NodeWithPing)
        → best_of r network ≡ first ∷ others
        → nodes ≢ []
        → nodes ≡ filter_allowed (adapted first).allowed_host_substr (best_of r network)
        → All (IsCandidate (adapted first).allowed_host_substr) nodes
        → Relayed decode send (request_to (adapted first) raw_query) 0 nodes a
        → Forwarded a

  candidates-All :
      (subs : List Str) (nodes : List NodeWithPing)
      → All
          (λ n. In n nodes × ((subs ≡ []) ⊎ (is_allowed subs n.url ≡ true)))
          (filter_allowed subs nodes)
  unfolding filter_allowed
  candidates-All [] nodes = All_of _ nodes (λ n i. (i, inl refl))
  candidates-All (sub ∷ subs) nodes =
      All_of _ (keep (λ (n : NodeWithPing). is_allowed (sub ∷ subs) n.url) nodes) (λ n i.
        let k = In-of_keep (λ (m : NodeWithPing). is_allowed (sub ∷ subs) m.url) n nodes i in
        (k.0, inr k.1))

  attempted :
      (first : NodeWithPing) (others : List NodeWithPing) (raw_query : Str)
      (nodes : List NodeWithPing)
      → best_of r network ≡ first ∷ others
      → nodes ≡ filter_allowed (adapted first).allowed_host_substr (best_of r network)
      → Forwarded (attempt decode send (request_to (adapted first) raw_query) nodes)
  unfolding attempt
  attempted first others raw_query [] best e =
      none_allowed first others (str "no allowed upstreams") best (sym e) refl
  attempted first others raw_query (n ∷ ns) best e =
      tried first others raw_query (n ∷ ns) best (λ h. cc) e
        (subst (All (IsCandidate (adapted first).allowed_host_substr)) (sym e)
          (candidates-All (adapted first).allowed_host_substr (best_of r network)))
        (relay-Relayed decode send (request_to (adapted first) raw_query) 0 (n ∷ ns))

  -- A request that is no gas request is answered 503, and sent to nobody, if the network has no
  -- nodes or none that the adapter allows. Else it is sent to the allowed nodes, best first, up to
  -- the first that gives an answer that is neither a limit of the rate nor a failure of the server;
  -- that answer, as the log leaves it, is passed on, and no later
  -- node is asked. If there is none, the answer is 502 after
  -- each node has been asked once.
  pub forward-Forwarded : Forwarded (forward r adapt decode send network tail q)
  unfolding forward
  forward-Forwarded = by_best (best_of r network) refl
    where
      by_best :
          (nodes : List NodeWithPing)
          → best_of r network ≡ nodes
          → Forwarded (forward r adapt decode send network tail q)
      by_best [] e = no_nodes (str "no available nodes") e (rw (e, forward) refl)
      by_best (first ∷ others) e =
          rw (e, forward)
            (attempted first others _ _ e
              (ap (filter_allowed (adapted first).allowed_host_substr) (sym e)))
