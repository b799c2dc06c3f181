-- ===== src/Adapters/Routes.antt =====
-- What the adapters make of a request, and where Serve of pkg/api/proxy.go sends it.
use mezzium.Base.{
  ℕ, ◌≡◌, refl, sym, ap, subst, inl, inr, true, Option, some, List, [], ◌∷◌, ◌++◌, map, arith, In,
  All,
}
use mezzium.Text.{Str, str, ◌==◌, to_lower, has_prefix, contains, strip_prefix, trim_prefix, split}
use mezzium.Adapters.{
  lower_tail, balance_address, btc_rest, result, ensure_json, JsonObject, adapt_trx, adapt_btc,
  adapt,
}
use mezzium.Registry.{protocol_of, best_of, Registry}
use mezzium.Registry.Pick.{NodeWithPing}
use mezzium.Proxy.{
  logged_request, Headers, Incoming, Adapted, Outgoing, Answer, Messages, is_allowed, outgoing,
  build_upstream_url, forward,
}
use mezzium.Proxy.Relay.{
  tried, exhausted, none_allowed, no_nodes, answered, Relayed, Forwarded, IsCandidate, adapted,
  request_to, forward-Forwarded,
}

module _ (decode : Str → Option Messages) (send : ℕ → Outgoing → Option Answer)
    (request : NodeWithPing → Outgoing) (P : Outgoing → Type 0) where
  All-sent :
      (before : List NodeWithPing) (n : NodeWithPing) (after : List NodeWithPing)
      → All (λ m. P (request m)) (before ++ n ∷ after)
      → All P (map request before ++ request n ∷ [])
  All-sent [] n after h = (h.0, tt)
  All-sent (m ∷ before) n after h = (h.0, All-sent before n after h.1)

  All-requests :
      (nodes : List NodeWithPing) → All (λ m. P (request m)) nodes → All P (map request nodes)
  All-requests [] h = tt
  All-requests (m ∷ nodes) h = (h.0, All-requests nodes h.1)

  Relayed-All :
      (i : ℕ) (nodes : List NodeWithPing) (a : mezzium.Proxy.Served × List Outgoing)
      → Relayed decode send request i nodes a
      → All (λ m. P (request m)) nodes
      → All P a.1
  Relayed-All i nodes a (answered before n after b split fail s good e) h =
      rw e (All-sent before n after (subst (All (λ m. P (request m))) split h))
  Relayed-All i nodes a (exhausted message fail e) h = rw e (All-requests nodes h)

All-impl :
    {A : Type 0} (P Q : A → Type 0) (xs : List A) → ((a : A) → P a → Q a) → All P xs → All Q xs
All-impl P Q [] f h = tt
All-impl P Q (x ∷ xs) f h = (f x h.0, All-impl P Q xs f h.1)

module _ (r : Registry) (adapt' : Str → Str → Str → Str → Str → Headers → Str → Adapted)
    (decode : Str → Option Messages) (send : ℕ → Outgoing → Option Answer) (network tail : Str)
    (q : Incoming) where
  -- What is sent is a request to a candidate, made of the adapter's result.
  forward-All :
      (P : Outgoing → Type 0)
      → ((first n : NodeWithPing) (raw_query : Str)
          → IsCandidate r adapt' decode send network tail q
              (adapted r adapt' decode send network tail q first).allowed_host_substr
              n
          → P (
              request_to r adapt' decode send network tail q
                (adapted r adapt' decode send network tail q first)
                raw_query
                n))
      → All P (forward r adapt' decode send network tail q).1
  forward-All P h = by_way (forward-Forwarded r adapt' decode send network tail q)
    where
      by_way :
          {a : mezzium.Proxy.Served × List Outgoing}
          → Forwarded r adapt' decode send network tail q a
          → All P a.1
      by_way (no_nodes message best e) = rw e tt
      by_way (none_allowed first others message best f e) = rw e tt
      by_way (tried first others raw_query nodes best ne f cs relayed) =
          Relayed-All decode send
            (request_to r adapt' decode send network tail q
              (adapted r adapt' decode send network tail q first) raw_query)
            P 0 nodes _ relayed (All-impl _ _ nodes (λ n c. h first n raw_query c) cs)

-- The services that know balances: the network, the upstreams, and the path before the address.
abbrev pub balance_services : List (Str × Str × Str)
balance_services =
    (str "trx", str "trongrid.io", str "v1/accounts/")
    ∷ (str "btc", str "tatum.io", str "v3/bitcoin/address/balance/")
    ∷ []

-- What adaptTRX and adaptBTC make of such a request.
abbrev trx_result : ℕ → Str → Adapted
trx_result c cs =
    result (str "v1/accounts/" ++ c ∷ cs) (str "GET") [] ensure_json (str "trongrid.io" ∷ [])

abbrev btc_result : ℕ → Str → Adapted
btc_result c cs =
    result (str "v3/bitcoin/address/balance/" ++ c ∷ cs) (str "GET") [] [] (str "tatum.io" ∷ [])

adapt_trx-balance_address :
    (tail method body : Str) (c : ℕ) (cs : Str)
    → lower_tail tail ≡ str "balance/" ++ c ∷ cs
    → adapt_trx tail method body ≡ trx_result c cs
unfolding adapt_trx balance_address has_prefix trim_prefix strip_prefix
adapt_trx-balance_address tail method body c cs e = rw (e, adapt_trx) refl

adapt_btc-balance_address :
    (tail method body : Str) (c : ℕ) (cs : Str)
    → lower_tail tail ≡ str "balance/" ++ c ∷ cs
    → adapt_btc tail method body ≡ btc_result c cs
unfolding adapt_btc balance_address has_prefix trim_prefix strip_prefix btc_rest ◌==◌
adapt_btc-balance_address tail method body c cs e = rw (e, adapt_btc) refl

module _ (quote : Str → Str) (read_json : Str → Option JsonObject) where
  -- What the network asks of a service about an address, whatever the other arguments are.
  abbrev pub IsBalanceResult : Str → Str → Str → Adapted → Type 0
  IsBalanceResult host path addr a =
      (a.tail ≡ path ++ addr)
      × (a.method ≡ str "GET")
      × (a.body ≡ [])
      × (a.allowed_host_substr ≡ host ∷ [])

  adapt-IsBalanceResult :
      (network host path : Str)
      → In (to_lower network, host, path) balance_services
      → (protocol base_url tail method : Str) (headers : Headers) (body : Str) (c : ℕ) (cs : Str)
      → lower_tail tail ≡ str "balance/" ++ c ∷ cs
      → (a : Adapted) × (adapt quote read_json network protocol base_url tail method headers body
          ≡ some a)
        × IsBalanceResult host path (c ∷ cs) a
  unfolding adapt result ◌==◌
  adapt-IsBalanceResult network host path (inl e) protocol base_url tail method headers body c cs
        h =
      (
        trx_result c cs,
        rw (ap (λ (p : Str × Str × Str). p.0) e, adapt)
            (ap some (adapt_trx-balance_address tail method body c cs h)),
        (
          rw (ap (λ (p : Str × Str × Str). p.2) e) refl,
          refl,
          refl,
          rw (ap (λ (p : Str × Str × Str). p.1) e) refl,
        ),
      )
  adapt-IsBalanceResult network host path (inr (inl e)) protocol base_url tail method headers body c
        cs h =
      (
        btc_result c cs,
        rw (ap (λ (p : Str × Str × Str). p.0) e, adapt)
            (ap some (adapt_btc-balance_address tail method body c cs h)),
        (
          rw (ap (λ (p : Str × Str × Str). p.2) e) refl,
          refl,
          refl,
          rw (ap (λ (p : Str × Str × Str). p.1) e) refl,
        ),
      )
  adapt-IsBalanceResult network host path (inr (inr e)) protocol base_url tail method headers body c
        cs h =
      absurd e

  module _ (r : Registry) (adapt' : Str → Str → Str → Str → Str → Headers → Str → Adapted)
      (decode : Str → Option Messages) (send : ℕ → Outgoing → Option Answer) (network tail : Str)
      (q : Incoming) where
    -- The adapters are those of pkg/adapters, wherever these do not panic.
    abbrev pub Extends : Type 0
    Extends =
        (network' protocol base_url tail' method : Str) (headers : Headers) (body : Str)
        (a : Adapted)
        → adapt quote read_json network' protocol base_url tail' method headers body ≡ some a
        → adapt' network' protocol base_url tail' method headers body ≡ a

    -- A GET request without a body for the balance of an address, to a node of the network whose
    -- URL names the host.
    abbrev pub IsBalanceRequest : Str → Str → Str → Outgoing → Type 0
    IsBalanceRequest host path addr o =
        (n : NodeWithPing) × In n (best_of r network)
        × (contains (to_lower n.url) (to_lower host) ≡ true)
        × (o.method ≡ str "GET")
        × (o.body ≡ [])
        × ((raw_query : Str) × (o.url ≡ build_upstream_url n.url (path ++ addr) raw_query))

    is_allowed-contains :
        (host url : Str)
        → is_allowed (host ∷ []) url ≡ true
        → contains (to_lower url) (to_lower host) ≡ true
    unfolding is_allowed
    is_allowed-contains host url h = ground arith

    balance_request :
        (host path addr : Str) (ad : Adapted) (raw_query : Str) (n : NodeWithPing)
        → IsBalanceResult host path addr ad
        → IsCandidate r adapt' decode send network tail q ad.allowed_host_substr n
        → IsBalanceRequest host path addr
            (request_to r adapt' decode send network tail q ad raw_query n)
    unfolding outgoing
    balance_request host path addr ad raw_query n (rest, method, body, hosts) (i, allowed) =
        let url : contains (to_lower n.url) (to_lower host) ≡ true = elim allowed [
          | inl e ↦ absurd (cc (hosts, e))
          | inr e ↦ is_allowed-contains host n.url (subst (λ l. is_allowed l n.url ≡ true) hosts e)
        ] in
        (n, i, url, method, body, (raw_query, ap (λ p. build_upstream_url n.url p raw_query) rest))

    -- A request for balance/{address} of trx or btc, in any case and with any method, is sent to no
    -- node but those of the network whose URLs name the service that knows balances, trongrid.io or
    -- tatum.io; what is sent is a GET request without a body for that service's path of the address,
    -- which is in lower case.
    pub forward_balance :
        (host path : Str) (c : ℕ) (cs : Str)
        → Extends
        → In (to_lower network, host, path) balance_services
        → lower_tail tail ≡ str "balance/" ++ c ∷ cs
        → All (IsBalanceRequest host path (c ∷ cs)) (forward r adapt' decode send network tail q).1
    forward_balance host path c cs ext service h =
        forward-All r adapt' decode send network tail q (IsBalanceRequest host path (c ∷ cs))
          (λ first n raw_query candidate.
            let (a, adapts, balance) =
              adapt-IsBalanceResult network host path service (protocol_of r network) first.url tail
                q.method q.headers (logged_request q) c cs h in
            let same =
              ext network (protocol_of r network) first.url tail q.method q.headers
                (logged_request q) a adapts in
            balance_request host path (c ∷ cs) (adapted r adapt' decode send network tail q first)
              raw_query n (subst (IsBalanceResult host path (c ∷ cs)) (sym same) balance) candidate)
