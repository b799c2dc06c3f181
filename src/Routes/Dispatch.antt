-- ===== src/Routes/Dispatch.antt =====
-- Which requests reach the proxy, pkg/api/proxy.go, by the routes of cmd/app/routes.go.
use mezzium.Base.{
  ℕ, ◌≡◌, refl, sym, ap, ◌∙◌, subst, ◌≢◌, ◌⊎◌, inl, inr, true, false, Option, none, some, List, [],
  ◌∷◌, ◌++◌, arith, Bool-cases, In, In-append_left, In-append_right, All, All_at,
}
use mezzium.Base.Int.{ℤ}
use mezzium.Text.{Str, str, ◌==◌, has_prefix}
use mezzium.Text.Laws.{eq_iff, eq_of_test}
use mezzium.Dict.{Dict, lookup, keys}
use mezzium.Proxy.{Adapted}
use mezzium.Registry.{Registry, NetworkState}
use mezzium.Gas.{OracleApi, GasState}
use mezzium.Gas.Routing.{IsGasRequest}
use mezzium.Proxy.{Headers, Incoming, Adapted, Outgoing, Answer, Messages, forward, serve}
use mezzium.Proxy.Entry.{serve-forward}
use mezzium.Proxy.Paths.{Lacks}
use mezzium.Routes.{
  Headers, register_routes, ServeMux, Endpoint, to_proxy, to_metrics, control_routes, proxy_routes,
  network_routes, routes,
}
use mezzium.Routes.Patterns.{
  are_distinct, none_matches_of, matches_below, are_plain, matches_name, has_prefix_below,
  none_matches_at, IsServeMux, has_suffix_slash, none_matches, matches, has_suffix_route,
}

-- The network's route is its name behind a slash.
abbrev pub OwnRoute : Str × NetworkState → Type 0
OwnRoute e = (e.1.route ≡ b'/' ∷ e.0) × (e.0 ≢ []) × Lacks b'/' e.0

-- The patterns that are not those of networks.
abbrev pub fixed : List Str
fixed = keys control_routes ++ str "/metrics" ∷ []

proxy_routes_own :
    (e : Str × NetworkState)
    → OwnRoute e
    → proxy_routes e.1.route ≡ (b'/' ∷ e.0, to_proxy) ∷ (b'/' ∷ (e.0 ++ str "/"), to_proxy) ∷ []
unfolding proxy_routes
proxy_routes_own e own = rw own.0 (rw (has_suffix_route e.0 own.1 own.2) refl)

In-keys_append :
    (q : Str) (xs ys : Dict Endpoint) → In q (keys (xs ++ ys)) → In q (keys xs) ⊎ In q (keys ys)
In-keys_append q [] ys i = inr i
In-keys_append q ((k, v) ∷ xs) ys (inl e) = inl (inl e)
In-keys_append q ((k, v) ∷ xs) ys (inr i) = elim (In-keys_append q xs ys i) [
  | inl j ↦ inl (inr j)
  | inr j ↦ inr j
]

-- A pattern of one of the networks.
abbrev IsNetworkPattern : Registry → Str → Type 0
IsNetworkPattern r q =
    (e : Str × NetworkState) × In e r
    × OwnRoute e
    × ((q ≡ b'/' ∷ e.0) ⊎ (q ≡ b'/' ∷ (e.0 ++ str "/")))

of_proxy_routes :
    (q : Str) (e : Str × NetworkState)
    → OwnRoute e
    → In q (keys (proxy_routes e.1.route))
    → (q ≡ b'/' ∷ e.0) ⊎ (q ≡ b'/' ∷ (e.0 ++ str "/"))
of_proxy_routes q e own i =
    elim (subst (λ (ps : Dict Endpoint). In q (keys ps)) (proxy_routes_own e own) i) [
      | inl k ↦ inl k
      | inr j ↦ elim j [ inl k ↦ inr k | inr k ↦ absurd k ]
    ]

network_pattern :
    (q : Str) (r : Registry)
    → All OwnRoute r
    → In q (keys (network_routes r))
    → IsNetworkPattern r q
unfolding network_routes
network_pattern q [] own i = absurd i
network_pattern q ((name, st) ∷ r) own i =
    elim (In-keys_append q (proxy_routes st.route) (network_routes r) i) [
      | inl j ↦ ((name, st), inl refl, own.0, of_proxy_routes q (name, st) own.0 j)
      | inr j ↦ let (f, k, o, how) = network_pattern q r own.1 j in (f, inr k, o, how)
    ]

route_pattern :
    (q : Str) (r : Registry)
    → All OwnRoute r
    → In q (keys (routes r))
    → In q fixed ⊎ IsNetworkPattern r q
unfolding routes
route_pattern q r own i =
    elim (In-keys_append q control_routes (network_routes r ++ (str "/metrics", to_metrics) ∷ [])
      i) [
        | inl j ↦ inl (In-append_left q (keys control_routes) (str "/metrics" ∷ []) j)
        | inr j ↦ elim (In-keys_append q (network_routes r) ((str "/metrics", to_metrics) ∷ []) j) [
          | inl k ↦ inr (network_pattern q r own k)
          | inr k ↦ inl (In-append_right q (keys control_routes) (str "/metrics" ∷ []) k)
        ]
      ]

lookup-In :
    (r : Registry) (name : Str) (st : NetworkState) → lookup name r ≡ some st → In (name, st) r
unfolding lookup
lookup-In [] name st e = absurd (cc e)
lookup-In ((k, v) ∷ r) name st e = elim (Bool-cases (k == name)) [
  | inl same ↦
      let here : k ≡ name = eq_of_test k name same in
      let found : v ≡ st = cc (same, e) in inl (cc (here, found))
  | inr other ↦ inr (lookup-In r name st (cc (other, e)))
]

network_routes-In :
    (r : Registry) (e : Str × NetworkState)
    → OwnRoute e
    → In e r
    → In (b'/' ∷ (e.0 ++ str "/"), to_proxy) (network_routes r)
unfolding network_routes
network_routes-In [] e own i = absurd i
network_routes-In ((k, v) ∷ r) e own (inl same) =
    In-append_left (b'/' ∷ (e.0 ++ str "/"), to_proxy) (proxy_routes v.route) (network_routes r)
      (subst
        (λ (f : Str × NetworkState).
          In (b'/' ∷ (e.0 ++ str "/"), to_proxy) (proxy_routes f.1.route))
        same (rw (proxy_routes_own e own) (inr (inl refl))))
network_routes-In ((k, v) ∷ r) e own (inr i) =
    In-append_right (b'/' ∷ (e.0 ++ str "/"), to_proxy) (proxy_routes v.route) (network_routes r)
      (network_routes-In r e own i)

below : (name tail : Str) → matches (b'/' ∷ (name ++ str "/")) (b'/' ∷ (name ++ b'/' ∷ tail)) ≡ true
unfolding matches has_prefix
below name tail = ground (arith, has_suffix_slash (b'/' ∷ name), has_prefix_below name tail)

lookup-ne : (r : Registry) (name : Str) (st : NetworkState) → In (name, st) r → lookup name r ≢ none
unfolding lookup
lookup-ne [] name st i e = i
lookup-ne ((k, v) ∷ r) name st (inl same) e =
    let here : name ≡ k = ap (λ (f : Str × NetworkState). f.0) same in
    cc ((eq_iff k name).1 (sym here), e)
lookup-ne ((k, v) ∷ r) name st (inr i) e = elim (Bool-cases (k == name)) [
  | inl same ↦ cc (same, e)
  | inr other ↦ lookup-ne r name st i (cc (other, e))
]

slash_behind :
    (name tail : Str) → name ++ b'/' ∷ (tail ++ str "/") ≡ (name ++ b'/' ∷ tail) ++ str "/"
slash_behind [] tail = refl
slash_behind (c ∷ name) tail = ap (λ (s : Str). c ∷ s) (slash_behind name tail)

module _ (r : Registry) (own : All OwnRoute r) (name tail : Str) (lacks : Lacks b'/' name)
    (free : none_matches fixed (b'/' ∷ (name ++ b'/' ∷ tail)) ≡ true) where
  abbrev path : Str
  path = b'/' ∷ (name ++ b'/' ∷ tail)

  -- No pattern but those of the network itself matches a path below its route.
  only_own :
      (q : Str)
      → In q (keys (routes r))
      → matches q path ≡ true
      → ((st : NetworkState) × In (name, st) r) × (q ≡ b'/' ∷ (name ++ str "/"))
  only_own q i m = elim (route_pattern q r own i) [
    | inl f ↦ absurd (cc (none_matches_at fixed q path free f, m))
    | inr ((k, st), at, o, how) ↦ elim how [
      | inl e ↦ absurd (
          cc (
            matches_name name k tail lacks o.2 o.1,
            subst (λ (p : Str). matches p path ≡ true) e m,
          ))
      | inr e ↦
          let same : k ≡ name =
            matches_below name k tail lacks o.2 (subst (λ (p : Str). matches p path ≡ true) e m) in
          (
            (st, subst (λ (n : Str). In (n, st) r) same at),
            e ∙ ap (λ (n : Str). b'/' ∷ (n ++ str "/")) same,
          )
    ]
  ]

module _ {M : Type 0} (mux : ServeMux M) (laws : IsServeMux mux) (r : Registry)
    (own : All OwnRoute r) (plain : are_plain (keys (routes r)) ≡ true) where
  -- Where each network's route is its name behind a slash and no pattern has special bytes or is
  -- there twice, the routes are registered without a panic, and then a request below the route of a
  -- network, whose path is clean and matched by no pattern of the other endpoints, is given to the
  -- proxy, which forwards it to that network with what is behind the route, unless it asks for gas.
  pub register_routes-serve :
      (adapt : Str → Str → Str → Str → Str → Headers → Str → Adapted)
      (decode : Str → Option Messages) (send : ℕ → Outgoing → Option Answer) {O : Type 0}
      (api : OracleApi O) (now later : ℤ) (g : GasState O) (q : Incoming) (name tail : Str)
      (st : NetworkState)
      → are_distinct (keys (routes r)) ≡ true
      → lookup name r ≡ some st
      → q.path ≡ b'/' ∷ (name ++ b'/' ∷ tail)
      → mux.cleaned q.path ≡ q.path
      → none_matches fixed q.path ≡ true
      → ¬ IsGasRequest q.method tail
      → (m : M) × (register_routes mux r ≡ some m)
        × (mux.handler m q.path ≡ some to_proxy)
        × (serve r adapt decode send api now later q g
            ≡ (forward r adapt decode send name tail q, g))
  unfolding register_routes routes
  register_routes-serve adapt decode send api now later g q name tail st distinct found at clean
        free gas =
      let o : OwnRoute (name, st) = All_at OwnRoute (name, st) r own (lookup-In r name st found) in
      let (m, done) = laws.registers (routes r) plain distinct in
      let free' = subst (λ (p : Str). none_matches fixed p ≡ true) at free in
      (
        m,
        done,
        laws.finds (routes r) m done plain (b'/' ∷ (name ++ str "/")) to_proxy q.path clean
            (In-append_right (b'/' ∷ (name ++ str "/"), to_proxy) control_routes
              (network_routes r ++ (str "/metrics", to_metrics) ∷ [])
              (In-append_left (b'/' ∷ (name ++ str "/"), to_proxy) (network_routes r)
                ((str "/metrics", to_metrics) ∷ [])
                (network_routes-In r (name, st) o (lookup-In r name st found))))
            (rw at (below name tail))
            (λ p i match ne. absurd (
              ne
                (only_own r own name tail o.2 free' p i
                  (subst (λ (x : Str). matches p x ≡ true) at match)).1)),
        serve-forward r adapt decode send api now later q g name tail o.2 at gas,
      )

  -- Where each network's route is its name behind a slash, without special bytes, a network that
  -- the registry does not have when the routes are registered, as one that an administrator adds
  -- later, has no route: no request with a clean path below its name has a handler, unless it is
  -- one for the other endpoints, with a slash behind it or without.
  pub register_routes_unknown :
      (m : M) (name tail : Str)
      → register_routes mux r ≡ some m
      → lookup name r ≡ none
      → Lacks b'/' name
      → mux.cleaned (b'/' ∷ (name ++ b'/' ∷ tail)) ≡ b'/' ∷ (name ++ b'/' ∷ tail)
      → none_matches fixed (b'/' ∷ (name ++ b'/' ∷ tail)) ≡ true
      → none_matches fixed (b'/' ∷ (name ++ b'/' ∷ (tail ++ str "/"))) ≡ true
      → mux.handler m (b'/' ∷ (name ++ b'/' ∷ tail)) ≡ none
  unfolding register_routes
  register_routes_unknown m name tail done new lacks clean free free' =
      laws.misses (routes r) m done plain (b'/' ∷ (name ++ b'/' ∷ tail)) clean
        (none_matches_of (keys (routes r)) (b'/' ∷ (name ++ b'/' ∷ tail)) (nothing tail free))
        (subst (λ (p : Str). none_matches (keys (routes r)) p ≡ true)
          (ap (λ (p : Str). b'/' ∷ p) (slash_behind name tail))
          (none_matches_of (keys (routes r)) (b'/' ∷ (name ++ b'/' ∷ (tail ++ str "/")))
            (nothing (tail ++ str "/") free')))
    where
      nothing :
          (tail : Str)
          → none_matches fixed (b'/' ∷ (name ++ b'/' ∷ tail)) ≡ true
          → (q : Str) → In q (keys (routes r))
          → matches q (b'/' ∷ (name ++ b'/' ∷ tail)) ≡ false
      nothing tail free q i = elim (Bool-cases (matches q (b'/' ∷ (name ++ b'/' ∷ tail)))) [
        | inl e ↦
            let (st, at) = (only_own r own name tail lacks free q i e).0 in
            absurd (lookup-ne r name st at new)
        | inr e ↦ e
      ]
