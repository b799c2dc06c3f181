-- ===== src/System/Upstreams.antt =====
-- Whom the proxy, pkg/api/proxy.go, asks, in the states that the gateway reaches.
use mezzium.Base.{
  ℕ, ◌≡◌, refl, sym, subst, inl, inr, Option, none, some, List, [], ◌∷◌, ◌++◌, map, arith, ltb,
  if◌then◌else◌, Option-cases, length, In, All, All-append,
}
use mezzium.Text.{Str, split}
use mezzium.Dict.{lookup}
use mezzium.Networks.{Node, NetworkConfig}
use mezzium.Networks.Loader.{Entry}
use mezzium.Registry.{Registry, NetworkState, best_of}
use mezzium.Registry.Pick.{NodeWithPing}
use mezzium.Registry.Ownership.{IsSound}
use mezzium.Health.Cycle.{Net}
use mezzium.Admin.{AdminState}
use mezzium.Proxy.{
  Headers, Incoming, Adapted, Messages, Outgoing, Answer, Served, outgoing, forward,
}
use mezzium.Proxy.Urls.{IsBelow, IsBelow-build_upstream_url}
use mezzium.Proxy.Relay.{
  request_to, adapted, Relayed, answered, exhausted, Forwarded, no_nodes, none_allowed, tried,
  forward-Forwarded,
}
use mezzium.System.{Reach, start}
use mezzium.System.Soundness.{Reach-start-IsSound}

-- The request goes below the URL of one of the nodes of the network.
abbrev pub IsOwn : Registry → Str → Outgoing → Type 0
IsOwn r network o =
    (st : NetworkState) × (n : Node) × (lookup network r ≡ some st)
    × In n st.all
    × IsBelow n.url o.url

served_all : (bs : List NodeWithPing) → (if ltb 0 (length bs) then bs else []) ≡ bs
served_all [] = refl
served_all (b ∷ bs) = ground arith

best_of-none : (r : Registry) (network : Str) → lookup network r ≡ none → best_of r network ≡ []
unfolding best_of
best_of-none r network e = rw (e, best_of) refl

best_of-some :
    (r : Registry) (network : Str) (st : NetworkState)
    → lookup network r ≡ some st
    → best_of r network ≡ st.best
unfolding best_of
best_of-some r network st e = rw (e, best_of) (served_all st.best)

pub best_of_found :
    (r : Registry) (network : Str) (b : NodeWithPing)
    → In b (best_of r network)
    → (st : NetworkState) × (lookup network r ≡ some st) × In b st.best
best_of_found r network b i = elim (Option-cases (lookup network r)) [
  | inl e ↦ absurd (subst (In b) (best_of-none r network e) i)
  | inr (st, e) ↦ (st, e, subst (In b) (best_of-some r network st e) i)
]

All-before :
    {A : Type 0} (P : A → Type 0) (xs : List A) (x : A) (ys : List A)
    → All P (xs ++ x ∷ ys)
    → All P xs × P x
All-before P [] x ys h = (tt, h.0)
All-before P (z ∷ xs) x ys h = let (k, p) = All-before P xs x ys h.1 in ((h.0, k), p)

module _ (r : Registry) (sound : IsSound r) (network : Str) (request : NodeWithPing → Outgoing)
    (own : (n : NodeWithPing) → IsBelow n.url (request n).url) where
  candidate-IsOwn : (b : NodeWithPing) → In b (best_of r network) → IsOwn r network (request b)
  candidate-IsOwn b i =
      let (st, found, at) = best_of_found r network b i in
      (st, b.node, found, (sound.own network st found b at).1, own b)

  requests-IsOwn :
      (nodes : List NodeWithPing)
      → All (λ (b : NodeWithPing). In b (best_of r network)) nodes
      → All (IsOwn r network) (map request nodes)
  requests-IsOwn [] h = tt
  requests-IsOwn (b ∷ nodes) h = (candidate-IsOwn b h.0, requests-IsOwn nodes h.1)

  module _ (decode : Str → Option Messages) (send : ℕ → Outgoing → Option Answer) where
    Relayed-IsOwn :
        (nodes : List NodeWithPing) (a : Served × List Outgoing)
        → All (λ (b : NodeWithPing). In b (best_of r network)) nodes
        → Relayed decode send request 0 nodes a
        → All (IsOwn r network) a.1
    Relayed-IsOwn nodes a h (answered before n after b split fail s good e) =
        let (k, at) =
          All-before (λ (b : NodeWithPing). In b (best_of r network)) before n after
            (subst (All (λ (b : NodeWithPing). In b (best_of r network))) split h) in
        subst (λ (x : Served × List Outgoing). All (IsOwn r network) x.1) (sym e)
          (All-append (IsOwn r network) (map request before) (request n ∷ [])
            (requests-IsOwn before k) (candidate-IsOwn n at, tt))
    Relayed-IsOwn nodes a h (exhausted message fail e) =
        subst (λ (x : Served × List Outgoing). All (IsOwn r network) x.1) (sym e)
          (requests-IsOwn nodes h)

firsts : {A : Type 0} (P Q : A → Type 0) (xs : List A) → All (λ (x : A). P x × Q x) xs → All P xs
firsts P Q [] h = tt
firsts P Q (x ∷ xs) h = (h.0.0, firsts P Q xs h.1)

module _ (r : Registry) (sound : IsSound r)
    (adapt : Str → Str → Str → Str → Str → Headers → Str → Adapted) (decode : Str → Option Messages)
    (send : ℕ → Outgoing → Option Answer) (network tail : Str) (q : Incoming) where
  Forwarded-IsOwn :
      (a : Served × List Outgoing)
      → Forwarded r adapt decode send network tail q a
      → All (IsOwn r network) a.1
  unfolding outgoing
  Forwarded-IsOwn a (no_nodes m e k) =
      subst (λ (x : Served × List Outgoing). All (IsOwn r network) x.1) (sym k) tt
  Forwarded-IsOwn a (none_allowed x xs m e k l) =
      subst (λ (x : Served × List Outgoing). All (IsOwn r network) x.1) (sym l) tt
  Forwarded-IsOwn a (tried first others raw nodes e ne k c rel) =
      let ad = adapted r adapt decode send network tail q first in
      Relayed-IsOwn r sound network (request_to r adapt decode send network tail q ad raw)
        (λ n. IsBelow-build_upstream_url n.url ad.tail raw) decode send nodes a
        (firsts (λ (b : NodeWithPing). In b (best_of r network)) _ nodes c) rel

-- In every state that the gateway reaches after its start, by ticks, requests of administrators and
-- messages of peers that each end before the next begins, the proxy sends requests, whatever
-- request comes, only to URLs below those of nodes that the network has at that moment.
pub Reach-forward-IsOwn :
    (parse : Str → Option NetworkConfig) (getenv : Str → Str) (net : Net)
    (dir : Option (List Entry)) (admin_key : Str) (s t : AdminState)
    (adapt : Str → Str → Str → Str → Str → Headers → Str → Adapted) (decode : Str → Option Messages)
    (send : ℕ → Outgoing → Option Answer) (network tail : Str) (q : Incoming)
    → start parse getenv net dir ≡ inr s
    → Reach admin_key s t
    → All (IsOwn t.reg network) (forward t.reg adapt decode send network tail q).1
Reach-forward-IsOwn parse getenv net dir admin_key s t adapt decode send network tail q e reach =
    Forwarded-IsOwn t.reg (Reach-start-IsSound parse getenv net dir admin_key s t e reach) adapt
      decode send network tail q (forward t.reg adapt decode send network tail q)
      (forward-Forwarded t.reg adapt decode send network tail q)
