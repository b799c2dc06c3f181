-- ===== src/Gossip/StateExchange.antt =====
-- StateHandler of pkg/gossip/state.go: what one message does to the registry.
use mezzium.Base.{
  ℕ, ◌+◌, ◌*◌, ◌≤◌, min, ◌≡◌, refl, ap, ◌∙◌, ◌≢◌, ◌⊎◌, inl, inr, true, false, Option, none, some,
  List, [], ◌∷◌, arith, Bool-cases, Option-cases, length, In, All, All_of,
}
use mezzium.Text.{Str, str, ◌==◌}
use mezzium.Text.Laws.{eq_iff}
use mezzium.Dict.{lookup, modify, keys}
use mezzium.Dict.Laws.{lookup-modify, keys-modify}
use mathlib.Core.Option
use mezzium.Registry.{Registry, NetworkState, DiscoveredNode, has_url}
use mezzium.Gossip.{
  NodeAdvert, NetworkAdvert, StateMessage, discover, merge_advert, merge_adverts, max_discovered,
  discovered_ttl, state_handler,
}
use mezzium.Gossip.Discovery.{count_new, Covered, length-scan, scan-All, scan-Covered}

-- A discovered node was there before, or comes from an advert of the list for a URL that is not
-- known: without headers, not through Tor, and for ten minutes.
abbrev pub Origin : ℕ → NetworkState → List NodeAdvert → DiscoveredNode → Type 0
Origin now st nodes d =
    In d st.discovered
    ⊎ ((n : NodeAdvert) × In n nodes
        × (has_url n.url st.all ≡ false)
        × (d.node.url ≡ n.url)
        × (d.node.priority ≡ n.priority)
        × (d.node.headers ≡ [])
        × (d.node.tor ≡ false)
        × (d.expires_at ≡ now + discovered_ttl))

module _ (now : ℕ) (adv : NetworkAdvert) (st : NetworkState) where
  -- An advert changes nothing of a network but its discovered nodes. Of these each was there before
  -- or is made from an advertised node with an unknown URL; and each advertised URL is afterwards
  -- known or discovered, or there are twenty discovered nodes or more.
  pub merge_advert_lem :
      (record (merge_advert now adv st) { discovered = st.discovered } ≡ st)
      × All (Origin now st adv.nodes) (merge_advert now adv st).discovered
      × ((n : NodeAdvert)
          → In n adv.nodes
          → (has_url n.url st.all ≡ true) ⊎ Covered n.url (merge_advert now adv st).discovered)
  unfolding merge_advert discover
  merge_advert_lem = (
    refl,
    scan-All now st.all (Origin now st adv.nodes) adv.nodes adv.nodes st.discovered
        (λ n i new. inr (n, i, new, refl, refl, refl, refl, refl))
        (All_of (Origin now st adv.nodes) st.discovered (λ d i. inl i)),
    λ n i. elim (Bool-cases (has_url n.url st.all)) [
      | inl known ↦ inl known
      | inr new ↦
          inr (scan-Covered now st.all n.url n adv.nodes adv.nodes st.discovered i i refl new)
    ],
  )

  -- The two nested loops run over the same adverts, so that k new ones are appended k times over:
  -- from at most twenty discovered nodes the list grows by k * k, up to twenty.
  pub length-merge_advert :
      length st.discovered ≤ max_discovered
      → length (merge_advert now adv st).discovered
        ≡ min max_discovered
            (length st.discovered + count_new st.all adv.nodes * count_new st.all adv.nodes)
  unfolding merge_advert
  length-merge_advert h = length-scan now st.all adv.nodes adv.nodes st.discovered h

-- No network has more than twenty discovered nodes.
abbrev pub IsBounded : Registry → Type 0
IsBounded r =
    (name : Str) (st : NetworkState)
    → lookup name r ≡ some st
    → length st.discovered ≤ max_discovered

modify-IsBounded :
    (now : ℕ) (adv : NetworkAdvert) (r : Registry)
    → IsBounded r
    → IsBounded (modify adv.name (merge_advert now adv) r)
modify-IsBounded now adv r h name st e = elim (Bool-cases (adv.name == name)) [
  | inl same ↦
      let (old, was, new) =
        (Option.map-eq-some_iff _ _).0
          (rw same at (rw (lookup-modify adv.name name (merge_advert now adv) r) at e)) in
      rw (← new) (omega (arith, length-merge_advert now adv old (h name old was)))
  | inr other ↦
      h name st (rw other at (rw (lookup-modify adv.name name (merge_advert now adv) r) at e))
]

merge_adverts-IsBounded :
    (now : ℕ) (advs : List NetworkAdvert) (r : Registry)
    → IsBounded r
    → IsBounded (merge_adverts now advs r)
unfolding merge_adverts
merge_adverts-IsBounded now [] r h = h
merge_adverts-IsBounded now (adv ∷ advs) r h =
    merge_adverts-IsBounded now advs (modify adv.name (merge_advert now adv) r)
      (modify-IsBounded now adv r h)

-- What gossip may not touch.
abbrev pub SameButDiscovered : NetworkState → NetworkState → Type 0
SameButDiscovered st st' = record st' { discovered = st.discovered } ≡ st

merge_adverts_frame :
    (now : ℕ) (advs : List NetworkAdvert) (r : Registry) (name : Str) (st : NetworkState)
    → lookup name r ≡ some st
    → (st' : NetworkState) × (lookup name (merge_adverts now advs r) ≡ some st')
      × SameButDiscovered st st'
unfolding merge_adverts
merge_adverts_frame now [] r name st e = (st, e, refl)
merge_adverts_frame now (adv ∷ advs) r name st e = elim (Bool-cases (adv.name == name)) [
  | inl same ↦
      let now_there : lookup name (modify adv.name (merge_advert now adv) r)
          ≡ some (merge_advert now adv st) =
        rw (lookup-modify, same, e) refl in
      let (st', found, eq) =
        merge_adverts_frame now advs (modify adv.name (merge_advert now adv) r) name
          (merge_advert now adv st) now_there in
      (
        st',
        found,
        ap (λ (s : NetworkState). record s { discovered = st.discovered }) eq
            ∙ (merge_advert_lem now adv st).0,
      )
  | inr other ↦
      merge_adverts_frame now advs (modify adv.name (merge_advert now adv) r) name st
        (rw (lookup-modify, other) e)
]

keys-merge_adverts :
    (now : ℕ) (advs : List NetworkAdvert) (r : Registry) → keys (merge_adverts now advs r) ≡ keys r
unfolding merge_adverts
keys-merge_adverts now [] r = refl
keys-merge_adverts now (adv ∷ advs) r =
    keys-merge_adverts now advs (modify adv.name (merge_advert now adv) r)
    ∙ keys-modify adv.name (merge_advert now adv) r

module _ (now : ℕ) (method : Str) (body : Option StateMessage) (r : Registry) where
  -- The three ways in which a request ends.
  state_handler_cases :
      ((method ≢ str "POST") × (state_handler now method body r ≡ (405, r)))
      ⊎ ((body ≡ none) × (state_handler now method body r ≡ (400, r)))
      ⊎ ((msg : StateMessage) × (method ≡ str "POST")
          × (body ≡ some msg)
          × (state_handler now method body r ≡ (200, merge_adverts now msg.networks r)))
  unfolding state_handler
  state_handler_cases = elim (Bool-cases (method == str "POST")) [
    | inl post ↦ elim (Option-cases body) [
      | inl e ↦ inr (inl (e, rw (post, e) refl))
      | inr (msg, e) ↦ inr (inr (msg, (eq_iff method (str "POST")).0 post, e, rw (post, e) refl))
    ]
    | inr other ↦ inl (λ e. cc ((eq_iff method (str "POST")).1 e), rw other refl)
  ]

  -- Whatever is posted, no network gets more than twenty discovered nodes.
  pub state_handler-IsBounded : IsBounded r → IsBounded (state_handler now method body r).1
  state_handler-IsBounded h = elim state_handler_cases [
    | inl (_, e) ↦ rw e h
    | inr (inl (_, e)) ↦ rw e h
    | inr (inr (msg, _, _, e)) ↦ rw e (merge_adverts-IsBounded now msg.networks r h)
  ]

  -- Whatever is posted, the networks stay the same ones, and each keeps its nodes, its best nodes
  -- and its settings: a peer can only propose nodes.
  pub state_handler_frame :
      (keys (state_handler now method body r).1 ≡ keys r)
      × ((name : Str) (st : NetworkState)
          → lookup name r ≡ some st
          → (st' : NetworkState) × (lookup name (state_handler now method body r).1 ≡ some st')
            × SameButDiscovered st st')
  state_handler_frame = elim state_handler_cases [
    | inl (_, e) ↦ rw e (refl, λ name st h. (st, h, refl))
    | inr (inl (_, e)) ↦ rw e (refl, λ name st h. (st, h, refl))
    | inr (inr (msg, _, _, e)) ↦
        rw e (keys-merge_adverts now msg.networks r, merge_adverts_frame now msg.networks r)
  ]
