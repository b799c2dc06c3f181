-- ===== src/Ws/Events.antt =====
-- What one event does to a session of ServeWS, pkg/api/ws.go.
use mezzium.Base.{
  ◌≡◌, subst, inl, inr, true, false, Option, none, some, List, [], ◌∷◌, ◌++◌, arith, Option-cases,
}
use mezzium.Ws.{Session, Event, from_client, client_fails, from_upstream, upstream_fails, step, run}

pub run-step :
    (e : Event) (es : List Event) (s t : Session)
    → run (e ∷ es) s ≡ some t
    → (u : Session) × (step e s ≡ some u) × (run es u ≡ some t)
unfolding run
run-step e es s t h = elim (Option-cases (step e s)) [
  | inl k ↦ absurd (
      cc (
        subst
          (λ (x : Option Session).
            ◌≡◌ {A = Option Session} (elim x [ none ↦ none | some u ↦ run es u ]) (some t))
          k h))
  | inr (u, k) ↦ (
    u,
    k,
    subst
        (λ (x : Option Session).
          ◌≡◌ {A = Option Session} (elim x [ none ↦ none | some u ↦ run es u ]) (some t))
        k h,
  )
]

-- An event on the list of one direction.
abbrev pub Extends : Event → Session → Session → Type 0
Extends (from_client m true) s u =
    (s.forwarding ≡ true)
    × (u.forwarding ≡ true)
    × (u.to_upstream ≡ s.to_upstream ++ m ∷ [])
    × (u.serving ≡ s.serving)
    × (u.to_client ≡ s.to_client)
Extends (from_client m false) s u =
    (s.forwarding ≡ true)
    × (u.forwarding ≡ false)
    × (u.to_upstream ≡ s.to_upstream)
    × (u.serving ≡ s.serving)
    × (u.to_client ≡ s.to_client)
Extends client_fails s u =
    (s.forwarding ≡ true)
    × (u.forwarding ≡ false)
    × (u.to_upstream ≡ s.to_upstream)
    × (u.serving ≡ s.serving)
    × (u.to_client ≡ s.to_client)
Extends (from_upstream m true) s u =
    (s.serving ≡ true)
    × (u.serving ≡ true)
    × (u.to_client ≡ s.to_client ++ m ∷ [])
    × (u.forwarding ≡ s.forwarding)
    × (u.to_upstream ≡ s.to_upstream)
Extends (from_upstream m false) s u =
    (s.serving ≡ true)
    × (u.serving ≡ false)
    × (u.to_client ≡ s.to_client)
    × (u.forwarding ≡ s.forwarding)
    × (u.to_upstream ≡ s.to_upstream)
Extends upstream_fails s u =
    (s.serving ≡ true)
    × (u.serving ≡ false)
    × (u.to_client ≡ s.to_client)
    × (u.forwarding ≡ s.forwarding)
    × (u.to_upstream ≡ s.to_upstream)

pub step-Extends : (e : Event) (s u : Session) → step e s ≡ some u → Extends e s u
unfolding step
step-Extends (from_client m true) s u h = ground (arith, h)
step-Extends (from_client m false) s u h = ground (arith, h)
step-Extends client_fails s u h = ground (arith, h)
step-Extends (from_upstream m true) s u h = ground (arith, h)
step-Extends (from_upstream m false) s u h = ground (arith, h)
step-Extends upstream_fails s u h = ground (arith, h)
