-- ===== src/System/Websockets.antt =====
-- The health checks, pkg/health, and the websockets, pkg/api/ws.go, together.
use mezzium.Base.{
  ℕ, ◌≡◌, refl, ◌≢◌, inl, inr, Bool, true, false, List, [], ◌∷◌, arith, Bool-cases, In,
}
use mezzium.Text.{Str, str, has_prefix}
use mezzium.Base.Int.{ℤ}
use mezzium.Registry.{Registry, best_of}
use mezzium.Registry.Pick.{NodeWithPing}
use mezzium.Dict.Distinct.{DistinctKeys}
use mezzium.Health.Checks.{Request, Drops, trim_suffix_slash}
use mezzium.Health.Outcomes.{IsServed}
use mezzium.Health.Cycle.{Net, health_tick}
use mezzium.Health.Freshness.{health_tick-AreFresh}
use mezzium.Ws.{http_error, joined, ws_network, open_with, serve_ws}
use mezzium.System.Upstreams.{best_of_found}

-- net/http has no transport for the schemes ws and wss: such a request fails.
abbrev pub RefusesWs : Net → Type 0
RefusesWs net =
    (name : Str) (k : ℕ) (req : Request) (ping : ℤ)
    → has_prefix req.url (str "ws") ≡ true
    → ¬ IsServed ping (net name k req)

has_prefix_trans :
    (s t u : Str) → has_prefix s t ≡ true → has_prefix t u ≡ true → has_prefix s u ≡ true
unfolding has_prefix
has_prefix_trans s t [] h k = refl
has_prefix_trans s [] (c ∷ u) h k = absurd (cc k)
has_prefix_trans [] (d ∷ t) (c ∷ u) h k = h
has_prefix_trans (e ∷ s) (d ∷ t) (c ∷ u) h k = ground (arith, h, k, has_prefix_trans s t u)

trimmed_ws :
    (url : Str)
    → has_prefix url (str "ws") ≡ true
    → has_prefix (trim_suffix_slash url) (str "ws") ≡ true
unfolding has_prefix trim_suffix_slash
trimmed_ws [] h = h
trimmed_ws (c ∷ []) h = ground (arith, h)
trimmed_ws (c ∷ d ∷ []) h = ground (arith, h)
trimmed_ws (c ∷ d ∷ e ∷ s) h = ground (arith, h)

open_with-joined :
    (upgrades : Bool) (dials : Str → Bool) (nodes : List NodeWithPing) (u : Str)
    → open_with upgrades dials nodes ≡ joined u
    → (b : NodeWithPing) × In b nodes × (has_prefix b.url (str "ws") ≡ true)
unfolding open_with
open_with-joined upgrades dials [] u h = absurd (cc h)
open_with-joined upgrades dials (n ∷ ns) u h = elim (Bool-cases (has_prefix n.url (str "ws"))) [
  | inl ws ↦ (n, inl refl, ws)
  | inr other ↦ absurd (cc (open_with-other upgrades dials n ns other, h))
]
  where
    open_with-other :
        (upgrades : Bool) (dials : Str → Bool) (n : NodeWithPing) (ns : List NodeWithPing)
        → has_prefix n.url (str "ws") ≡ false
        → open_with upgrades dials (n ∷ ns) ≡ http_error 502 (str "upstream is not websocket")
    open_with-other upgrades dials n ns other = rw (other, open_with) refl

-- A URL that begins with "ws" cannot pass a health check, where net/http refuses its scheme, and
-- only such a URL is dialed: after a tick of the health loop no websocket is joined to an upstream,
-- whatever the nodes of the networks are, each of which stands once in the registry.
pub health_tick-serve_ws :
    (net : Net) (now : ℕ) (r : Registry) (drops : Drops) (upgrades : Bool) (dials : Str → Bool)
    (path u : Str)
    → RefusesWs net
    → DistinctKeys r
    → serve_ws upgrades dials (health_tick net now r drops).0 path ≢ joined u
unfolding serve_ws
health_tick-serve_ws net now r drops upgrades dials path u refuses d h =
    let after = (health_tick net now r drops).0 in
    let (b, i, ws) = open_with-joined upgrades dials (best_of after (ws_network path)) u h in
    let (st, found, at) = best_of_found after (ws_network path) b i in
    let (alive, own, (k, req, to, ok)) =
      health_tick-AreFresh net now r drops d (ws_network path) st b found at in
    refuses (ws_network path) k req b.ping
      (has_prefix_trans req.url (trim_suffix_slash b.url) (str "ws") to (trimmed_ws b.url ws)) ok
