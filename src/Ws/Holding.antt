-- ===== src/Ws/Holding.antt =====
-- How long ServeWS, pkg/api/ws.go, holds its connections.
use mezzium.Base.{◌≡◌, refl, ◌∙◌, subst, ◌≢◌, true, false, some, List, [], ◌∷◌, All}
use mezzium.Ws.{
  opened, Message, Session, Event, from_client, client_fails, from_upstream, upstream_fails, run,
}
use mezzium.Ws.Events.{run-step, Extends, step-Extends}

-- The upstream neither fails nor is a message of its lost.
abbrev pub IsCalm : Event → Type 0
IsCalm e = (e ≢ upstream_fails) × ((m : Message) → e ≢ from_upstream m false)

run-serving_from :
    (es : List Event) (s t : Session)
    → s.serving ≡ true
    → run es s ≡ some t
    → All IsCalm es
    → t.serving ≡ true
unfolding run
run-serving_from [] s t on h calm =
    let same : s ≡ t = cc h in subst (λ (x : Session). x.serving ≡ true) same on
run-serving_from (e ∷ es) s t on h calm =
    let (u, k, rest) = run-step e es s t h in
    run-serving_from es u t (still e u (step-Extends e s u k) calm.0) rest calm.1
  where
    still : (e : Event) (u : Session) → Extends e s u → IsCalm e → u.serving ≡ true
    still (from_client m true) u x p = x.3 ∙ on
    still (from_client m false) u x p = x.3 ∙ on
    still client_fails u x p = x.3 ∙ on
    still (from_upstream m true) u x p = x.1
    still (from_upstream m false) u x p = absurd (p.1 m refl)
    still upstream_fails u x p = absurd (p.0 refl)

-- As long as the upstream does not fail and its messages can be written, the session stays open,
-- whatever the client does: also once the client is gone, both connections are held.
pub run-serving :
    (es : List Event) (s : Session) → run es opened ≡ some s → All IsCalm es → s.serving ≡ true
unfolding opened
run-serving es s h calm = run-serving_from es opened s refl h calm
