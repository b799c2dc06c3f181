-- ===== src/Ws/Copying.antt =====
-- What the loops of ServeWS, pkg/api/ws.go, carry over.
use mezzium.Base.{
  ◌≤◌, ◌≡◌, refl, sym, ap, ◌∙◌, subst, Bool, true, false, some, List, [], ◌∷◌, ◌++◌, arith, length,
}
use mathlib.Core.List.{append_assoc}
use mezzium.Ws.{
  opened, Message, Session, Event, from_client, client_fails, from_upstream, upstream_fails, run,
}
use mezzium.Ws.Events.{run-step, Extends, step-Extends}

-- The messages that were read from the client.
pub client_messages : List Event → List Message
client_messages [] = []
client_messages (from_client m w ∷ es) = m ∷ client_messages es
client_messages (client_fails ∷ es) = client_messages es
client_messages (from_upstream m w ∷ es) = client_messages es
client_messages (upstream_fails ∷ es) = client_messages es

-- The messages that were read from the upstream.
pub upstream_messages : List Event → List Message
upstream_messages [] = []
upstream_messages (from_client m w ∷ es) = upstream_messages es
upstream_messages (client_fails ∷ es) = upstream_messages es
upstream_messages (from_upstream m w ∷ es) = m ∷ upstream_messages es
upstream_messages (upstream_fails ∷ es) = upstream_messages es

-- What was read has been written, in order, but for at most one last message, and for none while
-- the loop still runs.
abbrev pub Carries : (runs : Bool) → (read written : List Message) → Type 0
Carries runs read written =
    (lost : List Message) × (read ≡ written ++ lost) × (length lost ≤ 1) × (runs ≡ true → lost ≡ [])

-- What one of the loops does with the messages it reads, from a start to an end.
data Copies : Bool → List Message → List Message → Bool → List Message → Type 0 where
  quiet : {runs : Bool} {written : List Message} → Copies runs written [] runs written
  wrote :
      {written read after : List Message} {runs : Bool} (m : Message)
      → Copies true (written ++ m ∷ []) read runs after
      → Copies true written (m ∷ read) runs after
  lost :
      {written read after : List Message} {runs : Bool} (m : Message)
      → Copies false written read runs after
      → Copies true written (m ∷ read) runs after
  failed :
      {written read after : List Message} {runs : Bool}
      → Copies false written read runs after
      → Copies true written read runs after

Copies-stopped :
    (written read : List Message) (runs : Bool) (after : List Message)
    → Copies false written read runs after
    → (read ≡ []) × (runs ≡ false) × (after ≡ written)
Copies-stopped written read runs after quiet = (refl, refl, refl)

Copies-Carries :
    (written read : List Message) (runs : Bool) (after : List Message)
    → Copies true written read runs after
    → Carries runs (written ++ read) after
Copies-Carries written read runs after quiet = ([], refl, omega arith, λ e. refl)
Copies-Carries written read runs after (wrote {read = rest} m c) =
    let (gone, e, few, all) = Copies-Carries (written ++ m ∷ []) rest runs after c in
    (gone, sym (append_assoc written (m ∷ []) rest) ∙ e, few, all)
Copies-Carries written read runs after (lost {read = rest} m c) =
    let (none_left, stopped, same) = Copies-stopped written rest runs after c in
    (
      m ∷ [],
      ap (λ l. written ++ m ∷ l) none_left ∙ ap (λ (l : List Message). l ++ m ∷ []) (sym same),
      omega arith,
      λ e. absurd (cc (stopped, e)),
    )
Copies-Carries written read runs after (failed c) =
    let (none_left, stopped, same) = Copies-stopped written read runs after c in
    (
      [],
      ap (λ (l : List Message). written ++ l) none_left
          ∙ ap (λ (l : List Message). l ++ []) (sym same),
      omega arith,
      λ e. absurd (cc (stopped, e)),
    )

moved :
    {b c : Bool} {v w : List Message} (read : List Message) (runs : Bool) (after : List Message)
    → b ≡ c
    → v ≡ w
    → Copies b v read runs after
    → Copies c w read runs after
moved {c = c} {v = v} read runs after e f h =
    subst (λ x. Copies c x read runs after) f (subst (λ x. Copies x v read runs after) e h)

run-Copies_up :
    (es : List Event) (s t : Session)
    → run es s ≡ some t
    → Copies s.forwarding s.to_upstream (client_messages es) t.forwarding t.to_upstream
unfolding run client_messages
run-Copies_up [] s t h =
    let same : s ≡ t = cc h in
    subst (λ (x : Session). Copies s.forwarding s.to_upstream [] x.forwarding x.to_upstream) same
      quiet
run-Copies_up (e ∷ es) s t h =
    let (u, k, rest) = run-step e es s t h in
    after_event e u (step-Extends e s u k) (run-Copies_up es u t rest)
  where
    after_event :
        (e : Event) (u : Session)
        → Extends e s u
        → Copies u.forwarding u.to_upstream (client_messages es) t.forwarding t.to_upstream
        → Copies s.forwarding s.to_upstream (client_messages (e ∷ es)) t.forwarding t.to_upstream
    after_event (from_client m true) u x c =
        moved _ _ _ (sym x.0) refl (wrote m (moved _ _ _ x.1 x.2 c))
    after_event (from_client m false) u x c =
        moved _ _ _ (sym x.0) refl (lost m (moved _ _ _ x.1 x.2 c))
    after_event client_fails u x c = moved _ _ _ (sym x.0) refl (failed (moved _ _ _ x.1 x.2 c))
    after_event (from_upstream m true) u x c = moved _ _ _ x.3 x.4 c
    after_event (from_upstream m false) u x c = moved _ _ _ x.3 x.4 c
    after_event upstream_fails u x c = moved _ _ _ x.3 x.4 c

run-Copies_down :
    (es : List Event) (s t : Session)
    → run es s ≡ some t
    → Copies s.serving s.to_client (upstream_messages es) t.serving t.to_client
unfolding run upstream_messages
run-Copies_down [] s t h =
    let same : s ≡ t = cc h in
    subst (λ (x : Session). Copies s.serving s.to_client [] x.serving x.to_client) same quiet
run-Copies_down (e ∷ es) s t h =
    let (u, k, rest) = run-step e es s t h in
    after_event e u (step-Extends e s u k) (run-Copies_down es u t rest)
  where
    after_event :
        (e : Event) (u : Session)
        → Extends e s u
        → Copies u.serving u.to_client (upstream_messages es) t.serving t.to_client
        → Copies s.serving s.to_client (upstream_messages (e ∷ es)) t.serving t.to_client
    after_event (from_upstream m true) u x c =
        moved _ _ _ (sym x.0) refl (wrote m (moved _ _ _ x.1 x.2 c))
    after_event (from_upstream m false) u x c =
        moved _ _ _ (sym x.0) refl (lost m (moved _ _ _ x.1 x.2 c))
    after_event upstream_fails u x c = moved _ _ _ (sym x.0) refl (failed (moved _ _ _ x.1 x.2 c))
    after_event (from_client m true) u x c = moved _ _ _ x.3 x.4 c
    after_event (from_client m false) u x c = moved _ _ _ x.3 x.4 c
    after_event client_fails u x c = moved _ _ _ x.3 x.4 c

-- However the two loops interleave, what has been written to the upstream are the messages that were
-- read from the client, unchanged and in order, but for at most one last message, which was lost
-- as the loop ended; and the same holds of the other direction.
pub run-Carries :
    (es : List Event) (s : Session)
    → run es opened ≡ some s
    → Carries s.forwarding (client_messages es) s.to_upstream
      × Carries s.serving (upstream_messages es) s.to_client
unfolding opened
run-Carries es s h = (
  Copies-Carries [] (client_messages es) s.forwarding s.to_upstream (run-Copies_up es opened s h),
  Copies-Carries [] (upstream_messages es) s.serving s.to_client (run-Copies_down es opened s h),
)
