-- ===== src/Health/Limits.antt =====
-- cmd/app/limiter.go, and the goroutines of cmd/app/health.go that wait for a limiter: a limiter is
-- a channel with its capacity and the tokens in it; a pointer to one is a number, 0 for the default
-- limiter and i + 1 for the one of domain i.
use mezzium.Base.{ℕ, suc, ◌+◌, ◌-◌, ◌≡◌, Option, none, some, List, [], ◌∷◌, ltb, eqb, if◌then◌else◌}
use mezzium.Text.{Str, contains}
use mezzium.Registry.{Registry}
use mezzium.Networks.{Node}

pub record Limiter : Type 0 where
  pub cap : ℕ
  pub held : ℕ

unfoldable pub new_limiter : ℕ → Limiter
new_limiter n = record { cap = n; held = 0 }

-- A send and a receive; `none` is a channel that blocks.
unfoldable pub acquire : Limiter → Option Limiter
acquire l = if ltb l.held l.cap then some (record l { held = l.held + 1 }) else none

unfoldable pub release : Limiter → Option Limiter
release l = if ltb 0 l.held then some (record l { held = l.held - 1 }) else none

-- The goroutine of a network, with its limiter.
pub data Goroutine : Type 0 where
  waiting : ℕ → Goroutine
  running : ℕ → Goroutine
  finished : ℕ → Goroutine

abbrev pub Limiters : Type 0
Limiters = ℕ → Limiter

unfoldable pub set_limiter : ℕ → Limiter → Limiters → Limiters
set_limiter i l ls j = if eqb i j then l else ls j

-- Any one of the goroutines moves on: it gets its limiter and runs the check, or it ends and the
-- deferred release gives the limiter back.
pub data Step : Limiters → List Goroutine → Limiters → List Goroutine → Type 0 where
  starts :
      {ls : Limiters} {gs : List Goroutine} (i : ℕ) (l : Limiter)
      → acquire (ls i) ≡ some l
      → Step ls (waiting i ∷ gs) (set_limiter i l ls) (running i ∷ gs)
  ends :
      {ls : Limiters} {gs : List Goroutine} (i : ℕ) (l : Limiter)
      → release (ls i) ≡ some l
      → Step ls (running i ∷ gs) (set_limiter i l ls) (finished i ∷ gs)
  other :
      {ls ms : Limiters} {gs hs : List Goroutine} (g : Goroutine)
      → Step ls gs ms hs
      → Step ls (g ∷ gs) ms (g ∷ hs)

pub data Steps (ls : Limiters) (gs : List Goroutine) : ℕ → Limiters → List Goroutine → Type 0 where
  here : Steps ls gs 0 ls gs
  next :
      {n : ℕ} {ms ns : Limiters} {hs is : List Goroutine}
      → Steps ls gs n ms hs
      → Step ms hs ns is
      → Steps ls gs (suc n) ns is

unfoldable pub domain_limiter : ℕ → Str → List Str → ℕ
domain_limiter i url [] = 0
domain_limiter i url (domain ∷ domains) =
    let rest = domain_limiter (i + 1) url domains in if contains url domain then i + 1 else rest

unfoldable pub pick_limiter : List Str → List Node → ℕ
unfolding domain_limiter
pick_limiter domains [] = 0
pick_limiter domains (n ∷ ns) = domain_limiter 0 n.url domains

unfoldable pub goroutines : List Str → Registry → List Goroutine
unfolding pick_limiter
goroutines domains [] = []
goroutines domains ((name, st) ∷ r) = waiting (pick_limiter domains st.all) ∷ goroutines domains r

-- The limiters of a tick.
unfoldable pub limits : Limiters
limits i = new_limiter (if eqb i 0 then 5 else 1)
