-- ===== src/Health/Fairness.antt =====
-- The limiters of cmd/app/limiter.go bound the checks that run at once, and all checks end.
use mezzium.Base.{
  ℕ, zero, suc, ◌+◌, ◌-◌, ◌*◌, ◌≤◌, ◌<◌, ◌≡◌, refl, sym, ap, ◌∙◌, ◌⊎◌, inl, inr, some, List, [],
  ◌∷◌, arith, eqb, if◌then◌else◌, ltb_iff, eqb_iff, length, All,
}
use mezzium.Text.{Str}
use mezzium.Registry.{Registry}
use mezzium.Health.Limits.{
  Limiter, new_limiter, acquire, release, waiting, running, finished, Goroutine, Limiters,
  set_limiter, Step, starts, ends, other, Steps, here, next, goroutines, limits,
}

-- The goroutines that run with a limiter.
pub running_with : ℕ → List Goroutine → ℕ
running_with i [] = 0
running_with i (waiting j ∷ gs) = running_with i gs
running_with i (running j ∷ gs) = (if eqb j i then 1 else 0) + running_with i gs
running_with i (finished j ∷ gs) = running_with i gs

-- The steps that are left.
steps_left : List Goroutine → ℕ
steps_left [] = 0
steps_left (waiting j ∷ gs) = suc (suc (steps_left gs))
steps_left (running j ∷ gs) = suc (steps_left gs)
steps_left (finished j ∷ gs) = steps_left gs

acquire_lem :
    (x l : Limiter)
    → acquire x ≡ some l
    → (l.held ≡ suc x.held) × (l.held ≤ l.cap) × (l.cap ≡ x.cap)
unfolding acquire
acquire_lem x l h = ground (arith, h)

release_lem : (x l : Limiter) → release x ≡ some l → (suc l.held ≡ x.held) × (l.cap ≡ x.cap)
unfolding release
release_lem x l h = ground (arith, h)

Step-steps_left :
    {ls ms : Limiters} {gs hs : List Goroutine}
    → Step ls gs ms hs
    → suc (steps_left hs) ≡ steps_left gs
unfolding steps_left
Step-steps_left (starts i l h) = refl
Step-steps_left (ends i l h) = refl
Step-steps_left (other (waiting j) st) = ap (λ n. suc (suc n)) (Step-steps_left st)
Step-steps_left (other (running j) st) = ap (λ n. suc n) (Step-steps_left st)
Step-steps_left (other (finished j) st) = Step-steps_left st

release-some : (x : Limiter) → 0 < x.held → release x ≡ some (record x { held = x.held - 1 })
unfolding release
release-some x h = rw ((ltb_iff 0 x.held).1 h, release) refl

acquire-some : (x : Limiter) → x.held < x.cap → acquire x ≡ some (record x { held = x.held + 1 })
unfolding acquire
acquire-some x h = rw ((ltb_iff x.held x.cap).1 h, acquire) refl

-- The tokens in a limiter change like the number of the goroutines that run with it.
Step-held :
    {ls ms : Limiters} {gs hs : List Goroutine}
    → Step ls gs ms hs
    → (i : ℕ)
    → ((ms i).held + running_with i gs ≡ (ls i).held + running_with i hs)
      × ((ls i).held ≤ (ls i).cap → (ms i).held ≤ (ms i).cap)
      × ((ms i).cap ≡ (ls i).cap)
unfolding running_with set_limiter
Step-held (starts {ls = ls} {gs = gs} j l h) i = ground (arith, acquire_lem (ls j) l h, eqb_iff j i)
Step-held (ends {ls = ls} {gs = gs} j l h) i = ground (arith, release_lem (ls j) l h, eqb_iff j i)
Step-held (other (waiting j) st) i = Step-held st i
Step-held (other (running j) st) i =
    let (same, bound, cap) = Step-held st i in (omega (arith, same), bound, cap)
Step-held (other (finished j) st) i = Step-held st i

-- Either a goroutine that runs can end, or none runs.
can_end :
    (ls : Limiters) (gs : List Goroutine)
    → ((i : ℕ) → running_with i gs ≤ (ls i).held)
    → ((ms : Limiters) × (hs : List Goroutine) × Step ls gs ms hs)
      ⊎ ((i : ℕ) → running_with i gs ≡ 0)
unfolding running_with
can_end ls [] h = inr (λ i. refl)
can_end ls (waiting j ∷ gs) h = elim (can_end ls gs h) [
  | inl (ms, hs, st) ↦ inl (ms, waiting j ∷ hs, other (waiting j) st)
  | inr idle ↦ inr idle
]
can_end ls (finished j ∷ gs) h = elim (can_end ls gs h) [
  | inl (ms, hs, st) ↦ inl (ms, finished j ∷ hs, other (finished j) st)
  | inr idle ↦ inr idle
]
can_end ls (running j ∷ gs) h = inl (
  set_limiter j (record (ls j) { held = (ls j).held - 1 }) ls,
  finished j ∷ gs,
  ends j (record (ls j) { held = (ls j).held - 1 })
      (release-some (ls j) (ground (arith, h j, eqb_iff j j))),
)

can_start :
    (ls : Limiters) (gs : List Goroutine)
    → ((i : ℕ) → (ls i).held < (ls i).cap)
    → ((i : ℕ) → running_with i gs ≡ 0)
    → ((ms : Limiters) × (hs : List Goroutine) × Step ls gs ms hs) ⊎ (steps_left gs ≡ 0)
unfolding running_with steps_left
can_start ls [] h idle = inr refl
can_start ls (waiting j ∷ gs) h idle = inl (
  set_limiter j (record (ls j) { held = (ls j).held + 1 }) ls,
  running j ∷ gs,
  starts j (record (ls j) { held = (ls j).held + 1 }) (acquire-some (ls j) (h j)),
)
can_start ls (finished j ∷ gs) h idle = elim (can_start ls gs h idle) [
  | inl (ms, hs, st) ↦ inl (ms, finished j ∷ hs, other (finished j) st)
  | inr none_left ↦ inr none_left
]
can_start ls (running j ∷ gs) h idle = ground (arith, idle j, eqb_iff j j)

-- The tokens are those of the goroutines that run, and they fit.
abbrev pub IsFair : Limiters → List Goroutine → Type 0
IsFair ls gs =
    (i : ℕ)
    → ((ls i).held ≡ running_with i gs) × ((ls i).held ≤ (ls i).cap) × ((ls i).cap ≡ (limits i).cap)

Step-IsFair :
    {ls ms : Limiters} {gs hs : List Goroutine} → Step ls gs ms hs → IsFair ls gs → IsFair ms hs
Step-IsFair st fair i =
    let (same, bound, cap) = Step-held st i in
    let (held, fits, own) = fair i in (omega (arith, same, held), bound fits, cap ∙ own)

limits_lem : (i : ℕ) → 0 < (limits i).cap
unfolding limits new_limiter
limits_lem i = ground arith

can_go_on :
    (ls : Limiters) (gs : List Goroutine)
    → IsFair ls gs
    → ((ms : Limiters) × (hs : List Goroutine) × Step ls gs ms hs) ⊎ (steps_left gs ≡ 0)
can_go_on ls gs fair = elim (can_end ls gs (λ i. omega (arith, (fair i).0))) [
  | inl step ↦ inl step
  | inr idle ↦
      can_start ls gs (λ i. omega (arith, (fair i).0, (fair i).2, idle i, limits_lem i)) idle
]

Steps-cons :
    {ls ms : Limiters} {gs hs : List Goroutine} {n : ℕ} {ns : Limiters} {is : List Goroutine}
    → Step ls gs ms hs
    → Steps ms hs n ns is
    → Steps ls gs (suc n) ns is
Steps-cons st here = next here st
Steps-cons st (next r last) = next (Steps-cons st r) last

finishes :
    (n : ℕ) (ls : Limiters) (gs : List Goroutine)
    → steps_left gs ≡ n
    → IsFair ls gs
    → (ms : Limiters) × (hs : List Goroutine) × Steps ls gs n ms hs × (steps_left hs ≡ 0)
finishes zero ls gs e fair = (ls, gs, here, e)
finishes (suc n) ls gs e fair = elim (can_go_on ls gs fair) [
  | inl (ms, hs, st) ↦
      let (ns, is, more, over) =
        finishes n ms hs (omega (arith, Step-steps_left st, e)) (Step-IsFair st fair) in
      (ns, is, Steps-cons st more, over)
  | inr over ↦ absurd (omega (arith, over, e))
]

abbrev pub AreFinished : List Goroutine → Type 0
AreFinished gs = All (λ (g : Goroutine). (i : ℕ) × (g ≡ finished i)) gs

steps_left-AreFinished : (gs : List Goroutine) → steps_left gs ≡ 0 → AreFinished gs
unfolding steps_left
steps_left-AreFinished [] e = tt
steps_left-AreFinished (waiting j ∷ gs) e = absurd (omega (arith, e))
steps_left-AreFinished (running j ∷ gs) e = absurd (omega (arith, e))
steps_left-AreFinished (finished j ∷ gs) e = ((j, refl), steps_left-AreFinished gs e)

Steps-steps_left :
    {ls : Limiters} {gs : List Goroutine} {n : ℕ} {ms : Limiters} {hs : List Goroutine}
    → Steps ls gs n ms hs
    → n + steps_left hs ≡ steps_left gs
Steps-steps_left here = omega arith
Steps-steps_left (next r st) = omega (arith, Steps-steps_left r, Step-steps_left st)

Steps-IsFair :
    {ls : Limiters} {gs : List Goroutine} {n : ℕ} {ms : Limiters} {hs : List Goroutine}
    → Steps ls gs n ms hs
    → IsFair ls gs
    → IsFair ms hs
Steps-IsFair here fair = fair
Steps-IsFair (next r st) fair = Step-IsFair st (Steps-IsFair r fair)

running_with-goroutines :
    (i : ℕ) (domains : List Str) (r : Registry) → running_with i (goroutines domains r) ≡ 0
unfolding running_with goroutines
running_with-goroutines i domains [] = refl
running_with-goroutines i domains ((name, st) ∷ r) = running_with-goroutines i domains r

goroutines-IsFair : (domains : List Str) (r : Registry) → IsFair limits (goroutines domains r)
unfolding limits new_limiter
goroutines-IsFair domains r i = (sym (running_with-goroutines i domains r), omega arith, refl)

steps_left-goroutines :
    (domains : List Str) (r : Registry) → steps_left (goroutines domains r) ≡ 2 * length r
unfolding steps_left goroutines
steps_left-goroutines domains [] = refl
steps_left-goroutines domains ((name, st) ∷ r) = omega (arith, steps_left-goroutines domains r)

-- However the goroutines of a tick have moved on so far, at most five run with the default limiter
-- and at most one with that of a domain, and they do not block: some 2 k - n further steps, for n
-- steps so far and k networks, lead to a state where all have finished, and no run is longer than
-- 2 k steps.
pub Steps-AreFinished :
    (domains : List Str) (r : Registry) (n : ℕ) (ms : Limiters) (hs : List Goroutine)
    → Steps limits (goroutines domains r) n ms hs
    → ((i : ℕ) → running_with i hs ≤ (if eqb i 0 then 5 else 1))
      × (n ≤ 2 * length r)
      × ((ns : Limiters) × (is : List Goroutine) × Steps ms hs (2 * length r - n) ns is
          × AreFinished is)
unfolding limits new_limiter
Steps-AreFinished domains r n ms hs run =
    let fair = Steps-IsFair run (goroutines-IsFair domains r) in
    let all = steps_left-goroutines domains r in
    let sum = Steps-steps_left run in
    let (ns, is, more, over) = finishes (2 * length r - n) ms hs (omega (arith, all, sum)) fair in
    (
      (λ i. omega (arith, fair i)),
      omega (arith, all, sum),
      (ns, is, more, steps_left-AreFinished is over),
    )
