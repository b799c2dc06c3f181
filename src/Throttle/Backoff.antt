-- ===== src/Throttle/Backoff.antt =====
-- How long an upstream is left alone.
use native.Mathlib.Nat.{pow-suc, mul-le-mul_left}
use mezzium.Base.{
  ℕ, zero, suc, ◌+◌, ◌-◌, ◌*◌, ◌^◌, ◌≤◌, min, ◌≡◌, ◌≢◌, refl, inl, inr, false, List, [], ◌∷◌, arith,
  ltb, leb, length, Bool-cases,
}
use mezzium.Text.{Str}
use mezzium.Dict.Laws.{lookup-insert_self, lookup-insert_ne, lookup-delete_self, lookup-delete_ne}
use mezzium.Throttle.{Throttler, is_throttled, count_429, grow, mark_429, reset}

pow_pos : (k : ℕ) → 1 ≤ 2 ^ k
pow_pos zero = omega arith
pow_pos (suc k) = omega (arith, pow_pos k, pow-suc 2 k)

double_pow : (b k : ℕ) → b * 2 ^ suc k ≡ b * 2 * 2 ^ k
double_pow b k = rw pow-suc (omega arith)

-- The loop with its early exit computes the capped power.
pub grow_lem :
    (k max_backoff b : ℕ) → b ≤ max_backoff → grow k max_backoff b ≡ min (b * 2 ^ k) max_backoff
unfolding grow
grow_lem zero m b h = omega arith
grow_lem (suc k) m b h = elim (Bool-cases (leb m (b * 2))) [
  | inl over ↦
      let le : m ≤ b * 2 = ground arith in
      rw (over, double_pow b k) (omega (arith, mul-le-mul_left (b * 2) (pow_pos k)))
  | inr under ↦
      let le : b * 2 ≤ m = ground arith in rw (under, double_pow b k) (grow_lem k m (b * 2) le)
]

-- 429 answers of one upstream, at the given times.
pub mark_all : Str → List ℕ → Throttler → Throttler
mark_all url [] t = t
mark_all url (now ∷ times) t = mark_all url times (mark_429 now url t)

count_429-mark :
    (now : ℕ) (url : Str) (t : Throttler) → count_429 url (mark_429 now url t) ≡ count_429 url t + 1
unfolding mark_429 count_429
count_429-mark now url t = ground (arith, lookup-insert_self url (count_429 url t + 1) t.backoffs)

count_429-mark_all :
    (url : Str) (times : List ℕ) (t : Throttler)
    → count_429 url (mark_all url times t) ≡ count_429 url t + length times
unfolding mark_all
count_429-mark_all url [] t = omega arith
count_429-mark_all url (now ∷ times) t =
    omega (arith, count_429-mark_all url times (mark_429 now url t), count_429-mark now url t)

config-mark_all :
    (url : Str) (times : List ℕ) (t : Throttler)
    → ((mark_all url times t).base ≡ t.base) × ((mark_all url times t).max_backoff ≡ t.max_backoff)
unfolding mark_all mark_429
config-mark_all url [] t = (refl, refl)
config-mark_all url (now ∷ times) t = config-mark_all url times (mark_429 now url t)

pub is_throttled-mark :
    (now later : ℕ) (url : Str) (t : Throttler)
    → is_throttled later url (mark_429 now url t)
      ≡ ltb later (now + grow (count_429 url t) t.max_backoff t.base)
unfolding mark_429 is_throttled
is_throttled-mark now later url t =
    let n : count_429 url t + 1 - 1 ≡ count_429 url t = omega arith in
    rw (lookup-insert_self url, is_throttled) (rw n refl)

-- After a success, or at first, the n-th 429 answer in a row (here the one at time `now`, after
-- those at `times`) keeps the upstream throttled for base * 2 ^ (n - 1), at most max_backoff: until
-- just before that time is over, and no longer.
pub is_throttled-mark_all :
    (url : Str) (times : List ℕ) (now later : ℕ) (t : Throttler)
    → count_429 url t ≡ 0
    → t.base ≤ t.max_backoff
    → is_throttled later url (mark_429 now url (mark_all url times t))
      ≡ ltb later (now + min (t.base * 2 ^ length times) t.max_backoff)
is_throttled-mark_all url times now later t first le =
    let c = config-mark_all url times t in
    let n : count_429 url (mark_all url times t) ≡ length times =
      omega (arith, count_429-mark_all url times t) in
    rw (is_throttled-mark now later url (mark_all url times t), n, c.0, c.1)
      (rw (grow_lem (length times) t.max_backoff t.base le) refl)

-- A success ends the throttling at once, and the next 429 answer counts as the first again.
pub reset-is_throttled :
    (now : ℕ) (url : Str) (t : Throttler)
    → (is_throttled now url (reset url t) ≡ false) × (count_429 url (reset url t) ≡ 0)
unfolding reset is_throttled count_429
reset-is_throttled now url t = (
  rw (lookup-delete_self url t.deadlines, is_throttled) refl,
  rw (lookup-delete_self url t.backoffs, count_429) refl,
)

-- Neither call changes what is known of another upstream.
pub throttle_frame :
    (now later : ℕ) (url other : Str) (t : Throttler)
    → url ≢ other
    → (is_throttled later other (mark_429 now url t) ≡ is_throttled later other t)
      × (count_429 other (mark_429 now url t) ≡ count_429 other t)
      × (is_throttled later other (reset url t) ≡ is_throttled later other t)
      × (count_429 other (reset url t) ≡ count_429 other t)
unfolding mark_429 reset is_throttled count_429
throttle_frame now later url other t ne = (
  rw (lookup-insert_ne url other _ t.deadlines ne, is_throttled) refl,
  rw (lookup-insert_ne url other _ t.backoffs ne, count_429) refl,
  rw (lookup-delete_ne url other t.deadlines ne, is_throttled) refl,
  rw (lookup-delete_ne url other t.backoffs ne, count_429) refl,
)
