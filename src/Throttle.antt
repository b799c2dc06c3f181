-- ===== src/Throttle.antt =====
-- pkg/api/throttle.go: upstreams that answered 429 are left alone for a while. Times and durations
-- are nanoseconds; a clock reading is an argument of each call that reads the clock. The field
-- until of the source is `deadlines` here.
pub mod Backoff
mod Tests
use mezzium.Base.{
  ℕ, zero, suc, ◌+◌, ◌-◌, ◌*◌, Bool, true, false, Option, none, some, List, [], ltb, leb,
  if◌then◌else◌,
}
use mezzium.Text.{Str}
use mezzium.Dict.{Dict, lookup, insert, delete}

pub record Throttler : Type 0 where
  pub deadlines : Dict ℕ
  pub backoffs : Dict ℕ
  pub base : ℕ
  pub max_backoff : ℕ

unfoldable pub new_throttler : Throttler
new_throttler = record {
  deadlines = [];
  backoffs = [];
  base = 30_000_000_000;
  max_backoff = 600_000_000_000;
}

unfoldable pub is_throttled : ℕ → Str → Throttler → Bool
is_throttled now url t = elim (lookup url t.deadlines) [ none ↦ false | some u ↦ ltb now u ]

-- t.backoffs[url], which is 0 for a missing key
unfoldable pub count_429 : Str → Throttler → ℕ
count_429 url t = elim (lookup url t.backoffs) [ none ↦ 0 | some n ↦ n ]

-- The loop that doubles the backoff, by the rounds that are left.
unfoldable pub grow : ℕ → ℕ → ℕ → ℕ
grow zero max_backoff backoff = backoff
grow (suc rounds) max_backoff backoff =
    let rest = grow rounds max_backoff (backoff * 2) in
    if leb max_backoff (backoff * 2) then max_backoff else rest

unfoldable pub mark_429 : ℕ → Str → Throttler → Throttler
unfolding count_429 grow
mark_429 now url t =
    let n = count_429 url t + 1 in
    record t {
      backoffs = insert url n t.backoffs;
      deadlines = insert url (now + grow (n - 1) t.max_backoff t.base) t.deadlines;
    }

unfoldable pub reset : Str → Throttler → Throttler
reset url t = record t { deadlines = delete url t.deadlines; backoffs = delete url t.backoffs }
