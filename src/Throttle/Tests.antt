-- ===== src/Throttle/Tests.antt =====
-- Runs of the throttler.
use mezzium.Text.{◌==◌}
use mezzium.Text.Laws.{ne_of_test}
use mezzium.Base.{◌≤◌, ◌≡◌, refl, ◌≢◌, arith}
use mezzium.Text.{str, ◌==◌}
use mezzium.Throttle.{Throttler, new_throttler, count_429, mark_429}

first_429 : count_429 (str "u") new_throttler ≡ 0
unfolding count_429 new_throttler mezzium.Dict.lookup
first_429 = refl

base_le : new_throttler.base ≤ new_throttler.max_backoff
unfolding new_throttler
base_le = ground arith

abbrev marked : Throttler
marked = mark_429 40 (str "u") new_throttler

u_ne : str "u" ≢ str "v"
unfolding ◌==◌
u_ne = ne_of_test (str "u") (str "v") refl
