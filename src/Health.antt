-- ===== src/Health.antt =====
-- pkg/health: whether an upstream answers, how fast, and whether it is to be dropped. The network is
-- a parameter: `net i req` is what comes of the i-th request of a series. Timeouts are in
-- nanoseconds; a reply that does not come in time is a failed one.
pub mod Checks
pub mod Outcomes
pub mod Rounds
pub mod Limits
pub mod Fairness
pub mod Timeouts
pub mod Cycle
pub mod Freshness
mod Tests
use Checks.{Request, Reply, Drops, check}
use mezzium.Networks.{Node}
use mezzium.Registry.Pick.{NodeWithPing, pick_fastest_per_priority}
use mezzium.Registry.{Registry, timeout_ms_of}
use mezzium.Base.{ℕ, ◌+◌, ◌||◌, List, [], ◌∷◌, if◌then◌else◌}
use mezzium.Base.Int.{ℤ, pos, leb_ℤ, ◌*ℤ◌, wrap64}
use mezzium.Text.{Str, str, ◌==◌, to_lower}

-- The loop of UpdateNetwork; the i-th node is checked by `net i`.
unfoldable pub check_nodes :
    Str → (ℕ → Request → Reply) → ℤ → ℕ → List Node → Drops → List NodeWithPing × Drops
unfolding check
check_nodes protocol net timeout i [] drops = ([], drops)
check_nodes protocol net timeout i (n ∷ ns) drops =
    let v = check protocol (net i) n timeout drops in
    let (res, drops') = check_nodes protocol net timeout (i + 1) ns v.drops in
    (record { node = n; alive = v.alive; ping = v.ping } ∷ res, drops')

unfoldable pub default_timeout_for : Str → ℤ
default_timeout_for protocol =
    let p = to_lower protocol in
    if p == str "sol"
    then pos 800_000_000
    else if p == str "evm"
    then pos 1_500_000_000
    else if p == str "trx"
    then pos 1_500_000_000
    else if p == str "btc" || p == str "doge" || p == str "ltc"
    then pos 2_000_000_000
    else pos 1_500_000_000

unfoldable pub per_node_timeout : Registry → Str → ℤ
unfolding default_timeout_for
per_node_timeout r protocol =
    let tmo = wrap64 (timeout_ms_of r protocol *ℤ pos 1_000_000) in
    if leb_ℤ tmo (pos 0) then default_timeout_for protocol else tmo

unfoldable pub update_network :
    Registry → Str → (ℕ → Request → Reply) → List Node → Drops → List NodeWithPing × Drops
unfolding check_nodes per_node_timeout
update_network r protocol net nodes drops =
    let (res, drops') = check_nodes protocol net (per_node_timeout r protocol) 0 nodes drops in
    (pick_fastest_per_priority res, drops')

-- DrainDropURLs
unfoldable pub drain_drop_urls : Drops → List Str × Drops
drain_drop_urls drops = (drops, [])
