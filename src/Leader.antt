-- ===== src/Leader.antt =====
-- pkg/leader: the peer with the least id leads, and sends heartbeats.
pub mod Election
pub mod Heartbeats
mod Tests
use mezzium.Base.{ℕ, Bool, true, false, Option, none, some, List, [], ◌∷◌, if◌then◌else◌}
use mezzium.Base.Int.{ℤ, pos, ◌-ℤ◌, ◌*ℤ◌, ltb_ℤ}
use mezzium.Text.{Str, ◌==◌, str_lt, str}
use mezzium.Dict.{Dict, lookup, insert}
use mezzium.Peers.{Peer, Store, list}

-- The loop of Elect.
unfoldable pub least_from : Str → List Peer → Str
least_from least [] = least
least_from least (p ∷ ps) = least_from (if str_lt p.id least then p.id else least) ps

unfoldable pub elect : List Peer → Str
unfolding least_from
elect [] = []
elect (p ∷ ps) = least_from p.id (p ∷ ps)

-- lastHeartbeat: the Unix time in seconds of the last heartbeat of each id.
abbrev pub Heartbeats : Type 0
Heartbeats = Dict ℤ

unfoldable pub record_heartbeat : Str → ℤ → Heartbeats → Heartbeats
record_heartbeat id ts h = insert id ts h

-- time.Since(time.Unix(ts, 0)) < ttl, in nanoseconds.
unfoldable pub is_leader_alive : ℤ → Str → ℤ → Heartbeats → Bool
is_leader_alive now id ttl h = elim (lookup id h) [
  | none ↦ false
  | some ts ↦ ltb_ℤ (now -ℤ ts *ℤ pos 1_000_000_000) ttl
]

-- The peers to which the leader posts: all but itself.
unfoldable pub targets : Str → List Peer → List Peer
targets self [] = []
targets self (p ∷ ps) = if p.id == self then targets self ps else p ∷ targets self ps

pub record Round : Type 0 where
  pub posts : List Peer
  pub warned : Bool
  pub heartbeats : Heartbeats

-- One round of HeartbeatLoop, at the Unix time `ts` in seconds and the clock `now` in nanoseconds.
unfoldable pub heartbeat_round : List Peer → Str → ℤ → ℤ → ℤ → Heartbeats → Round
unfolding elect targets record_heartbeat is_leader_alive
heartbeat_round plist self ttl ts now h =
    if elect plist == self
    then record {
      posts = targets self plist;
      warned = false;
      heartbeats = record_heartbeat self ts h;
    }
    else record {
      posts = [];
      warned = if is_leader_alive now (elect plist) ttl h then false else true;
      heartbeats = h;
    }

pub record Heartbeat : Type 0 where
  pub leader_id : Str
  pub timestamp : ℤ

-- Handler: the status of the response, and the heartbeats after it. The body is `none` where it
-- cannot be decoded.
unfoldable pub handler : Str → Option Heartbeat → Heartbeats → ℕ × Heartbeats
unfolding record_heartbeat
handler method body h =
    if method == str "POST"
    then elim body [
      | none ↦ (400, h)
      | some hb ↦ (200, record_heartbeat hb.leader_id hb.timestamp h)
    ]
    else (405, h)
