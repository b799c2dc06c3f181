-- ===== src/Ws.antt =====
-- pkg/api/ws.go: a client's websocket is joined to that of the best node of a network. The library's
-- Upgrade and Dial are arguments that say whether they succeed; what is logged and counted is left
-- out. Messages are the data messages that ReadMessage returns.
pub mod Events
pub mod Copying
pub mod Holding
mod Tests
use mezzium.Base.{
  ℕ, zero, suc, ◌+◌, ◌-◌, ◌*◌, ◌/◌, ◌%◌, ◌^◌, ◌≤◌, ◌<◌, min, ◌≡◌, refl, sym, ap, ◌∙◌, subst, ◌≢◌,
  ◌↔◌, ◌⊎◌, inl, inr, Bool, true, false, not, ◌&&◌, ◌||◌, Option, none, some, List, [], ◌∷◌, ◌++◌,
  map, arith, ltb, leb, eqb, if◌then◌else◌, ltb_iff, leb_iff, eqb_iff, Bool-cases, Option-cases,
  length, get_elem?, keep, length-append, length-keep-le, keep_idem, In, In-append_left,
  In-append_right, In-keep, In-of_keep, All, All-append, All-keep, All_at, All_of,
}
use mezzium.Text.{
  Str, str, ◌==◌, str_lt, lower_byte, to_lower, has_prefix, contains, trim_left, trim_right, trim,
  strip_prefix, trim_prefix, split, join,
}
use mezzium.Text.Laws.{eq_iff, eq_refl, eq_of_test}
use mezzium.Registry.{Registry, best_of}
use mezzium.Registry.Pick.{NodeWithPing}

-- How ServeWS begins. Upgrade answers the client itself where it fails.
pub data Opening : Type 0 where
  http_error : (code : ℕ) → (message : Str) → Opening
  not_upgraded : Opening
  not_dialed : (upstream : Str) → Opening
  joined : (upstream : Str) → Opening

-- parts[0] of the path after "/ws/"; there is always one part.
unfoldable pub ws_network : Str → Str
ws_network path = elim (split b'/' (trim_prefix path (str "/ws/"))) [
  | [] ↦ []
  | network ∷ rest ↦ network
]

unfoldable pub open_with : (upgrades : Bool) (dials : Str → Bool) → List NodeWithPing → Opening
open_with upgrades dials [] = http_error 503 (str "no healthy nodes")
open_with upgrades dials (n ∷ ns) =
    if has_prefix n.url (str "ws")
    then if upgrades then if dials n.url then joined n.url else not_dialed n.url else not_upgraded
    else http_error 502 (str "upstream is not websocket")

-- ServeWS up to the loops.
unfoldable pub serve_ws : (upgrades : Bool) (dials : Str → Bool) → Registry → (path : Str) → Opening
unfolding open_with ws_network
serve_ws upgrades dials r path = open_with upgrades dials (best_of r (ws_network path))

pub record Message : Type 0 where
  pub kind : ℕ
  pub payload : Str

-- The two loops: the goroutine reads from the client as long as it is forwarding, and ServeWS from
-- the upstream as long as it is serving; when it returns, it closes both connections.
pub record Session : Type 0 where
  pub forwarding : Bool
  pub serving : Bool
  pub to_upstream : List Message
  pub to_client : List Message

unfoldable pub opened : Session
opened = record { forwarding = true; serving = true; to_upstream = []; to_client = [] }

-- One round of one of the loops: a message is read, and written or not, or the read fails.
pub data Event : Type 0 where
  from_client : Message → (written : Bool) → Event
  client_fails : Event
  from_upstream : Message → (written : Bool) → Event
  upstream_fails : Event

-- The session after an event; `none` is an event that cannot come. Nothing can be written to a
-- connection that is closed.
unfoldable pub step : Event → Session → Option Session
step (from_client m true) s =
    if s.forwarding && s.serving
    then some (record s { to_upstream = s.to_upstream ++ m ∷ [] })
    else none
step (from_client m false) s = if s.forwarding then some (record s { forwarding = false }) else none
step client_fails s = if s.forwarding then some (record s { forwarding = false }) else none
step (from_upstream m true) s =
    if s.serving then some (record s { to_client = s.to_client ++ m ∷ [] }) else none
step (from_upstream m false) s = if s.serving then some (record s { serving = false }) else none
step upstream_fails s = if s.serving then some (record s { serving = false }) else none

-- The loops interleave in any order.
unfoldable pub run : List Event → Session → Option Session
unfolding step
run [] s = some s
run (e ∷ es) s = elim (step e s) [ none ↦ none | some t ↦ run es t ]
