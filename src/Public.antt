-- ===== src/Public.antt =====
-- pkg/api/public.go: the endpoints that ask the best nodes in the order of their priorities, and
-- leave alone those that limit the rate. `send` is the network and `clock` the time, by the number
-- of the requests that the handler has sent; evmThrottler is a part of the state. The queries that
-- the source logs are not modelled.
pub mod Groups
pub mod Order
pub mod Loops
pub mod Sends
pub mod Endpoints
pub mod Fees
pub mod Balances
pub mod Nodes
pub mod Redacted
pub mod Recovery
pub mod Pages
mod Tests
use mezzium.Base.{
  ℕ, ◌/◌, Bool, true, false, Option, none, some, List, [], ◌∷◌, ◌++◌, eqb, if◌then◌else◌, length,
}
use mezzium.Base.Int.{ℤ, pos, ltb_ℤ, eqb_ℤ}
use mezzium.Text.{Str, str}
use mezzium.Registry.Pick.{NodeWithPing}
use mezzium.Throttle.{Throttler, is_throttled, mark_429, reset}
use mezzium.Proxy.{Outgoing, Answer, Messages, is_rate_limited, set_header, set_all}

-- groups, whose keys are priorities in the order in which they were appended.
abbrev pub Groups : Type 0
Groups = List (ℤ × List NodeWithPing)

unfoldable pub add_to_group : NodeWithPing → Groups → Groups
add_to_group n [] = (n.priority, n ∷ []) ∷ []
add_to_group n ((p, ns) ∷ gs) =
    if eqb_ℤ p n.priority then (p, ns ++ n ∷ []) ∷ gs else (p, ns) ∷ add_to_group n gs

unfoldable pub group_by_priority : ℕ → Throttler → List NodeWithPing → Groups → Groups
unfolding add_to_group
group_by_priority now t [] gs = gs
group_by_priority now t (n ∷ ns) gs =
    group_by_priority now t ns (if is_throttled now n.url t then gs else add_to_group n gs)

-- sort.Ints on priorities, with their groups.
unfoldable pub insert_group : ℤ × List NodeWithPing → Groups → Groups
insert_group g [] = g ∷ []
insert_group g (h ∷ gs) = if ltb_ℤ h.0 g.0 then h ∷ insert_group g gs else g ∷ h ∷ gs

unfoldable pub sort_groups : Groups → Groups
unfolding insert_group
sort_groups [] = []
sort_groups (g ∷ gs) = insert_group g (sort_groups gs)

-- The nodes in the order of the two loops.
unfoldable pub flatten : Groups → List NodeWithPing
flatten [] = []
flatten ((p, ns) ∷ gs) = ns ++ flatten gs

unfoldable pub candidates : ℕ → Throttler → List NodeWithPing → List NodeWithPing
unfolding group_by_priority sort_groups flatten
candidates now t nodes = flatten (sort_groups (group_by_priority now t nodes []))

-- The throttler, and what was sent, the last request first.
pub record Calls : Type 0 where
  pub throttler : Throttler
  pub sent : List Outgoing

unfoldable pub candidates_of : (ℕ → ℕ) → List NodeWithPing → Calls → List NodeWithPing
unfolding candidates
candidates_of clock nodes s = candidates (clock (length s.sent)) s.throttler nodes

-- What follows an attempt that did not return.
unfoldable pub or_else : {A S : Type 0} → Option A × S → (S → Option A × S) → Option A × S
or_else (none, s) later = later s
or_else (some a, s) later = (some a, s)

-- The loops, with an attempt for their body: up to the first that returns.
unfoldable pub first_of :
    {A S : Type 0} → (NodeWithPing → S → Option A × S) → List NodeWithPing → S → Option A × S
unfolding or_else
first_of attempt [] s = (none, s)
first_of attempt (n ∷ ns) s = or_else (attempt n s) (first_of attempt ns)

-- A POST request; the headers of the node win over the content type, or not.
unfoldable pub post_to : ℤ → Bool → Str → NodeWithPing → Outgoing
unfolding set_header set_all
post_to timeout node_wins body n = record {
  method = str "POST";
  url = n.url;
  body = body;
  headers =
      if node_wins
      then set_all n.headers (set_header (str "content-type") (str "application/json") [])
      else set_header (str "content-type") (str "application/json") (set_all n.headers []);
  timeout = timeout;
  tor = false;
}

-- The throttling of a node that succeeds ends.
unfoldable pub after_call : Str → Option Answer × Calls → Option Answer × Calls
after_call url (none, s) = (none, s)
after_call url (some a, s) = (some a, record s { throttler = reset url s.throttler })

module _ (decode : Str → Option Messages) (send : ℕ → Outgoing → Option Answer)
    (clock : ℕ → ℕ) where
  -- What an answer does to the throttler, and whether it is a success: one that limits the rate is
  -- marked.
  unfoldable pub judge_answer : Str → Option Answer → Calls → Option Answer × Calls
  unfolding is_rate_limited
  judge_answer url none s = (none, s)
  judge_answer url (some a) s =
      if is_rate_limited decode a
      then (none, record s { throttler = mark_429 (clock (length s.sent)) url s.throttler })
      else if eqb (a.status / 100) 2
      then (some a, s)
      else (none, s)

  unfoldable pub call_node : Outgoing → Calls → Option Answer × Calls
  unfolding judge_answer
  call_node o s = judge_answer o.url (send (length s.sent) o) (record s { sent = o ∷ s.sent })

  -- The body of the loops of tryForwardJSONRPCToNodes and the like.
  unfoldable pub attempt_node :
      (NodeWithPing → Outgoing) → NodeWithPing → Calls → Option Answer × Calls
  unfolding call_node after_call
  attempt_node request n s = after_call n.url (call_node (request n) s)

  unfoldable pub first_2xx :
      (NodeWithPing → Outgoing) → List NodeWithPing → Calls → Option Answer × Calls
  unfolding candidates_of first_of attempt_node
  first_2xx request nodes s = first_of (attempt_node request) (candidates_of clock nodes s) s

  -- callFirst2xx; forwardFirst2xx says whether there is an answer.
  unfoldable pub call_first_2xx : List NodeWithPing → Str → Calls → Option Answer × Calls
  unfolding first_2xx post_to
  call_first_2xx nodes raw s = first_2xx (post_to (pos 8_000_000_000) true raw) nodes s
