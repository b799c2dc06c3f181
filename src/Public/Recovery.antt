-- ===== src/Public/Recovery.antt =====
-- Throttled nodes come back: pkg/api/throttle.go and the groups of pkg/api/public.go together.
use mezzium.Base.{
  ℕ, ◌+◌, ◌≤◌, ◌≡◌, refl, sym, subst, true, false, not, List, arith, In, In-keep, In-of_keep,
}
use mezzium.Base.Int.{eqb_ℤ, eqb_ℤ_iff}
use mezzium.Text.{Str}
use mezzium.Registry.Pick.{NodeWithPing}
use mezzium.Throttle.{Throttler, is_throttled, mark_429, count_429}
use mezzium.Throttle.Backoff.{is_throttled-mark, grow_lem}
use mezzium.Public.{candidates}
use mezzium.Public.Groups.{unthrottled}
use mezzium.Public.Order.{candidates-ByPriority}

-- A node of the list that is not throttled is asked.
In-candidates :
    (now : ℕ) (t : Throttler) (nodes : List NodeWithPing) (n : NodeWithPing)
    → In n nodes
    → is_throttled now n.url t ≡ false
    → In n (candidates now t nodes)
In-candidates now t nodes n i free =
    let test = λ (m : NodeWithPing). eqb_ℤ m.priority n.priority in
    let own : test n ≡ true = (eqb_ℤ_iff n.priority n.priority).1 refl in
    let (_, same) = candidates-ByPriority now t nodes n.priority in
    let j =
      In-keep (λ (m : NodeWithPing). not (is_throttled now m.url t)) n nodes i (rw free refl) in
    (In-of_keep test n (candidates now t nodes)
      (subst (In n) (sym same) (In-keep test n (unthrottled now t nodes) j own))).0

mark_429-free :
    (now later : ℕ) (url : Str) (t : Throttler)
    → t.base ≤ t.max_backoff
    → now + t.max_backoff ≤ later
    → is_throttled later url (mark_429 now url t) ≡ false
mark_429-free now later url t le over =
    rw (is_throttled-mark now later url t)
      (rw (grow_lem (count_429 url t) t.max_backoff t.base le) (ground arith))

-- However often a node has limited the rate, it is among those that are asked again once the maximal
-- backoff has passed since the last time, as long as it is one of the network's best.
pub mark_429-candidates :
    (now later : ℕ) (t : Throttler) (nodes : List NodeWithPing) (n : NodeWithPing)
    → t.base ≤ t.max_backoff
    → now + t.max_backoff ≤ later
    → In n nodes
    → In n (candidates later (mark_429 now n.url t) nodes)
mark_429-candidates now later t nodes n le over i =
    In-candidates later (mark_429 now n.url t) nodes n i (mark_429-free now later n.url t le over)
