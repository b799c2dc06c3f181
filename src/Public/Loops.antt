-- ===== src/Public/Loops.antt =====
-- How the loops of pkg/api/public.go go through the nodes.
use mezzium.Base.{
  ℕ, suc, ◌/◌, ◌≤◌, ◌<◌, ◌≡◌, refl, ap, inl, inr, true, false, Option, none, some, List, [], ◌∷◌,
  ◌++◌, arith, eqb, if◌then◌else◌, Bool-cases, Option-cases, length,
}
use mezzium.Text.{Str}
use mezzium.Registry.Pick.{NodeWithPing}
use mezzium.Throttle.{Throttler, mark_429, reset}
use mezzium.Proxy.{Outgoing, Answer, Messages, is_rate_limited}
use mezzium.Public.Groups.{of_priority, unthrottled}
use mezzium.Public.Order.{ByPriority, candidates-ByPriority}
use mezzium.Base.Int.{ℤ, pos}
use mezzium.Public.{
  candidates_of, or_else, after_call, Calls, first_of, attempt_node, first_2xx, call_node,
  judge_answer,
}

module _ (decode : Str → Option Messages) (send : ℕ → Outgoing → Option Answer) (clock : ℕ → ℕ)
    (request : NodeWithPing → Outgoing) where
  -- An answer that ends the loops.
  abbrev pub IsSuccess : Answer → Type 0
  IsSuccess a = (is_rate_limited decode a ≡ false) × (200 ≤ a.status) × (a.status < 300)

  -- What comes back from a node.
  abbrev pub answer_of : NodeWithPing → Calls → Option Answer
  answer_of n s = send (length s.sent) (request n)

  abbrev pub IsMiss : Option Answer → Type 0
  IsMiss none = Unit
  IsMiss (some a) = ¬ IsSuccess a

  -- The throttler after an answer: one that limits the rate is marked.
  abbrev pub marked : Str → ℕ → Option Answer → Throttler → Throttler
  marked url now none t = t
  marked url now (some a) t = if is_rate_limited decode a then mark_429 now url t else t

  -- The state after a node that was asked in vain.
  abbrev pub missed : NodeWithPing → Calls → Calls
  missed n s = record {
    throttler = marked (request n).url (clock (suc (length s.sent))) (answer_of n s) s.throttler;
    sent = request n ∷ s.sent;
  }

  -- The nodes were all asked in vain, and the state after them.
  abbrev pub AllMiss : List NodeWithPing → Calls → Type 0
  AllMiss [] s = Unit
  AllMiss (n ∷ ns) s = IsMiss (answer_of n s) × AllMiss ns (missed n s)

  abbrev pub all_missed : List NodeWithPing → Calls → Calls
  all_missed [] s = s
  all_missed (n ∷ ns) s = all_missed ns (missed n s)

  -- The ways in which the loops end.
  pub data Found (nodes : List NodeWithPing) (s : Calls) (r : Option Answer × Calls) : Type 0 where
    found :
        (before : List NodeWithPing) (n : NodeWithPing) (after : List NodeWithPing) (a : Answer)
        → nodes ≡ before ++ n ∷ after
        → AllMiss before s
        → answer_of n (all_missed before s) ≡ some a
        → IsSuccess a
        → r ≡ (
          some a,
          record {
            throttler = reset n.url (all_missed before s).throttler;
            sent = request n ∷ (all_missed before s).sent;
          },
        )
        → Found nodes s r
    not_found : AllMiss nodes s → r ≡ (none, all_missed nodes s) → Found nodes s r

  -- The state that a node with an answer leaves: before the throttler is reset.
  abbrev asked : NodeWithPing → Calls → Calls
  asked n s = record s { sent = request n ∷ s.sent }

  call_node-none :
      (n : NodeWithPing) (s : Calls)
      → answer_of n s ≡ none
      → call_node decode send clock (request n) s ≡ (none, missed n s)
  unfolding call_node judge_answer
  call_node-none n s e = rw (e, call_node) refl

  call_node-limited :
      (n : NodeWithPing) (s : Calls) (a : Answer)
      → answer_of n s ≡ some a
      → is_rate_limited decode a ≡ true
      → call_node decode send clock (request n) s ≡ (none, missed n s)
  unfolding call_node judge_answer
  call_node-limited n s a e l = rw (e, call_node) (rw l refl)

  call_node-refused :
      (n : NodeWithPing) (s : Calls) (a : Answer)
      → answer_of n s ≡ some a
      → is_rate_limited decode a ≡ false
      → eqb (a.status / 100) 2 ≡ false
      → call_node decode send clock (request n) s ≡ (none, missed n s)
  unfolding call_node judge_answer
  call_node-refused n s a e l k = rw (e, call_node) (rw l (rw k refl))

  call_node-some :
      (n : NodeWithPing) (s : Calls) (a : Answer)
      → answer_of n s ≡ some a
      → is_rate_limited decode a ≡ false
      → eqb (a.status / 100) 2 ≡ true
      → call_node decode send clock (request n) s ≡ (some a, asked n s)
  unfolding call_node judge_answer
  call_node-some n s a e l k = rw (e, call_node) (rw l (rw k refl))

  -- What a node does, in each case.
  data Asked (n : NodeWithPing) (s : Calls) : Type 0 where
    miss :
        IsMiss (answer_of n s)
        → call_node decode send clock (request n) s ≡ (none, missed n s)
        → Asked n s
    success :
        (a : Answer)
        → answer_of n s ≡ some a
        → IsSuccess a
        → call_node decode send clock (request n) s ≡ (some a, asked n s)
        → Asked n s

  ask-Asked : (n : NodeWithPing) (s : Calls) → Asked n s
  ask-Asked n s = elim (Option-cases (answer_of n s)) [
    | inl e ↦ miss (rw e tt) (call_node-none n s e)
    | inr (a, e) ↦ elim (Bool-cases (is_rate_limited decode a)) [
      | inl l ↦ miss (rw e (λ h. cc (h.0, l))) (call_node-limited n s a e l)
      | inr l ↦ elim (Bool-cases (eqb (a.status / 100) 2)) [
        | inl k ↦ success a e (l, ground (arith, k), ground (arith, k)) (call_node-some n s a e l k)
        | inr k ↦ miss (rw e (λ h. ground (arith, h, k))) (call_node-refused n s a e l k)
      ]
    ]
  ]

  found_later :
      (n : NodeWithPing) (ns : List NodeWithPing) (s : Calls) (r : Option Answer × Calls)
      → IsMiss (answer_of n s)
      → Found ns (missed n s) r
      → Found (n ∷ ns) s r
  found_later n ns s r m (found before k after a cut misses e good d) =
      found (n ∷ before) k after a (ap (λ (l : List NodeWithPing). n ∷ l) cut) (m, misses) e good d
  found_later n ns s r m (not_found misses d) = not_found (m, misses) d

  attempt_node-miss :
      (n : NodeWithPing) (s : Calls)
      → call_node decode send clock (request n) s ≡ (none, missed n s)
      → attempt_node decode send clock request n s ≡ (none, missed n s)
  unfolding attempt_node after_call
  attempt_node-miss n s e = rw (e, attempt_node) refl

  attempt_node-success :
      (n : NodeWithPing) (s : Calls) (a : Answer)
      → call_node decode send clock (request n) s ≡ (some a, asked n s)
      → attempt_node decode send clock request n s
        ≡ (some a, record { throttler = reset n.url s.throttler; sent = request n ∷ s.sent })
  unfolding attempt_node after_call
  attempt_node-success n s a e = rw (e, attempt_node) refl

  found_next :
      (n : NodeWithPing) (ns : List NodeWithPing) (s : Calls)
      → Asked n s
      → Found ns (missed n s) (first_of (attempt_node decode send clock request) ns (missed n s))
      → Found (n ∷ ns) s (first_of (attempt_node decode send clock request) (n ∷ ns) s)
  unfolding first_of or_else
  found_next n ns s (miss m e) rest =
      rw (attempt_node-miss n s e, first_of) (found_later n ns s _ m rest)
  found_next n ns s (success a e good d) rest =
      found [] n ns a refl tt e good (rw (attempt_node-success n s a d, first_of) refl)

  first_of-Found :
      (nodes : List NodeWithPing) (s : Calls)
      → Found nodes s (first_of (attempt_node decode send clock request) nodes s)
  unfolding first_of
  first_of-Found [] s = not_found tt refl
  first_of-Found (n ∷ ns) s = found_next n ns s (ask-Asked n s) (first_of-Found ns (missed n s))

  pub first_2xx-Found_loops :
      (nodes : List NodeWithPing) (s : Calls)
      → Found (candidates_of clock nodes s) s (first_2xx decode send clock request nodes s)
  unfolding first_2xx
  first_2xx-Found_loops nodes s = first_of-Found (candidates_of clock nodes s) s

  -- The nodes to ask: those that are not throttled now, in the order of their priorities, and those
  -- of one priority in the order of the list.
  abbrev pub AreCandidates : ℕ → Throttler → List NodeWithPing → List NodeWithPing → Type 0
  AreCandidates now t nodes cs =
      ByPriority cs × ((p : ℤ) → of_priority p cs ≡ of_priority p (unthrottled now t nodes))

  -- A call asks the nodes that are not throttled in the order of their priorities, up to the first
  -- that answers with a status of 200 to 299 and does not limit the rate: its answer is the result,
  -- and its throttling ends. Of those before it, the ones that limit the rate are marked in the
  -- throttler; if there is none, all are asked, and the call has no result.
  pub first_2xx-Found :
      (nodes : List NodeWithPing) (s : Calls)
      → (cs : List NodeWithPing) × AreCandidates (clock (length s.sent)) s.throttler nodes cs
        × Found cs s (first_2xx decode send clock request nodes s)
  unfolding candidates_of
  first_2xx-Found nodes s =
      let now = clock (length s.sent) in
      (
        candidates_of clock nodes s,
        (
          (candidates-ByPriority now s.throttler nodes (pos 0)).0,
          λ p. (candidates-ByPriority now s.throttler nodes p).1,
        ),
        first_2xx-Found_loops nodes s,
      )
