-- ===== src/Public/Sends.antt =====
-- What the endpoints of pkg/api/public.go send, and to which nodes.
use mathlib.Core.List.{append_assoc}
use mezzium.Base.{
  ℕ, ◌≡◌, refl, sym, ap, ◌∙◌, subst, false, Option, List, [], ◌∷◌, ◌++◌, length, In, All,
  All-append, All_of,
}
use mezzium.Text.{Str}
use mezzium.Registry.Pick.{NodeWithPing}
use mezzium.Throttle.{is_throttled}
use mezzium.Proxy.{Outgoing, Answer, Messages}
use mezzium.Public.{Calls, candidates_of, first_2xx}
use mezzium.Public.Order.{candidates-unthrottled}
use mezzium.Public.Loops.{not_found, found, Found, first_2xx-Found_loops, missed, all_missed}

-- What is sent between two states is of a kind.
abbrev pub SendsOnly : (Outgoing → Type 0) → Calls → Calls → Type 0
SendsOnly P s s' = (more : List Outgoing) × (s'.sent ≡ more ++ s.sent) × All P more

All_before :
    (Q : NodeWithPing → Type 0) (before : List NodeWithPing) (n : NodeWithPing)
    (after : List NodeWithPing)
    → All Q (before ++ n ∷ after)
    → All Q before × Q n
All_before Q [] n after h = (tt, h.0)
All_before Q (m ∷ before) n after h =
    let (hs, k) = All_before Q before n after h.1 in ((h.0, hs), k)

module _ (decode : Str → Option Messages) (send : ℕ → Outgoing → Option Answer) (clock : ℕ → ℕ)
    (request : NodeWithPing → Outgoing) where
  all_missed-SendsOnly :
      (P : Outgoing → Type 0) (nodes : List NodeWithPing) (s : Calls)
      → All (λ n. P (request n)) nodes
      → SendsOnly P s (all_missed decode send clock request nodes s)
  all_missed-SendsOnly P [] s h = ([], refl, tt)
  all_missed-SendsOnly P (n ∷ ns) s h =
      let (more, e, only) = all_missed-SendsOnly P ns (missed decode send clock request n s) h.1 in
      (
        more ++ request n ∷ [],
        e ∙ sym (append_assoc more (request n ∷ []) s.sent),
        All-append P more (request n ∷ []) only (h.0, tt),
      )

  Found-SendsOnly :
      (P : Outgoing → Type 0) (nodes : List NodeWithPing) (s : Calls) (r : Option Answer × Calls)
      → Found decode send clock request nodes s r
      → All (λ n. P (request n)) nodes
      → SendsOnly P s r.1
  Found-SendsOnly P nodes s r (found before n after a cut misses e good d) h =
      let (hs, k) =
        All_before (λ m. P (request m)) before n after (subst (All (λ m. P (request m))) cut h) in
      let (more, same, only) = all_missed-SendsOnly P before s hs in
      (
        request n ∷ more,
        ap (λ (x : Option Answer × Calls). x.1.sent) d ∙ ap (λ l. request n ∷ l) same,
        (k, only),
      )
  Found-SendsOnly P nodes s r (not_found misses d) h =
      let (more, same, only) = all_missed-SendsOnly P nodes s h in
      (more, ap (λ (x : Option Answer × Calls). x.1.sent) d ∙ same, only)

  -- A request to a node of the list that is not throttled when the call begins.
  abbrev pub ToUnthrottled : List NodeWithPing → Calls → Outgoing → Type 0
  ToUnthrottled nodes s o =
      (n : NodeWithPing) × In n nodes
      × (is_throttled (clock (length s.sent)) n.url s.throttler ≡ false)
      × (o ≡ request n)

  -- A call sends nothing but its request to nodes of the list that are not throttled when it begins,
  -- and what was sent before stays.
  pub first_2xx-SendsOnly :
      (nodes : List NodeWithPing) (s : Calls)
      → SendsOnly (ToUnthrottled nodes s) s (first_2xx decode send clock request nodes s).1
  unfolding candidates_of
  first_2xx-SendsOnly nodes s =
      let now = clock (length s.sent) in
      Found-SendsOnly (ToUnthrottled nodes s) (candidates_of clock nodes s) s _
        (first_2xx-Found_loops decode send clock request nodes s)
        (All_of (λ n. ToUnthrottled nodes s (request n)) (candidates_of clock nodes s)
          (λ n i.
            let (k, free) = candidates-unthrottled now s.throttler nodes n i in (n, k, free, refl)))
