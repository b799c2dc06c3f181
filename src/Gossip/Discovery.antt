-- ===== src/Gossip/Discovery.antt =====
-- StateHandler of pkg/gossip/state.go: what adverts do to the discovered nodes of a network.
use mezzium.Registry.{DiscoveredNode, has_url}
use mezzium.Gossip.{max_discovered, discover, discover_all, scan_adverts, NodeAdvert}
use mezzium.Base.{
  ℕ, ◌+◌, ◌*◌, ◌≤◌, min, ◌≡◌, refl, ◌⊎◌, inl, inr, Bool, true, false, List, [], ◌∷◌, ◌++◌, arith,
  leb, if◌then◌else◌, Bool-cases, length, length-append, In, All, All-append,
}
use mezzium.Text.{Str, ◌==◌}
use mezzium.Text.Laws.{eq_iff}
use mezzium.Networks.{Node}

-- The number of adverts whose URL is not among the known nodes.
pub count_new : List Node → List NodeAdvert → ℕ
count_new all [] = 0
count_new all (n ∷ ns) = if has_url n.url all then count_new all ns else count_new all ns + 1

module _ (now : ℕ) (all : List Node) where
  length-discover_all :
      (ns : List NodeAdvert) (ds : List DiscoveredNode)
      → length ds ≤ max_discovered
      → length (discover_all now all ns ds) ≡ min max_discovered (length ds + count_new all ns)
  unfolding discover_all count_new
  length-discover_all [] ds h = omega arith
  length-discover_all (n ∷ ns) ds h = elim (Bool-cases (has_url n.url all)) [
    | inl known ↦ rw known (length-discover_all ns ds h)
    | inr new ↦ elim (Bool-cases (leb max_discovered (length ds))) [
      | inl full ↦ rw (new, full) (ground (arith, length-discover_all ns ds))
      | inr room ↦
          let l = length-append ds (discover now n ∷ []) in
          let small : length (ds ++ discover now n ∷ []) ≤ max_discovered = ground arith in
          rw (new, room) (omega (arith, length-discover_all ns (ds ++ discover now n ∷ []) small))
    ]
  ]

  pub length-scan :
      (nodes rest : List NodeAdvert) (ds : List DiscoveredNode)
      → length ds ≤ max_discovered
      → length (scan_adverts now all nodes rest ds)
        ≡ min max_discovered (length ds + count_new all rest * count_new all nodes)
  unfolding scan_adverts count_new
  length-scan nodes [] ds h = omega arith
  length-scan nodes (n ∷ rest) ds h = elim (Bool-cases (has_url n.url all)) [
    | inl known ↦ rw known (length-scan nodes rest ds h)
    | inr new ↦
        let l = length-discover_all nodes ds h in
        rw new (omega (arith, length-scan nodes rest (discover_all now all nodes ds) (omega arith)))
  ]

  module _ (P : DiscoveredNode → Type 0) where
    discover_all-All :
        (ns : List NodeAdvert) (ds : List DiscoveredNode)
        → ((n : NodeAdvert) → In n ns → has_url n.url all ≡ false → P (discover now n))
        → All P ds
        → All P (discover_all now all ns ds)
    unfolding discover_all
    discover_all-All [] ds h k = k
    discover_all-All (n ∷ ns) ds h k =
        discover_all-All ns _ (λ m i. h m (inr i))
          (elim (Bool-cases (has_url n.url all)) [
            | inl known ↦ rw known k
            | inr new ↦ elim (Bool-cases (leb max_discovered (length ds))) [
              | inl full ↦ rw (new, full) k
              | inr room ↦
                  rw (new, room) (All-append P ds (discover now n ∷ []) k (h n (inl refl) new, tt))
            ]
          ])

    pub scan-All :
        (nodes rest : List NodeAdvert) (ds : List DiscoveredNode)
        → ((n : NodeAdvert) → In n nodes → has_url n.url all ≡ false → P (discover now n))
        → All P ds
        → All P (scan_adverts now all nodes rest ds)
    unfolding scan_adverts
    scan-All nodes [] ds h k = k
    scan-All nodes (n ∷ rest) ds h k =
        scan-All nodes rest (if has_url n.url all then ds else discover_all now all nodes ds) h
          (elim (Bool-cases (has_url n.url all)) [
            | inl known ↦ rw known k
            | inr new ↦ rw new (discover_all-All nodes ds h k)
          ])

-- A discovered node has the URL.
pub lists : Str → List DiscoveredNode → Bool
lists url [] = false
lists url (d ∷ ds) = if d.node.url == url then true else lists url ds

lists-append :
    (url : Str) (d : DiscoveredNode) (ds : List DiscoveredNode)
    → lists url (ds ++ d ∷ []) ≡ (if lists url ds then true else d.node.url == url)
unfolding lists
lists-append url d [] = ground arith
lists-append url d (x ∷ ds) = ground (arith, lists-append url d ds)

-- The URL is discovered, or there is no room for more.
abbrev pub Covered : Str → List DiscoveredNode → Type 0
Covered url ds = (lists url ds ≡ true) ⊎ (max_discovered ≤ length ds)

Covered-append :
    (url : Str) (d : DiscoveredNode) (ds : List DiscoveredNode)
    → Covered url ds
    → Covered url (ds ++ d ∷ [])
Covered-append url d ds h = ground (arith, lists-append url d ds, length-append ds (d ∷ []))

module _ (now : ℕ) (all : List Node) (url : Str) where
  discover_one-Covered :
      (n : NodeAdvert) (ds : List DiscoveredNode)
      → Covered url ds
      → Covered url (
          if has_url n.url all
          then ds
          else if leb max_discovered (length ds)
          then ds
          else ds ++ discover now n ∷ [])
  discover_one-Covered n ds h =
      ground (arith, lists-append url (discover now n) ds, length-append ds (discover now n ∷ []))

  discover_all_keeps_Covered :
      (ns : List NodeAdvert) (ds : List DiscoveredNode)
      → Covered url ds
      → Covered url (discover_all now all ns ds)
  unfolding discover_all
  discover_all_keeps_Covered [] ds h = h
  discover_all_keeps_Covered (n ∷ ns) ds h =
      discover_all_keeps_Covered ns _ (discover_one-Covered n ds h)

  discover_all-Covered :
      (n : NodeAdvert) (ns : List NodeAdvert) (ds : List DiscoveredNode)
      → In n ns
      → n.url ≡ url
      → has_url n.url all ≡ false
      → Covered url (discover_all now all ns ds)
  unfolding discover_all
  discover_all-Covered n [] ds i e new = absurd i
  discover_all-Covered n (m ∷ ns) ds (inr i) e new = discover_all-Covered n ns _ i e new
  discover_all-Covered n (m ∷ ns) ds (inl same) e new =
      discover_all_keeps_Covered ns _ (rw (← same) (reached n ds e new))
    where
      reached :
          (k : NodeAdvert) (xs : List DiscoveredNode)
          → k.url ≡ url
          → has_url k.url all ≡ false
          → Covered url (
              if has_url k.url all
              then xs
              else if leb max_discovered (length xs)
              then xs
              else xs ++ discover now k ∷ [])
      reached k xs u unknown =
          ground (arith, lists-append url (discover now k) xs, eq_iff k.url url)

  scan_keeps_Covered :
      (nodes rest : List NodeAdvert) (ds : List DiscoveredNode)
      → Covered url ds
      → Covered url (scan_adverts now all nodes rest ds)
  unfolding scan_adverts
  scan_keeps_Covered nodes [] ds h = h
  scan_keeps_Covered nodes (n ∷ rest) ds h =
      scan_keeps_Covered nodes rest
        (if has_url n.url all then ds else discover_all now all nodes ds)
        (ground (arith, discover_all_keeps_Covered nodes ds))

  pub scan-Covered :
      (n : NodeAdvert) (nodes rest : List NodeAdvert) (ds : List DiscoveredNode)
      → In n nodes
      → In n rest
      → n.url ≡ url
      → has_url n.url all ≡ false
      → Covered url (scan_adverts now all nodes rest ds)
  unfolding scan_adverts
  scan-Covered n nodes [] ds i j e new = absurd j
  scan-Covered n nodes (m ∷ rest) ds i (inr j) e new =
      scan-Covered n nodes rest (if has_url m.url all then ds else discover_all now all nodes ds) i
        j e new
  scan-Covered n nodes (m ∷ rest) ds i (inl same) e new =
      scan_keeps_Covered nodes rest
        (if has_url m.url all then ds else discover_all now all nodes ds)
        (rw (← same) (simp new (discover_all-Covered n nodes ds i e new)))
