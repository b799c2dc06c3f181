-- ===== src/Health/Rounds.antt =====
-- UpdateNetwork of pkg/health/check.go: the nodes that it serves, and the URLs that it drops.
use mezzium.Base.{
  some, suc, get_elem?, ℕ, ◌+◌, ◌≡◌, refl, sym, subst, ◌⊎◌, inl, inr, true, List, [], ◌∷◌, arith,
  In, All_at,
}
use mezzium.Base.Int.{ℤ}
use mezzium.Text.{Str}
use mezzium.Networks.{Node}
use mezzium.Registry.{Registry}
use mezzium.Registry.Pick.{NodeWithPing}
use mezzium.Registry.Pick.Choice.{Eligible, pick-Eligible}
use mezzium.Health.Checks.{Request, Reply, Drops, Verdict, mark_drop, check}
use mezzium.Health.{check_nodes, update_network, per_node_timeout}
use mezzium.Health.Outcomes.{IsTo, IsFatal, IsServed, Outcome, served, dead, dropped, check-Outcome}

index_zero : (i : ℕ) → i ≡ i + 0
index_zero i = omega arith

index_suc : (i k : ℕ) → i + 1 + k ≡ i + suc k
index_suc i k = omega arith

mark_drop-In : (u url : Str) (drops : Drops) → In u (mark_drop url drops) → (u ≡ url) ⊎ In u drops
unfolding mark_drop
mark_drop-In u url drops i = ground arith

module _ (protocol : Str) (net : ℕ → Request → Reply) (timeout : ℤ) where
  -- The node is one of those that are checked, the first of them as the i-th node of all; and if
  -- it is noted as alive, a request of its check was answered with success, in the noted time.
  abbrev pub WasChecked : ℕ → List Node → NodeWithPing → Type 0
  WasChecked i nodes b =
      (k : ℕ) × (get_elem? nodes k ≡ some b.node)
      × (b.alive ≡ true → (req : Request) × IsTo b.url req × IsServed b.ping (net (i + k) req))

  -- The URL is that of a node that is checked, and a reply to its check was fatal.
  abbrev pub WasFatal : ℕ → List Node → Str → Type 0
  WasFatal i nodes u =
      (k : ℕ) × (n : Node) × (get_elem? nodes k ≡ some n)
      × (n.url ≡ u)
      × (req : Request) × IsTo n.url req
      × IsFatal (net (i + k) req)

  node-WasServed :
      (i : ℕ) (n : Node) (drops : Drops) (v : Verdict)
      → Outcome (net i) n.url drops v
      → v.alive ≡ true
      → (req : Request) × IsTo n.url req × IsServed v.ping (net i req)
  node-WasServed i n drops v (served req to a d s) h = (req, to, s)
  node-WasServed i n drops v (dead a d) h = cc
  node-WasServed i n drops v (dropped req to a d f) h = cc

  node-drops :
      (i : ℕ) (n : Node) (drops : Drops) (v : Verdict) (u : Str)
      → Outcome (net i) n.url drops v
      → In u v.drops
      → In u drops ⊎ ((n.url ≡ u) × (req : Request) × IsTo n.url req × IsFatal (net i req))
  node-drops i n drops v u (served req to a d s) h = inl (subst (In u) d h)
  node-drops i n drops v u (dead a d) h = inl (subst (In u) d h)
  node-drops i n drops v u (dropped req to a d f) h =
      elim (mark_drop-In u n.url drops (subst (In u) d h)) [
        | inl e ↦ inr (sym e, req, to, f)
        | inr old ↦ inl old
      ]

  check_nodes-WasChecked :
      (i : ℕ) (ns : List Node) (drops : Drops) (b : NodeWithPing)
      → In b (check_nodes protocol net timeout i ns drops).0
      → WasChecked i ns b
  unfolding check_nodes
  check_nodes-WasChecked i [] drops b h = absurd h
  check_nodes-WasChecked i (n ∷ ns) drops b (inl e) = subst (WasChecked i (n ∷ ns)) (sym e) (
    0,
    refl,
    subst
        (λ j.
          (check protocol (net i) n timeout drops).alive ≡ true
          → (req : Request) × IsTo n.url req
            × IsServed (check protocol (net i) n timeout drops).ping (net j req))
        (index_zero i)
        (node-WasServed i n drops _ (check-Outcome (net i) n timeout drops protocol)),
  )
  check_nodes-WasChecked i (n ∷ ns) drops b (inr h) =
      let (k, at, ok) =
        check_nodes-WasChecked (i + 1) ns (check protocol (net i) n timeout drops).drops b h in
      (
        suc k,
        at,
        λ a.
            subst (λ j. (req : Request) × IsTo b.url req × IsServed b.ping (net j req))
              (index_suc i k) (ok a),
      )

  check_nodes-drops :
      (i : ℕ) (ns : List Node) (drops : Drops) (u : Str)
      → In u (check_nodes protocol net timeout i ns drops).1
      → In u drops ⊎ WasFatal i ns u
  unfolding check_nodes
  check_nodes-drops i [] drops u h = inl h
  check_nodes-drops i (n ∷ ns) drops u h =
      elim (check_nodes-drops (i + 1) ns (check protocol (net i) n timeout drops).drops u h) [
        | inl before ↦
            elim (node-drops i n drops _ u (check-Outcome (net i) n timeout drops protocol)
              before) [
                | inl old ↦ inl old
                | inr (e, req, to, f) ↦
                    inr (0, n, refl, e, req, to, subst (λ j. IsFatal (net j req)) (index_zero i) f)
              ]
        | inr (k, m, at, e, req, to, f) ↦
            inr (suc k, m, at, e, req, to, subst (λ j. IsFatal (net j req)) (index_suc i k) f)
      ]

module _ (r : Registry) (protocol : Str) (net : ℕ → Request → Reply) (nodes : List Node)
    (drops : Drops) where
  -- Every node that UpdateNetwork returns is one of the nodes that it was given, is alive, and did
  -- answer a request of its own check, to its URL or below it, with success, in the time that is
  -- noted.
  pub update_network-IsServed :
      (b : NodeWithPing)
      → In b (update_network r protocol net nodes drops).0
      → (b.alive ≡ true)
        × ((k : ℕ) × (get_elem? nodes k ≡ some b.node)
            × (req : Request) × IsTo b.url req
            × IsServed b.ping (net k req))
  unfolding update_network
  update_network-IsServed b i =
      let timeout = per_node_timeout r protocol in
      let checked = (check_nodes protocol net timeout 0 nodes drops).0 in
      let (j, a) = All_at (Eligible checked) b _ (pick-Eligible checked) i in
      let (k, at, ok) = check_nodes-WasChecked protocol net timeout 0 nodes drops b j in
      let (req, to, ok') = ok a in
      (a, (k, at, req, to, subst (λ j. IsServed b.ping (net j req)) (zero_index k) ok'))
    where
      zero_index : (k : ℕ) → 0 + k ≡ k
      zero_index k = omega arith

  -- A URL is marked to be dropped only if it was before, or it is the URL of one of the nodes and a
  -- reply to its check, to a request to that URL or below it, was fatal: an answer with a status
  -- from 400 to 499 but 429, or an error of DNS, a refused connection, a scheme that is not
  -- supported, or an error whose text speaks of an unknown host, of x509 or of TLS.
  pub update_network-drops :
      (u : Str)
      → In u (update_network r protocol net nodes drops).1
      → In u drops ⊎ WasFatal protocol net (per_node_timeout r protocol) 0 nodes u
  unfolding update_network
  update_network-drops u h =
      check_nodes-drops protocol net (per_node_timeout r protocol) 0 nodes drops u h
