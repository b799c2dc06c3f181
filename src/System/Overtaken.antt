-- ===== src/System/Overtaken.antt =====
-- The health loop, cmd/app/health.go, writes what UpdateNetwork returns with SetBest when its checks
-- are over; an administrator's DeleteNode, pkg/api/admin.go, can come in between.
use mezzium.Base.{
  if◌then◌else◌, length, ltb, ℕ, zero, suc, ◌+◌, ◌≡◌, refl, sym, ap, ◌∙◌, subst, ◌≢◌, inl, inr,
  true, some, List, [], ◌∷◌, arith, get_elem?, In, All,
}
use mezzium.Base.Int.{ℤ}
use mezzium.Text.{Str}
use mezzium.Dict.{lookup}
use mezzium.Dict.Laws.{lookup-modify_self}
use mezzium.Networks.{Node}
use mezzium.Registry.{Registry, NetworkState, set_best, best_of}
use mezzium.Registry.Pick.{NodeWithPing}
use mezzium.Registry.Pick.Choice.{pick-beats}
use mezzium.Registry.Removal.{keep-All_ne}
use mezzium.Health.Checks.{Request, Reply, Drops, check}
use mezzium.Health.{check_nodes, update_network, per_node_timeout}
use mezzium.Health.Freshness.{update_network-IsFresh}
use mezzium.Admin.{AdminState, delete_node, network_of, admin_delete_node}
use mezzium.Admin.Deletion.{deleted, lookup-delete_node_self, admin_delete_node_effect}

ltb-length : (x : NodeWithPing) (l : List NodeWithPing) → ltb 0 (length (x ∷ l)) ≡ true
ltb-length x l = ground arith

nonempty_same :
    (l : List NodeWithPing) (b : NodeWithPing) → In b l → In b (if ltb 0 (length l) then l else [])
nonempty_same [] b i = absurd i
nonempty_same (x ∷ l) b i = rw (ltb-length x l) i

In-best_of :
    (r : Registry) (name : Str) (st : NetworkState) (b : NodeWithPing)
    → lookup name r ≡ some st
    → In b st.best
    → In b (best_of r name)
unfolding best_of
In-best_of r name st b found i = rw (found, best_of) (nonempty_same st.best b i)

module _ (protocol : Str) (net : ℕ → Request → Reply) (timeout : ℤ) where
  -- The k-th node is alive after a check of the i + k-th requests, whatever was marked before.
  abbrev pub IsAliveAt : ℕ → Node → Type 0
  IsAliveAt i n = (d : Drops) → (check protocol (net i) n timeout d).alive ≡ true

  check_nodes-In :
      (i k : ℕ) (ns : List Node) (n : Node) (drops : Drops)
      → get_elem? ns k ≡ some n
      → IsAliveAt (i + k) n
      → (b : NodeWithPing) × In b (check_nodes protocol net timeout i ns drops).0
        × (b.node ≡ n)
        × (b.alive ≡ true)
  unfolding check_nodes
  check_nodes-In i k [] n drops e alive = cc e
  check_nodes-In i zero (m ∷ ns) n drops e alive =
      let same : m ≡ n = cc e in
      let v = check protocol (net i) m timeout drops in
      (
        record { node = m; alive = v.alive; ping = v.ping },
        inl refl,
        same,
        subst (λ (x : Node). (check protocol (net i) x timeout drops).alive ≡ true) (sym same)
            (subst (λ j. (check protocol (net j) n timeout drops).alive ≡ true) (omega arith)
              (alive drops)),
      )
  check_nodes-In i (suc k) (m ∷ ns) n drops e alive =
      let v = check protocol (net i) m timeout drops in
      let (b, at, same, a) =
        check_nodes-In (i + 1) k ns n v.drops e (subst (λ j. IsAliveAt j n) (omega arith) alive) in
      (b, inr at, same, a)

module _ (admin_key path network url : Str) (s : AdminState) (st : NetworkState)
    (net : ℕ → Request → Reply) where
  overtaken :
      network_of path ≡ some network
      → url ≢ []
      → lookup network s.reg ≡ some st
      → (st' : NetworkState) × (lookup network (
            set_best network
              (update_network s.reg st.protocol net st.all s.drops).0
              (admin_delete_node admin_key admin_key path (some url) s).1.reg)
          ≡ some st')
        × (st'.best ≡ (update_network s.reg st.protocol net st.all s.drops).0)
        × All (λ (n : Node). n.url ≢ url) st'.all
  unfolding set_best
  overtaken p ne found =
      let after = deleted network url st s.reg in
      let now_in : lookup network (delete_node network url st s.reg) ≡ some after =
        lookup-delete_node_self network url st s.reg found in
      rw (admin_delete_node_effect admin_key path network url st s p ne found) (
        record after { best = (update_network s.reg st.protocol net st.all s.drops).0 },
        rw (lookup-modify_self, now_in) refl,
        refl,
        keep-All_ne url (λ n. n.url) st.all,
      )

  -- A deletion, with the right key, of a URL that is not empty comes while its network is being
  -- checked. If the k-th node of the network has that URL and answers its check, and the network
  -- has no other node of its priority, then the end of the checks undoes the deletion: a node with
  -- the URL is among those that serve, though the network has no node with it any more.
  pub set_best-admin_delete_node :
      (k : ℕ) (n : Node)
      → network_of path ≡ some network
      → url ≢ []
      → lookup network s.reg ≡ some st
      → get_elem? st.all k ≡ some n
      → n.url ≡ url
      → ((m : Node) → In m st.all → m.priority ≡ n.priority → m ≡ n)
      → IsAliveAt st.protocol net (per_node_timeout s.reg st.protocol) k n
      → (b : NodeWithPing) × In b (
          best_of
            (set_best network
              (update_network s.reg st.protocol net st.all s.drops).0
              (admin_delete_node admin_key admin_key path (some url) s).1.reg)
            network)
        × (b.url ≡ url)
        × ((st' : NetworkState) × (lookup network (
                set_best network
                  (update_network s.reg st.protocol net st.all s.drops).0
                  (admin_delete_node admin_key admin_key path (some url) s).1.reg)
              ≡ some st')
            × All (λ (m : Node). m.url ≢ url) st'.all)
  unfolding update_network
  set_best-admin_delete_node k n p ne found at is alone alive =
      let timeout = per_node_timeout s.reg st.protocol in
      let (b, listed, same, up) =
        check_nodes-In st.protocol net timeout 0 k st.all n s.drops at
          (subst (λ j. IsAliveAt st.protocol net timeout j n) (omega arith) alive) in
      let (f, picked, equal, _) = pick-beats _ b (listed, up) in
      let (_, known, _) =
        update_network-IsFresh (λ name. net) s.reg st.protocol network st.all s.drops f picked in
      let is_n = alone f.node known (equal ∙ ap (λ (x : Node). x.priority) same) in
      let (st', now_in, bests, gone) = overtaken p ne found in
      (
        f,
        In-best_of _ network st' f now_in (subst (In f) (sym bests) picked),
        ap (λ (x : Node). x.url) is_n ∙ is,
        (st', now_in, gone),
      )
