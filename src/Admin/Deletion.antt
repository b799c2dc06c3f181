-- ===== src/Admin/Deletion.antt =====
-- DeleteNode of pkg/api/admin.go.
use mezzium.Base.{
  ℕ, ◌<◌, ◌≡◌, refl, ap, ◌∙◌, subst, ◌≢◌, true, false, not, some, [], arith, keep, In, All,
}
use mezzium.Text.{Str, ◌==◌}
use mezzium.Text.Laws.{eq_iff, eq_refl}
use mezzium.Dict.{lookup}
use mezzium.Dict.Laws.{lookup-modify_self, lookup-modify_ne}
use mathlib.Core.Option
use mezzium.Networks.{Node}
use mezzium.Registry.{Registry, NetworkState, DiscoveredNode, set_best, prune_and_merge, has_url}
use mezzium.Registry.Pick.{NodeWithPing}
use mezzium.Registry.Removal.{keep-All_ne}
use mezzium.Registry.Prune.{prune_and_merge_known}
use mezzium.Admin.{AdminState, removed, with_auth, network_of, delete_node, admin_delete_node}

module _ (network url : Str) (st : NetworkState) (r : Registry) where
  -- The network after the deletion.
  abbrev pub deleted : NetworkState
  deleted = record st {
    all = keep (λ (n : Node). not (n.url == url)) st.all;
    best = keep (λ (n : NodeWithPing). not (n.url == url)) st.best;
  }

  pub lookup-delete_node_self :
      lookup network r ≡ some st → lookup network (delete_node network url st r) ≡ some deleted
  unfolding delete_node set_best
  lookup-delete_node_self h =
      let first : lookup network (set_best network (deleted.best) r)
          ≡ some (record st { best = deleted.best }) =
        lookup-modify_self network _ r
        ∙ ap (Option.map (λ (s : NetworkState). record s { best = deleted.best })) h in
      lookup-modify_self network _ (set_best network (deleted.best) r)
      ∙ ap (Option.map (λ (s : NetworkState). record s { all = deleted.all })) first

  pub lookup-delete_node_ne :
      (other : Str) → network ≢ other → lookup other (delete_node network url st r) ≡ lookup other r
  unfolding delete_node set_best
  lookup-delete_node_ne other ne =
      lookup-modify_ne network other _ _ ne ∙ lookup-modify_ne network other _ r ne

module _ (admin_key path network url : Str) (st : NetworkState) (s : AdminState) where
  -- The deletion that is asked for with the right key, for a network that is there and a URL that
  -- is not empty.
  pub admin_delete_node_effect :
      network_of path ≡ some network
      → url ≢ []
      → lookup network s.reg ≡ some st
      → admin_delete_node admin_key admin_key path (some url) s
        ≡ (removed url, record s { reg = delete_node network url st s.reg })
  unfolding admin_delete_node with_auth
  admin_delete_node_effect p ne h =
      let authorized : (admin_key == admin_key) ≡ true = eq_refl admin_key in
      let filled : (url == []) ≡ false = ground (arith, eq_iff url []) in
      rw (authorized, admin_delete_node) (rw p (rw (filled, h) refl))

  -- A deletion that is asked for with the right key, of a URL that is not empty, in a network that
  -- is there, leaves no node with the URL among the nodes and the best nodes of the network; the
  -- rest of the network is as it was, and so is every other network.
  pub admin_delete_node_lem :
      network_of path ≡ some network
      → url ≢ []
      → lookup network s.reg ≡ some st
      → (st' : NetworkState) × (lookup network
            (admin_delete_node admin_key admin_key path (some url) s).1.reg
          ≡ some st')
        × All (λ (n : Node). n.url ≢ url) st'.all
        × All (λ (n : NodeWithPing). n.url ≢ url) st'.best
        × (record st' { all = st.all; best = st.best } ≡ st)
        × ((other : Str)
            → network ≢ other
            → lookup other (admin_delete_node admin_key admin_key path (some url) s).1.reg
              ≡ lookup other s.reg)
  admin_delete_node_lem p ne h =
      let done = admin_delete_node_effect p ne h in
      (
        deleted network url st s.reg,
        rw done (lookup-delete_node_self network url st s.reg h),
        keep-All_ne url (λ (n : Node). n.url) st.all,
        keep-All_ne url (λ (n : NodeWithPing). n.url) st.best,
        refl,
        λ other apart. rw done (lookup-delete_node_ne network url st s.reg other apart),
      )

  -- Such a deletion leaves the nodes that the network has discovered as they are: if one that has
  -- not expired has the URL, the next call of PruneAndMerge brings the URL back.
  pub admin_delete_node_undone :
      (now : ℕ) (d : DiscoveredNode)
      → network_of path ≡ some network
      → url ≢ []
      → lookup network s.reg ≡ some st
      → In d st.discovered
      → now < d.expires_at
      → d.node.url ≡ url
      → (st' : NetworkState) × (lookup network
            (prune_and_merge now (admin_delete_node admin_key admin_key path (some url) s).1.reg)
          ≡ some st')
        × (has_url url st'.all ≡ true)
  admin_delete_node_undone now d p ne h i soon e =
      let done = admin_delete_node_effect p ne h in
      let (st', found, known) =
        prune_and_merge_known now (delete_node network url st s.reg) network
          (deleted network url st s.reg) d (lookup-delete_node_self network url st s.reg h) i
          soon in
      (st', rw done found, subst (λ u. has_url u st'.all ≡ true) e known)
