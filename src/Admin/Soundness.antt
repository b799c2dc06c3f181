-- ===== src/Admin/Soundness.antt =====
-- The handlers of pkg/api/admin.go keep the registry sound.
use mezzium.Base.{
  ℕ, ◌+◌, ◌≡◌, refl, sym, ◌∙◌, subst, inl, inr, true, Option, none, some, List, [], ◌∷◌, Bool-cases,
  Option-cases, In,
}
use mezzium.Text.{Str, ◌==◌, to_lower, trim}
use mezzium.Text.Laws.{eq_iff, eq_of_test}
use mezzium.Dict.{lookup, keys}
use mezzium.Dict.Laws.{keys-modify}
use mezzium.Base.{List-cases}
use mezzium.Networks.{Node, NetworkConfig}
use mezzium.Dict.Distinct.{DistinctKeys-of_keys, insert-DistinctKeys, Holds}
use mezzium.Registry.{
  exists, protocol_of, Registry, NetworkState, set_best, add_network, add_node, append_best,
}
use mezzium.Registry.Pick.{NodeWithPing}
use mezzium.Registry.Ownership.{
  IsSound, AreOf, ServesOwn, AreOf-keep, add_network-ServesOwn, add_node-ServesOwn,
}
use mezzium.Health.Checks.{Request, Reply, Drops}
use mezzium.Health.{update_network}
use mezzium.Health.Freshness.{update_network-IsFresh}
use mezzium.Admin.{
  lacks_fields, network_of, AdminState, with_auth, admin_add_network, admin_add_node,
  admin_delete_node, admin_add_networks_bulk, bulk_step, bulk_all, delete_node,
}
use mezzium.Admin.Deletion.{deleted, lookup-delete_node_self, lookup-delete_node_ne}

update_network-AreOf :
    (r : Registry) (protocol : Str) (net : ℕ → Request → Reply) (nodes : List Node) (drops : Drops)
    → AreOf nodes (update_network r protocol net nodes drops).0
update_network-AreOf r protocol net nodes drops b i =
    let (alive, own, _) = update_network-IsFresh (λ _. net) r protocol [] nodes drops b i in
    (alive, own)

delete_node-ServesOwn :
    (network url : Str) (st : NetworkState) (r : Registry)
    → lookup network r ≡ some st
    → Holds (λ _. ServesOwn) r
    → Holds (λ _. ServesOwn) (delete_node network url st r)
delete_node-ServesOwn network url st r found h name st' e = elim (Bool-cases (network == name)) [
  | inl same ↦
      let at : lookup network (delete_node network url st r) ≡ some st' =
        subst (λ j. lookup j (delete_node network url st r) ≡ some st')
          (sym (eq_of_test network name same)) e in
      let is : deleted network url st r ≡ st' =
        cc (lookup-delete_node_self network url st r found, at) in
      subst ServesOwn is (AreOf-keep url st.all st.best (h network st found))
  | inr other ↦ h name st' (
      sym (lookup-delete_node_ne network url st r name (λ q. cc (other, (eq_iff network name).1 q)))
      ∙ e)
]

keys-delete_node :
    (network url : Str) (st : NetworkState) (r : Registry)
    → keys (delete_node network url st r) ≡ keys r
unfolding delete_node set_best
keys-delete_node network url st r = keys-modify network _ _ ∙ keys-modify network _ r

add_node-IsSound :
    (name : Str) (n : Node) (b : NodeWithPing) (r : Registry)
    → (b.alive ≡ true) × In b.node (n ∷ [])
    → IsSound r
    → IsSound (append_best name b (add_node name n r))
unfolding append_best add_node
add_node-IsSound name n b r (alive, inl same) k = record {
  distinct =
      DistinctKeys-of_keys _ r (keys-modify name _ (add_node name n r) ∙ keys-modify name _ r)
        k.distinct;
  own = add_node-ServesOwn r k.own name n b alive same;
}
add_node-IsSound name n b r (alive, inr nowhere) k = absurd nowhere

module _ (admin_key key : Str) where
  add_network-IsSound :
      (nc : NetworkConfig) (best : List NodeWithPing) (r : Registry)
      → AreOf nc.nodes best
      → IsSound r
      → IsSound (add_network nc best r)
  unfolding add_network
  add_network-IsSound nc best r h k = record {
    distinct = insert-DistinctKeys _ _ r k.distinct;
    own = add_network-ServesOwn r k.own nc best h;
  }

  pub admin_add_network-IsSound :
      (net : ℕ → Request → Reply) (body : Option NetworkConfig) (s : AdminState)
      → IsSound s.reg
      → IsSound (admin_add_network admin_key net key body s).1.reg
  unfolding admin_add_network with_auth
  admin_add_network-IsSound net none s k = elim (Bool-cases (key == admin_key)) [
    | inl e ↦ rw (e, admin_add_network) k
    | inr e ↦ rw (e, admin_add_network) k
  ]
  admin_add_network-IsSound net (some nc) s k =
      let best = (update_network s.reg nc.protocol net nc.nodes s.drops).0 in
      let of : AreOf nc.nodes best = update_network-AreOf s.reg nc.protocol net nc.nodes s.drops in
      elim (Bool-cases (key == admin_key)) [
        | inr e ↦ rw (e, admin_add_network) k
        | inl e ↦ elim (Bool-cases (lacks_fields nc.route nc)) [
          | inl l ↦ rw (e, admin_add_network) (rw l k)
          | inr l ↦ elim (List-cases best) [
            | inl b ↦ rw (e, admin_add_network) (rw l (rw b k))
            | inr (x, xs, b) ↦
                rw (e, admin_add_network)
                  (rw l
                    (rw b (add_network-IsSound _ (x ∷ xs) s.reg (subst (AreOf nc.nodes) b of) k)))
          ]
        ]
      ]

  pub admin_delete_node-IsSound :
      (path : Str) (body : Option Str) (s : AdminState)
      → IsSound s.reg
      → IsSound (admin_delete_node admin_key key path body s).1.reg
  unfolding admin_delete_node with_auth
  admin_delete_node-IsSound path body s k = elim (Bool-cases (key == admin_key)) [
    | inr e ↦ rw (e, admin_delete_node) k
    | inl e ↦ elim (Option-cases (network_of path)) [
      | inl n ↦ rw (e, admin_delete_node) (rw n k)
      | inr (network, n) ↦ elim (Option-cases body) [
        | inl b ↦ rw (e, admin_delete_node) (rw (n, b) k)
        | inr (url, b) ↦ elim (Bool-cases (url == [])) [
          | inl u ↦ rw (e, admin_delete_node) (rw (n, b) (rw u k))
          | inr u ↦ elim (Option-cases (lookup network s.reg)) [
            | inl f ↦ rw (e, admin_delete_node) (rw (n, b) (rw (u, f) k))
            | inr (st, f) ↦
                rw (e, admin_delete_node)
                  (rw (n, b)
                    (rw (u, f)
                      (record {
                        distinct =
                            DistinctKeys-of_keys _ s.reg (keys-delete_node network url st s.reg)
                              k.distinct;
                        own = delete_node-ServesOwn network url st s.reg f k.own;
                      })))
          ]
        ]
      ]
    ]
  ]

  pub admin_add_node-IsSound :
      (net : ℕ → Request → Reply) (path : Str) (body : Option Node) (s : AdminState)
      → IsSound s.reg
      → IsSound (admin_add_node admin_key net key path body s).1.reg
  unfolding admin_add_node with_auth
  admin_add_node-IsSound net path body s k = elim (Bool-cases (key == admin_key)) [
    | inr e ↦ rw (e, admin_add_node) k
    | inl e ↦ elim (Option-cases (network_of path)) [
      | inl n ↦ rw (e, admin_add_node) (rw n k)
      | inr (network, n) ↦ elim (Option-cases body) [
        | inl b ↦ rw (e, admin_add_node) (rw (n, b) k)
        | inr (node, b) ↦
            let protocol = protocol_of s.reg network in
            let of = update_network-AreOf s.reg protocol net (node ∷ []) s.drops in
            elim (List-cases (update_network s.reg protocol net (node ∷ []) s.drops).0) [
              | inl l ↦ rw (e, admin_add_node) (rw (n, b) (rw l k))
              | inr (x, xs, l) ↦
                  rw (e, admin_add_node)
                    (rw (n, b)
                      (rw l (
                        add_node-IsSound network node x s.reg
                          (subst (AreOf (node ∷ [])) l of x (inl refl)) k)))
            ]
      ]
    ]
  ]

  bulk_step-IsSound :
      (net : ℕ → Request → Reply) (nc : NetworkConfig) (s : AdminState)
      → IsSound s.reg
      → IsSound (bulk_step net nc s).1.reg
  unfolding bulk_step
  bulk_step-IsSound net nc s k =
      let route = to_lower (trim b'/' (trim b'/' nc.route)) in
      let best = (update_network s.reg nc.protocol net nc.nodes s.drops).0 in
      let of : AreOf nc.nodes best = update_network-AreOf s.reg nc.protocol net nc.nodes s.drops in
      elim (Bool-cases (lacks_fields route nc)) [
        | inl l ↦ rw (l, bulk_step) k
        | inr l ↦ elim (Bool-cases (exists s.reg route)) [
          | inl x ↦ rw (l, bulk_step) (rw x k)
          | inr x ↦ elim (List-cases best) [
            | inl b ↦ rw (l, bulk_step) (rw x (rw b k))
            | inr (y, ys, b) ↦
                rw (l, bulk_step)
                  (rw x
                    (rw b (add_network-IsSound _ (y ∷ ys) s.reg (subst (AreOf nc.nodes) b of) k)))
          ]
        ]
      ]

  bulk_all-IsSound :
      (nets : ℕ → ℕ → Request → Reply) (i : ℕ) (ncs : List NetworkConfig) (s : AdminState)
      → IsSound s.reg
      → IsSound (bulk_all nets i ncs s).1.reg
  unfolding bulk_all
  bulk_all-IsSound nets i [] s k = k
  bulk_all-IsSound nets i (nc ∷ ncs) s k =
      bulk_all-IsSound nets (i + 1) ncs (bulk_step (nets i) nc s).1
        (bulk_step-IsSound (nets i) nc s k)

  pub admin_add_networks_bulk-IsSound :
      (nets : ℕ → ℕ → Request → Reply) (body : Option (List NetworkConfig)) (s : AdminState)
      → IsSound s.reg
      → IsSound (admin_add_networks_bulk admin_key nets key body s).1.reg
  unfolding admin_add_networks_bulk with_auth
  admin_add_networks_bulk-IsSound nets body s k = elim (Bool-cases (key == admin_key)) [
    | inr e ↦ rw (e, admin_add_networks_bulk) k
    | inl e ↦ elim (Option-cases body) [
      | inl b ↦ rw (e, admin_add_networks_bulk) (rw b k)
      | inr (ncs, b) ↦ elim (List-cases ncs) [
        | inl c ↦ rw (e, admin_add_networks_bulk) (rw b (rw c k))
        | inr (x, xs, c) ↦
            rw (e, admin_add_networks_bulk) (rw b (rw c (bulk_all-IsSound nets 0 (x ∷ xs) s k)))
      ]
    ]
  ]
