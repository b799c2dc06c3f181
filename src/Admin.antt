-- ===== src/Admin.antt =====
-- pkg/api/admin.go: the administrator's requests to the registry. A request carries a key, a path and
-- a body, which is an argument as the JSON decoder reads it, `none` where that fails. `net` is what
-- comes of the requests of a health check; a list of networks is checked with `nets i` for the
-- i-th of the list.
pub mod Keys
pub mod Deletion
pub mod Soundness
mod Tests
use mezzium.Base.{
  ℕ, ◌+◌, Bool, true, false, not, ◌||◌, Option, none, some, List, [], ◌∷◌, eqb, if◌then◌else◌,
  length, keep,
}
use mezzium.Text.{Str, str, ◌==◌, to_lower, trim, trim_prefix, split}
use mezzium.Dict.{lookup, modify}
use mezzium.Networks.{Node, NetworkConfig}
use mezzium.Registry.{
  Registry, NetworkState, set_best, add_network, add_node, append_best, exists, protocol_of,
}
use mezzium.Registry.Pick.{NodeWithPing}
use mezzium.Health.Checks.{Request, Reply, Drops}
use mezzium.Health.{update_network}

-- An entry of the result of AddNetworksBulk.
pub data BulkResult : Type 0 where
  bulk_skipped : (route reason : Str) → BulkResult
  bulk_failed : (route reason : Str) → BulkResult
  bulk_added : (route : Str) → (healthy_nodes : ℕ) → BulkResult

pub data AdminReply : Type 0 where
  refused : (code : ℕ) → (message : Str) → AdminReply
  network_added : (healthy_nodes : List NodeWithPing) → AdminReply
  node_added : (node : NodeWithPing) → AdminReply
  listed : (nodes : List Node) → AdminReply
  removed : (url : Str) → AdminReply
  bulk : (result : List BulkResult) → AdminReply

-- What a request can change: the registry, and the URLs that the checker is to drop.
pub record AdminState : Type 0 where
  pub reg : Registry
  pub drops : Drops

-- parts[0] of the path after "/admin/", if there are two parts or more.
unfoldable pub network_of : Str → Option Str
network_of path = elim (split b'/' (trim_prefix path (str "/admin/"))) [
  | [] ↦ none
  | network ∷ rest ↦ elim rest [ [] ↦ none | p ∷ ps ↦ some network ]
]

unfoldable pub lacks_fields : Str → NetworkConfig → Bool
lacks_fields route nc = route == [] || nc.protocol == [] || eqb (length nc.nodes) 0

-- What DeleteNode does once the network is found: first its best nodes, then all of them.
unfoldable pub delete_node : Str → Str → NetworkState → Registry → Registry
unfolding set_best
delete_node network url st r =
    let best = keep (λ (n : NodeWithPing). not (n.url == url)) st.best in
    let all = keep (λ (n : Node). not (n.url == url)) st.all in
    modify network (λ s. record s { all = all }) (set_best network best r)

-- The loop of AddNetworksBulk for one network.
unfoldable pub bulk_step :
    (ℕ → Request → Reply) → NetworkConfig → AdminState → BulkResult × AdminState
unfolding lacks_fields
bulk_step net nc s =
    let route = to_lower (trim b'/' (trim b'/' nc.route)) in
    if lacks_fields route nc
    then (bulk_skipped route (str "missing required fields"), s)
    else if exists s.reg route
    then (bulk_skipped route (str "already exists"), s)
    else let (best, drops) = update_network s.reg nc.protocol net nc.nodes s.drops in
      elim best [
        | [] ↦ (bulk_failed route (str "no healthy nodes"), record s { drops = drops })
        | b ∷ bs ↦ (
          bulk_added route (length (b ∷ bs)),
          record { reg = add_network (record nc { route = route }) (b ∷ bs) s.reg; drops = drops },
        )
      ]

unfoldable pub bulk_all :
    (ℕ → ℕ → Request → Reply) → ℕ → List NetworkConfig → AdminState → List BulkResult × AdminState
unfolding bulk_step
bulk_all nets i [] s = ([], s)
bulk_all nets i (nc ∷ ncs) s =
    let (result, s') = bulk_step (nets i) nc s in
    let (results, s'') = bulk_all nets (i + 1) ncs s' in (result ∷ results, s'')

module _ (admin_key : Str) where
  -- auth, and what follows it.
  unfoldable pub with_auth :
      Str → (AdminState → AdminReply × AdminState) → AdminState → AdminReply × AdminState
  with_auth key handler s =
      if key == admin_key then handler s else (refused 401 (str "unauthorized"), s)

  unfoldable pub admin_add_network :
      (ℕ → Request → Reply) → Str → Option NetworkConfig → AdminState → AdminReply × AdminState
  unfolding with_auth lacks_fields
  admin_add_network net key none s = with_auth key (λ t. (refused 400 (str "bad json"), t)) s
  admin_add_network net key (some nc) s =
      with_auth key
        (λ t.
          if lacks_fields nc.route nc
          then (refused 400 (str "missing required fields"), t)
          else let (best, drops) = update_network t.reg nc.protocol net nc.nodes t.drops in
            if best_is_empty best
            then (refused 400 (str "no healthy nodes"), record t { drops = drops })
            else (
              network_added best,
              record {
                reg = add_network (record nc { route = trim b'/' nc.route }) best t.reg;
                drops = drops;
              },
            ))
        s
    where
      best_is_empty : List NodeWithPing → Bool
      best_is_empty [] = true
      best_is_empty (b ∷ bs) = false

  unfoldable pub admin_add_node :
      (ℕ → Request → Reply) → Str → Str → Option Node → AdminState → AdminReply × AdminState
  unfolding with_auth network_of
  admin_add_node net key path body s =
      with_auth key
        (λ t. elim (network_of path) [
          | none ↦ (refused 400 (str "bad path"), t)
          | some network ↦ elim body [
            | none ↦ (refused 400 (str "bad json"), t)
            | some node ↦
                let (best, drops) =
                  update_network t.reg (protocol_of t.reg network) net (node ∷ []) t.drops in
                elim best [
                  | [] ↦ (refused 400 (str "node not healthy"), record t { drops = drops })
                  | b ∷ bs ↦ (
                    node_added b,
                    record {
                      reg = append_best network b (add_node network node t.reg);
                      drops = drops;
                    },
                  )
                ]
          ]
        ])
        s

  unfoldable pub admin_list_nodes : Str → Str → AdminState → AdminReply × AdminState
  unfolding with_auth network_of
  admin_list_nodes key path s =
      with_auth key
        (λ t. elim (network_of path) [
          | none ↦ (refused 400 (str "bad path"), t)
          | some network ↦ elim (lookup network t.reg) [
            | none ↦ (refused 404 (str "unknown network"), t)
            | some st ↦ (listed st.all, t)
          ]
        ])
        s

  -- The body is the field "url" of the JSON, empty where it is missing.
  unfoldable pub admin_delete_node : Str → Str → Option Str → AdminState → AdminReply × AdminState
  unfolding with_auth network_of delete_node
  admin_delete_node key path body s =
      with_auth key
        (λ t. elim (network_of path) [
          | none ↦ (refused 400 (str "bad path"), t)
          | some network ↦ elim body [
            | none ↦ (refused 400 (str "bad json"), t)
            | some url ↦
                if url == []
                then (refused 400 (str "bad json"), t)
                else elim (lookup network t.reg) [
                  | none ↦ (refused 404 (str "unknown network"), t)
                  | some st ↦ (removed url, record t { reg = delete_node network url st t.reg })
                ]
          ]
        ])
        s

  unfoldable pub admin_add_networks_bulk :
      (ℕ → ℕ → Request → Reply)
      → Str
      → Option (List NetworkConfig)
      → AdminState
      → AdminReply × AdminState
  unfolding with_auth bulk_all
  admin_add_networks_bulk nets key body s =
      with_auth key
        (λ t. elim body [
          | none ↦ (refused 400 (str "bad json"), t)
          | some configs ↦ elim configs [
            | [] ↦ (refused 400 (str "empty list"), t)
            | nc ∷ ncs ↦ let (results, t') = bulk_all nets 0 (nc ∷ ncs) t in (bulk results, t')
          ]
        ])
        s
