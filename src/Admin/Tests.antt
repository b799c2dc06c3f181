-- ===== src/Admin/Tests.antt =====
-- Runs of the administrator's requests.
use mezzium.Base.{ℕ, ◌<◌, ◌≡◌, refl, ◌≢◌, inl, true, false, none, some, [], ◌∷◌, arith}
use mezzium.Base.Int.{pos}
use mezzium.Dict.{lookup}
use mezzium.Text.{str, ◌==◌, trim_prefix, split}
use mezzium.Text.Laws.{ne_of_test}
use mezzium.Networks.{Node}
use mezzium.Registry.{NetworkState, DiscoveredNode, prune_and_merge, has_url}
use mezzium.Health.Checks.{Request, Reply, answered}
use mezzium.Admin.{AdminState, network_of, admin_delete_node}
use mezzium.Admin.Deletion.{admin_delete_node_undone}

abbrev node_a : Node
node_a = record { url = str "a"; priority = pos 1; headers = []; tor = false }

abbrev found : DiscoveredNode
found = record { node = node_a; expires_at = 90 }

abbrev state : NetworkState
state = record {
  protocol = str "evm";
  route = str "eth";
  all = node_a ∷ [];
  best = [];
  discovered = found ∷ [];
  timeout_ms = pos 0;
  gas = none;
}

abbrev start : AdminState
start = record { reg = (str "eth", state) ∷ []; drops = [] }

abbrev net : ℕ → Request → Reply
net i req = answered 200 (pos 12) (some (str "0x1"))

eth_path : network_of (str "/admin/eth/nodes") ≡ some (str "eth")
unfolding network_of trim_prefix split
eth_path = refl

a_ne : str "a" ≢ []
unfolding ◌==◌
a_ne = ne_of_test (str "a") [] refl

lookup-eth : lookup (str "eth") start.reg ≡ some state
unfolding lookup ◌==◌
lookup-eth = refl

soon : 50 < found.expires_at
soon = ground arith

admin_delete_node_undone_example :
    (st' : NetworkState) × (lookup (str "eth") (
        prune_and_merge 50
          (admin_delete_node
            (str "k")
            (str "k")
            (str "/admin/eth/nodes")
            (some (str "a"))
            start).1.reg)
      ≡ some st')
    × (has_url (str "a") st'.all ≡ true)
admin_delete_node_undone_example =
    admin_delete_node_undone (str "k") (str "/admin/eth/nodes") (str "eth") (str "a") state start 50
      found eth_path a_ne lookup-eth (inl refl) soon refl
