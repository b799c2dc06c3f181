-- ===== src/Admin/Keys.antt =====
-- auth of pkg/api/admin.go.
use mezzium.Base.{ℕ, ◌≡◌, refl, ◌≢◌, false, Option, none, some, List, arith}
use mezzium.Text.{Str, str, ◌==◌}
use mezzium.Text.Laws.{eq_iff}
use mezzium.Networks.{Node, NetworkConfig}
use mezzium.Health.Checks.{Request, Reply}
use mezzium.Admin.{
  false, refused, AdminState, with_auth, admin_add_network, admin_add_node, admin_delete_node,
  admin_add_networks_bulk,
}

module _ (admin_key key : Str) (s : AdminState) where
  other_key : key ≢ admin_key → (key == admin_key) ≡ false
  other_key ne = ground (arith, eq_iff key admin_key)

  -- A request with another key than the administrator's is refused by each of the handlers, before
  -- anything is checked, listed or changed.
  pub with_auth-admin_add_network :
      (net : ℕ → Request → Reply) (nc : Option NetworkConfig)
      → key ≢ admin_key
      → admin_add_network admin_key net key nc s ≡ (refused 401 (str "unauthorized"), s)
  unfolding admin_add_network with_auth
  with_auth-admin_add_network net none ne = rw (other_key ne, admin_add_network) refl
  with_auth-admin_add_network net (some nc) ne = rw (other_key ne, admin_add_network) refl

  pub with_auth-admin_add_node :
      (net : ℕ → Request → Reply) (path : Str) (n : Option Node)
      → key ≢ admin_key
      → admin_add_node admin_key net key path n s ≡ (refused 401 (str "unauthorized"), s)
  unfolding admin_add_node with_auth
  with_auth-admin_add_node net path n ne = rw (other_key ne, admin_add_node) refl

  pub with_auth-admin_delete_node :
      (path : Str) (url : Option Str)
      → key ≢ admin_key
      → admin_delete_node admin_key key path url s ≡ (refused 401 (str "unauthorized"), s)
  unfolding admin_delete_node with_auth
  with_auth-admin_delete_node path url ne = rw (other_key ne, admin_delete_node) refl

  pub with_auth-admin_add_networks_bulk :
      (nets : ℕ → ℕ → Request → Reply) (ncs : Option (List NetworkConfig))
      → key ≢ admin_key
      → admin_add_networks_bulk admin_key nets key ncs s ≡ (refused 401 (str "unauthorized"), s)
  unfolding admin_add_networks_bulk with_auth
  with_auth-admin_add_networks_bulk nets ncs ne = rw (other_key ne, admin_add_networks_bulk) refl
