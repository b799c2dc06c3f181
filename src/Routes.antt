-- ===== src/Routes.antt =====
-- The routes of cmd/app/routes.go, and the headers for browsers that it and cmd/app/server.go set.
-- net/http's ServeMux is a parameter; registering panics (`none`) where a pattern is there already.
pub mod Patterns
pub mod Dispatch
mod Table
mod Tests
use mezzium.Base.{
  ℕ, zero, suc, ◌+◌, ◌-◌, ◌*◌, ◌/◌, ◌%◌, ◌^◌, ◌≤◌, ◌<◌, min, ◌≡◌, refl, sym, ap, ◌∙◌, subst, ◌≢◌,
  ◌↔◌, ◌⊎◌, inl, inr, Bool, true, false, not, ◌&&◌, ◌||◌, Option, none, some, List, [], ◌∷◌, ◌++◌,
  map, arith, ltb, leb, eqb, if◌then◌else◌, ltb_iff, leb_iff, eqb_iff, Bool-cases, Option-cases,
  length, get_elem?, keep, length-append, length-keep-le, keep_idem, In, In-append_left,
  In-append_right, In-keep, In-of_keep, All, All-append, All-keep, All_at, All_of,
}
use mezzium.Base.Int.{
  ℤ, pos, negsuc, pos_part, neg_part, ◌≤ℤ◌, ◌<ℤ◌, ltb_ℤ, leb_ℤ, eqb_ℤ, ltb_ℤ_iff, eqb_ℤ_iff, ◌+ℤ◌,
  ◌-ℤ◌, ◌*ℤ◌, +ℤ_parts, -ℤ_parts, eq_of_parts, wrap64, IsInt64, wrap64-IsInt64, wrap64_id,
}
use mezzium.Text.{
  Str, str, ◌==◌, str_lt, lower_byte, to_lower, has_prefix, contains, trim_left, trim_right, trim,
  strip_prefix, trim_prefix, split, join,
}
use mezzium.Text.Laws.{eq_iff, eq_refl, eq_of_test}
use mezzium.Dict.{Dict, lookup, insert, delete, update_all, modify, keys, values}
use mezzium.Dict.Laws.{
  lookup-insert, lookup-delete, lookup-update_all, lookup-modify, lookup-insert_self,
  lookup-insert_ne, lookup-delete_self, lookup-delete_ne, lookup-modify_self, lookup-modify_ne,
  keys-update_all, keys-modify, update_all_idem,
}
use mezzium.Networks.{Node}
use mezzium.Registry.{Registry, NetworkState}
use mezzium.Health.Checks.{Request, Reply, has_suffix}
use mezzium.Proxy.{Headers, set_header}
use mezzium.Admin.{AdminReply, AdminState, admin_add_node, admin_list_nodes, admin_delete_node}

-- The handlers, by what they serve.
pub data Endpoint : Type 0 where
  to_announce : Endpoint
  to_healthz : Endpoint
  to_gossip : Endpoint
  to_heartbeat : Endpoint
  to_swagger : Endpoint
  to_swagger_json : Endpoint
  to_gossip_state : Endpoint
  to_active_nodes : Endpoint
  to_btc_balance : Endpoint
  to_nft_get_all_nfts : Endpoint
  to_nft_get_nft_metadata : Endpoint
  to_add_network : Endpoint
  to_add_networks_bulk : Endpoint
  to_admin : Endpoint
  to_ws : Endpoint
  to_proxy : Endpoint
  to_metrics : Endpoint

-- `handler` is for a path that is as `cleaned` leaves it; net/http redirects others.
pub record ServeMux (M : Type 0) : Type 0 where
  pub new_serve_mux : M
  pub handle : Str → Endpoint → M → Option M
  pub handler : M → Str → Option Endpoint
  pub cleaned : Str → Str

unfoldable pub register : {M : Type 0} → ServeMux M → Dict Endpoint → M → Option M
register mux [] m = some m
register mux ((pattern_of, e) ∷ ps) m = elim (mux.handle pattern_of e m) [
  | none ↦ none
  | some more ↦ register mux ps more
]

-- The patterns that are registered before those of the networks.
abbrev pub control_routes : Dict Endpoint
control_routes =
    (str "/announce", to_announce)
    ∷ (str "/healthz", to_healthz)
    ∷ (str "/gossip", to_gossip)
    ∷ (str "/heartbeat", to_heartbeat)
    ∷ (str "/swagger/", to_swagger)
    ∷ (str "/swagger/swagger.json", to_swagger_json)
    ∷ (str "/gossip-state", to_gossip_state)
    ∷ (str "/active-nodes", to_active_nodes)
    ∷ (str "/btc/balance/", to_btc_balance)
    ∷ (str "/ethereum/nft/get-all-nfts/", to_nft_get_all_nfts)
    ∷ (str "/ethereum/nft/get-nft-metadata/", to_nft_get_nft_metadata)
    ∷ (str "/admin/networks", to_add_network)
    ∷ (str "/admin/networks/bulk", to_add_networks_bulk)
    ∷ (str "/admin/", to_admin)
    ∷ (str "/ws/", to_ws)
    ∷ []

-- Those of one network, and of all.
unfoldable pub proxy_routes : (route : Str) → Dict Endpoint
unfolding has_suffix
proxy_routes route =
    if has_suffix route (str "/")
    then (route, to_proxy) ∷ []
    else (route, to_proxy) ∷ (route ++ str "/", to_proxy) ∷ []

unfoldable pub network_routes : Registry → Dict Endpoint
unfolding proxy_routes
network_routes [] = []
network_routes ((name, st) ∷ r) = proxy_routes st.route ++ network_routes r

unfoldable pub routes : Registry → Dict Endpoint
unfolding network_routes
routes r = control_routes ++ (network_routes r ++ (str "/metrics", to_metrics) ∷ [])

unfoldable pub register_routes : {M : Type 0} → ServeMux M → Registry → Option M
unfolding register routes
register_routes mux r = register mux (routes r) mux.new_serve_mux

-- The handler of "/admin/"; `none` is http.NotFound.
unfoldable pub serve_admin :
    (admin_key : Str) (net : ℕ → Request → Reply) (key method path : Str)
    → Option Node
    → Option Str
    → AdminState
    → Option (AdminReply × AdminState)
unfolding has_suffix admin_add_node admin_list_nodes admin_delete_node
serve_admin admin_key net key method path n url s =
    if has_suffix path (str "/nodes") && method == str "GET"
    then some (admin_list_nodes admin_key key path s)
    else if has_suffix path (str "/nodes") && method == str "DELETE"
    then some (admin_delete_node admin_key key path url s)
    else if has_suffix path (str "/nodes") && method == str "POST"
    then some (admin_add_node admin_key net key path n s)
    else none

-- A handler gets the method and the response's headers so far, and gives the headers and its
-- answer, `none` where only the status 204 is written.
abbrev pub HandlerFunc : Type 0 → Type 0
HandlerFunc A = (method : Str) → Headers → Headers × Option A

-- corsWrapper
unfoldable pub cors_wrapper : {A : Type 0} → HandlerFunc A → HandlerFunc A
unfolding set_header
cors_wrapper h method hd =
    let hd = set_header (str "Access-Control-Max-Age") (str "600") (
      set_header (str "Access-Control-Allow-Headers")
        (str "Content-Type,Accept,Authorization,x-api-key,x-admin-key,X-Requested-With")
        (set_header (str "Access-Control-Allow-Methods") (str "GET,POST,OPTIONS")
          (set_header (str "Access-Control-Allow-Origin") (str "*") hd))) in
    if method == str "OPTIONS" then (hd, none) else h method hd

-- withCORS of server.go
unfoldable pub with_cors : {A : Type 0} → HandlerFunc A → HandlerFunc A
unfolding set_header
with_cors h method hd =
    let hd =
      set_header (str "Access-Control-Allow-Methods")
        (str "GET, POST, PUT, DELETE, PATCH, HEAD, OPTIONS")
        (set_header (str "Access-Control-Allow-Headers")
          (str "Content-Type, Authorization, x-admin-key, x-rpc-switch")
          (set_header (str "Access-Control-Allow-Origin") (str "*") hd)) in
    if method == str "OPTIONS" then (hd, none) else h method hd

-- What the server that startServer starts answers.
unfoldable pub wrapped : {A : Type 0} → HandlerFunc A → HandlerFunc A
unfolding with_cors cors_wrapper
wrapped h = with_cors (cors_wrapper h)
