-- ===== src/System.antt =====
-- The parts of the gateway together: what the handlers and the health loop do to the registry and to
-- the URLs that are to be dropped, in any order, and the start of the program, cmd/app.
pub mod Soundness
pub mod Upstreams
pub mod Websockets
pub mod Locked
pub mod Overtaken
pub mod Discovered
mod Tests
use mezzium.Base.{
  ℕ, zero, suc, ◌+◌, ◌-◌, ◌*◌, ◌/◌, ◌%◌, ◌^◌, ◌≤◌, ◌<◌, min, ◌≡◌, refl, sym, ap, ◌∙◌, subst, ◌≢◌,
  ◌↔◌, ◌⊎◌, inl, inr, Bool, true, false, not, ◌&&◌, ◌||◌, Option, none, some, List, [], ◌∷◌, ◌++◌,
  map, arith, ltb, leb, eqb, if◌then◌else◌, ltb_iff, leb_iff, eqb_iff, Bool-cases, Option-cases,
  length, get_elem?, keep, length-append, length-keep-le, keep_idem, In, In-append_left,
  In-append_right, In-keep, In-of_keep, All, All-append, All-keep, All_at, All_of,
}
use mezzium.Text.{
  Str, str, ◌==◌, str_lt, lower_byte, to_lower, has_prefix, contains, trim_left, trim_right, trim,
  strip_prefix, trim_prefix, split, join,
}
use mezzium.Text.Laws.{eq_iff, eq_refl, eq_of_test}
use mezzium.Dict.{Dict, lookup, insert, delete, update_all, modify, keys, values}
use mezzium.Dict.Laws.{
  lookup-insert, lookup-delete, lookup-update_all, lookup-modify, lookup-insert_self,
  lookup-insert_ne, lookup-delete_self, lookup-delete_ne, lookup-modify_self, lookup-modify_ne,
  keys-update_all, keys-modify, update_all_idem,
}
use mezzium.Networks.{Node, NetworkConfig}
use mezzium.Networks.Loader.{Entry, LoadError, load_all}
use mezzium.Registry.{Registry, new, init_from_configs}
use mezzium.Health.Checks.{Request, Reply}
use mezzium.Health.Cycle.{Net, health_tick, run_initial_health}
use mezzium.Gossip.{StateMessage, state_handler}
use mezzium.Admin.{
  AdminState, admin_add_network, admin_add_node, admin_delete_node, admin_add_networks_bulk,
}

-- config of cmd/app/config.go
pub record Config : Type 0 where
  pub pod_ip : Str
  pub pod_name : Str
  pub shared_secret : Str
  pub bootstrap_url : Str
  pub tor_socks : Str
  pub admin_key : Str
  pub host : Str
  pub port : Str

-- os.Getenv gives the empty text for a variable that is not set.
unfoldable pub get_env : (getenv : Str → Str) → (key def : Str) → Str
get_env getenv key def = if getenv key == [] then def else getenv key

unfoldable pub load_config : (getenv : Str → Str) → Config
unfolding get_env
load_config getenv = record {
  pod_ip = get_env getenv (str "POD_IP") (str "127.0.0.1");
  pod_name = get_env getenv (str "POD_NAME") (str "dev-node");
  shared_secret = get_env getenv (str "SHARED_SECRET") (str "devsecret");
  bootstrap_url = get_env getenv (str "BOOTSTRAP_URL") [];
  tor_socks = get_env getenv (str "TOR_SOCKS5") (str "127.0.0.1:9050");
  admin_key = get_env getenv (str "ADMIN_API_KEY") (str "changeme");
  host = get_env getenv (str "SERVER_HOST") (str "0.0.0.0");
  port = get_env getenv (str "SERVER_PORT") (str "8080");
}

-- initRegistry, from what LoadAll gives for configs/networks: an error ends the program.
unfoldable pub init_registry : LoadError ⊎ Dict NetworkConfig → LoadError ⊎ Registry
unfolding init_from_configs new
init_registry (inl err) = inl err
init_registry (inr cfgs) = inr (init_from_configs cfgs new)

-- main, from the registry to the first checks.
unfoldable pub first_checks : Net → LoadError ⊎ Registry → LoadError ⊎ AdminState
unfolding run_initial_health
first_checks net (inl err) = inl err
first_checks net (inr r) =
    let (reg, drops) = run_initial_health net r [] in inr (record { reg = reg; drops = drops })

unfoldable pub start :
    (parse : Str → Option NetworkConfig) (getenv : Str → Str)
    → Net
    → Option (List Entry)
    → LoadError ⊎ AdminState
unfolding load_all init_registry first_checks
start parse getenv net dir = first_checks net (init_registry (load_all parse getenv dir))

-- A tick of the health loop, and the requests that can change the registry.
pub data Step (admin_key : Str) (s : AdminState) : AdminState → Type 0 where
  ticks :
      (net : Net) (now : ℕ)
      → Step admin_key s (record {
        reg = (health_tick net now s.reg s.drops).0;
        drops = (health_tick net now s.reg s.drops).1;
      })
  adds_network :
      (net : ℕ → Request → Reply) (key : Str) (nc : Option NetworkConfig)
      → Step admin_key s (admin_add_network admin_key net key nc s).1
  adds_networks :
      (nets : ℕ → ℕ → Request → Reply) (key : Str) (ncs : Option (List NetworkConfig))
      → Step admin_key s (admin_add_networks_bulk admin_key nets key ncs s).1
  adds_node :
      (net : ℕ → Request → Reply) (key path : Str) (n : Option Node)
      → Step admin_key s (admin_add_node admin_key net key path n s).1
  deletes_node :
      (key path : Str) (url : Option Str)
      → Step admin_key s (admin_delete_node admin_key key path url s).1
  hears :
      (now : ℕ) (method : Str) (body : Option StateMessage)
      → Step admin_key s (record s { reg = (state_handler now method body s.reg).1 })

pub data Reach (admin_key : Str) (s : AdminState) : AdminState → Type 0 where
  here : Reach admin_key s s
  next : {t u : AdminState} → Reach admin_key s t → Step admin_key t u → Reach admin_key s u
