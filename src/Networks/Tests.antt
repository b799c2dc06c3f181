-- ===== src/Networks/Tests.antt =====
-- The loader of pkg/networks/loader.go on small directories.
use mezzium.Base.{
  ◌≡◌, refl, inl, inr, true, false, Option, none, some, List, [], ◌∷◌, if◌then◌else◌,
}
use mezzium.Base.Int.{ℤ, pos}
use mezzium.Text.{Str, str, ◌==◌, strip_prefix}
use mezzium.Dict.{insert}
use mezzium.Networks.{Node, NetworkConfig}
use mezzium.Networks.Loader.{Entry, incomplete, expand, is_name_byte, load_all, placeholder}
use mezzium.Networks.Loading.{Loads, load_all-Loads}

abbrev node : ℤ → Node
node p = record { url = str "http://a"; priority = p; headers = []; tor = false }

abbrev config : ℤ → NetworkConfig
config p = record {
  route = str "eth";
  protocol = str "evm";
  nodes = node p ∷ [];
  timeout_ms = pos 0;
  gas = none;
}

abbrev parse : Str → Option NetworkConfig
parse s =
    if s == str "key: k"
    then some (config (pos 0))
    else if s == str "empty"
    then some (record (config (pos 0)) { route = [] })
    else none

abbrev getenv : Str → Str
getenv var = if var == str "A_KEY" then str "k" else []

abbrev file : Str → Str → Entry
file name text = record { name = name; is_dir = false; content = some text }

abbrev good : List Entry
good =
    file (str "README.md") (str "text")
    ∷ file (str "eth.yaml") (str "key: ${A_KEY}")
    ∷ record { name = str "old.yaml"; is_dir = true; content = none }
    ∷ []

loaded : load_all parse getenv (some good) ≡ inr ((str "eth", config (pos 1)) ∷ [])
unfolding load_all ◌==◌ strip_prefix is_name_byte insert
loaded = refl

refused :
    load_all parse getenv (some (file (str "x.yaml") (str "empty") ∷ good))
    ≡ inl (incomplete (str "x.yaml"))
unfolding load_all ◌==◌ strip_prefix
refused = refl

unclosed : expand getenv 0 (str "${A_KEY $A_KEY ${a}") ≡ str "${A_KEY $A_KEY ${a}"
unfolding expand strip_prefix placeholder is_name_byte
unclosed = refl

load_all-Loads_example : Loads parse getenv good (load_all parse getenv (some good))
load_all-Loads_example = load_all-Loads parse getenv good
