-- ===== src/Networks/Loader.antt =====
-- pkg/networks/loader.go: the networks are read from the files of a directory. The directory, its
-- files, the environment and the YAML decoder are arguments; what is logged is left out, and so is
-- re.Match, which only logs.
use mezzium.Base.{
  ℕ, zero, suc, ◌⊎◌, inl, inr, Bool, ◌&&◌, ◌||◌, Option, none, some, List, [], ◌∷◌, ◌++◌, map, leb,
  eqb, if◌then◌else◌, length,
}
use mezzium.Base.Int.{pos, eqb_ℤ}
use mezzium.Text.{Str, str, ◌==◌, strip_prefix}
use mezzium.Dict.{Dict, insert}
use mezzium.Networks.{Node, NetworkConfig}

-- An entry of os.ReadDir, with what os.ReadFile gives for it.
pub record Entry : Type 0 where
  pub name : Str
  pub is_dir : Bool
  pub content : Option Str

pub data LoadError : Type 0 where
  dir_unreadable : LoadError
  file_unreadable : Str → LoadError
  invalid : Str → LoadError
  incomplete : Str → LoadError

-- What precedes a suffix: strings.HasSuffix and strings.TrimSuffix.
unfoldable pub strip_suffix : (suffix s : Str) → Option Str
strip_suffix suffix [] = if [] == suffix then some [] else none
strip_suffix suffix (c ∷ s) =
    let rest = strip_suffix suffix s in
    if c ∷ s == suffix then some [] else elim rest [ none ↦ none | some r ↦ some (c ∷ r) ]

-- The class [A-Z0-9_] of the regular expression.
unfoldable pub is_name_byte : ℕ → Bool
is_name_byte c = (leb b'A' c && leb c b'Z') || (leb b'0' c && leb c b'9') || eqb c b'_'

-- The longest run of such bytes, and what follows it.
unfoldable pub name_run : Str → Str × Str
name_run [] = ([], [])
name_run (c ∷ s) =
    let (run, rest) = name_run s in if is_name_byte c then (c ∷ run, rest) else ([], c ∷ s)

unfoldable pub closed : Str × Str → Option Str
closed ([], rest) = none
closed (c ∷ run, []) = none
closed (c ∷ run, d ∷ rest) = if eqb d b'}' then some (c ∷ run) else none

-- The variable of a placeholder that stands at the front.
unfoldable pub placeholder : Str → Option Str
unfolding closed name_run
placeholder s = elim (strip_prefix s (str "${")) [ none ↦ none | some t ↦ closed (name_run t) ]

-- re.ReplaceAllFunc with os.Getenv; the bytes still to be skipped, since they are a part of a
-- placeholder, come first.
unfoldable pub expand : (getenv : Str → Str) → ℕ → Str → Str
expand getenv skip [] = []
expand getenv zero (c ∷ s) = elim (placeholder (c ∷ s)) [
  | none ↦ c ∷ expand getenv zero s
  | some var ↦ getenv var ++ expand getenv (suc (suc (length var))) s
]
expand getenv (suc skip) (c ∷ s) = expand getenv skip s

-- Headers that are nil and headers that are empty are the same here.
unfoldable pub with_priority : Node → Node
with_priority n = record n { priority = if eqb_ℤ n.priority (pos 0) then pos 1 else n.priority }

unfoldable pub with_defaults : NetworkConfig → NetworkConfig
unfolding with_priority
with_defaults nc = record nc { nodes = map with_priority nc.nodes }

unfoldable pub checked : Str → Option NetworkConfig → LoadError ⊎ NetworkConfig
unfolding with_defaults
checked name none = inl (invalid name)
checked name (some nc) =
    if nc.route == [] || nc.protocol == [] then inl (incomplete name) else inr (with_defaults nc)

-- The key of a file that is read.
unfoldable pub key_of : Entry → Option Str
unfolding strip_suffix
key_of e = if e.is_dir then none else strip_suffix (str ".yaml") e.name

unfoldable pub add_network :
    Option Str → LoadError ⊎ NetworkConfig → Dict NetworkConfig → LoadError ⊎ Dict NetworkConfig
add_network none c out = inr out
add_network (some key) (inl err) out = inl err
add_network (some key) (inr nc) out = inr (insert key nc out)

module _ (parse : Str → Option NetworkConfig) (getenv : Str → Str) where
  unfoldable pub config_of : Entry → LoadError ⊎ NetworkConfig
  unfolding checked expand placeholder
  config_of e = elim e.content [
    | none ↦ inl (file_unreadable e.name)
    | some b ↦ checked e.name (parse (expand getenv zero b))
  ]

  unfoldable pub load_entries : List Entry → Dict NetworkConfig → LoadError ⊎ Dict NetworkConfig
  unfolding add_network key_of config_of
  load_entries [] out = inr out
  load_entries (e ∷ es) out = elim (add_network (key_of e) (config_of e) out) [
    | inl err ↦ inl err
    | inr more ↦ load_entries es more
  ]

  unfoldable pub load_all : Option (List Entry) → LoadError ⊎ Dict NetworkConfig
  unfolding load_entries
  load_all none = inl dir_unreadable
  load_all (some es) = load_entries es []
