-- ===== src/Secrets.antt =====
-- pkg/secrets/secrets.go: values that must not be shown. The environment is an argument, as a list
-- of texts NAME=value; the sync.Once that reads it is left out, since it does not change.
pub mod Redaction
use mezzium.Base.{
  ℕ, zero, suc, ◌-◌, Bool, true, false, not, ◌&&◌, ◌||◌, Option, none, some, List, [], ◌∷◌, ◌++◌,
  map, leb, eqb, if◌then◌else◌, length,
}
use mezzium.Text.{Str, str, ◌==◌, to_lower, has_prefix, contains}
use mezzium.Dict.{Dict}

-- strings.ToUpper, of ASCII letters, which are all the patterns have.
unfoldable pub to_upper : Str → Str
to_upper s = map (λ c. if leb b'a' c && leb c b'z' then c - 32 else c) s

-- What stands before and after the first "=".
unfoldable pub name_and_value : Str → Option (Str × Str)
name_and_value [] = none
name_and_value (c ∷ s) =
    let rest = name_and_value s in
    if eqb c b'='
    then some ([], s)
    else elim rest [ none ↦ none | some (name, value) ↦ some (c ∷ name, value) ]

unfoldable pub env_name_sensitive_patterns : List Str
env_name_sensitive_patterns =
    str "API_KEY"
    ∷ str "TOKEN"
    ∷ str "SECRET"
    ∷ str "PASSWORD"
    ∷ str "ACCESS_KEY"
    ∷ str "PRIVATE_KEY"
    ∷ []

unfoldable pub contains_any : Str → List Str → Bool
contains_any s [] = false
contains_any s (pat ∷ pats) = contains s pat || contains_any s pats

-- What an entry of the environment adds.
unfoldable pub sensitive_value : Option (Str × Str) → List Str
unfolding to_upper env_name_sensitive_patterns contains_any
sensitive_value none = []
sensitive_value (some (name, value)) =
    if contains_any (to_upper name) env_name_sensitive_patterns && not (value == [])
    then value ∷ []
    else []

unfoldable pub init_sensitive_envs : List Str → List Str
unfolding sensitive_value name_and_value
init_sensitive_envs [] = []
init_sensitive_envs (kv ∷ environ) =
    sensitive_value (name_and_value kv) ++ init_sensitive_envs environ

unfoldable is_header_key : Str → Bool
is_header_key k =
    k == str "x-api-key"
    || k == str "authorization"
    || k == str "proxy-authorization"
    || k == str "api-key"

unfoldable pub redact_headers : Dict Str → Dict Str
unfolding is_header_key
redact_headers [] = []
redact_headers ((k, v) ∷ h) =
    (k, if is_header_key (to_lower k) then str "***" else v) ∷ redact_headers h

-- strings.ReplaceAll with a text that is not empty: the bytes that are still to be skipped, since
-- they are a part of an occurrence, come first.
unfoldable pub replace_from : ℕ → (old new s : Str) → Str
replace_from skip old new [] = []
replace_from zero old new (c ∷ s) = elim (has_prefix (c ∷ s) old) [
  | true ↦ new ++ replace_from (length old - 1) old new s
  | false ↦ c ∷ replace_from zero old new s
]
replace_from (suc skip) old new (c ∷ s) = replace_from skip old new s

unfoldable pub hidden : Str
hidden = str "[HIDDEN]"

-- One round of the loop of RedactString.
unfoldable pub hide : (val s : Str) → Str
unfolding replace_from hidden
hide val s = if val == [] then s else replace_from zero val hidden s

unfoldable pub redact_string : List Str → Str → Str
unfolding hide
redact_string [] s = s
redact_string (val ∷ vals) s = redact_string vals (hide val s)
