-- ===== src/Text.antt =====
-- Go's strings are sequences of bytes. The functions below are those of Go's package strings that
-- the program calls; letters outside ASCII are left as they are by `to_lower`.
pub mod Laws
use Prim.Native.Char.{code}
use Prim.Native.String.{String}
use mezzium.Base.{
  Option, none, some, ◌++◌, ℕ, ◌+◌, ◌-◌, Bool, true, false, ◌&&◌, ◌||◌, List, [], ◌∷◌, map, ltb,
  leb, eqb, if◌then◌else◌,
}

abbrev pub Str : Type 0
Str = List ℕ

-- The bytes of an ASCII literal.
abbrev pub str : String → Str
str String.[] = []
str (String.◌∷◌ c s) = code c ∷ str s

infix 50 ◌==◌
unfoldable pub ◌==◌ : Str → Str → Bool
[] == [] = true
[] == (d ∷ t) = false
(c ∷ s) == [] = false
(c ∷ s) == (d ∷ t) = eqb c d && s == t

-- The order of Go's strings: bytewise, lexicographic.
unfoldable pub str_lt : Str → Str → Bool
str_lt s [] = false
str_lt [] (d ∷ t) = true
str_lt (c ∷ s) (d ∷ t) = ltb c d || (eqb c d && str_lt s t)

unfoldable pub lower_byte : ℕ → ℕ
lower_byte c = if leb b'A' c && leb c b'Z' then c + 32 else c

unfoldable pub to_lower : Str → Str
unfolding lower_byte
to_lower s = map lower_byte s

unfoldable pub has_prefix : Str → Str → Bool
has_prefix s [] = true
has_prefix [] (d ∷ t) = false
has_prefix (c ∷ s) (d ∷ t) = eqb c d && has_prefix s t

unfoldable pub contains : Str → Str → Bool
unfolding has_prefix
contains [] t = has_prefix [] t
contains (c ∷ s) t = has_prefix (c ∷ s) t || contains s t

-- strings.TrimLeft and strings.TrimRight with a cutset of one byte.
unfoldable pub trim_left : ℕ → Str → Str
trim_left b [] = []
trim_left b (c ∷ s) = if eqb c b then trim_left b s else c ∷ s

-- The rest is trimmed first: a byte stays exactly when something stays behind it, or it differs.
unfoldable pub trim_right : ℕ → Str → Str
trim_right b [] = []
trim_right b (c ∷ s) = elim (trim_right b s) [
  | [] ↦ if eqb c b then [] else c ∷ []
  | d ∷ r ↦ c ∷ d ∷ r
]

unfoldable pub trim : ℕ → Str → Str
unfolding trim_left trim_right
trim b s = trim_right b (trim_left b s)

-- What is left behind a prefix.
unfoldable pub strip_prefix : Str → Str → Option Str
strip_prefix s [] = some s
strip_prefix [] (d ∷ t) = none
strip_prefix (c ∷ s) (d ∷ t) = if eqb c d then strip_prefix s t else none

-- strings.TrimPrefix
unfoldable pub trim_prefix : Str → Str → Str
unfolding strip_prefix
trim_prefix s t = elim (strip_prefix s t) [ none ↦ s | some r ↦ r ]

-- strings.Split with a separator of one byte. A split is never empty: its first part and the rest.
unfoldable pub split_parts : ℕ → Str → Str × List Str
split_parts b [] = ([], [])
split_parts b (c ∷ s) =
    let (part, parts) = split_parts b s in if eqb c b then ([], part ∷ parts) else (c ∷ part, parts)

unfoldable pub split : ℕ → Str → List Str
unfolding split_parts
split b s = (split_parts b s).0 ∷ (split_parts b s).1

-- strings.Join with a separator of one byte.
unfoldable pub join : ℕ → List Str → Str
join b [] = []
join b (part ∷ []) = part
join b (part ∷ next ∷ parts) = part ++ b ∷ join b (next ∷ parts)
