-- ===== src/Proxy/Paths.antt =====
-- How Serve, pkg/api/proxy.go, takes a path apart.
use mezzium.Base.{
  ℕ, ◌≡◌, refl, ap, ◌∙◌, ◌≢◌, inl, inr, true, false, List, [], ◌∷◌, ◌++◌, arith, eqb, eqb_iff,
  Bool-cases, All,
}
use mezzium.Text.{split_parts, Str, str, strip_prefix, trim_prefix, split, join}
use mezzium.Proxy.{route_of, route_parts}

-- The byte is not in the string.
abbrev pub Lacks : ℕ → Str → Type 0
Lacks b s = All (λ c. c ≢ b) s

join-cons :
    (b : ℕ) (c : ℕ) (part : Str) (parts : List Str)
    → join b ((c ∷ part) ∷ parts) ≡ c ∷ join b (part ∷ parts)
unfolding join
join-cons b c part [] = refl
join-cons b c part (next ∷ parts) = refl

split_parts_at : (b c : ℕ) (s : Str) → eqb c b ≡ true → split b (c ∷ s) ≡ [] ∷ split b s
unfolding split split_parts
split_parts_at b c s e = rw (e, split_parts) refl

split_parts_on :
    (b c : ℕ) (s : Str)
    → eqb c b ≡ false
    → split b (c ∷ s) ≡ (c ∷ (split_parts b s).0) ∷ (split_parts b s).1
unfolding split split_parts
split_parts_on b c s e = rw (e, split_parts) refl

join-split : (b : ℕ) (s : Str) → join b (split b s) ≡ s
unfolding split split_parts join
join-split b [] = refl
join-split b (c ∷ s) = elim (Bool-cases (eqb c b)) [
  | inl e ↦
      let same : c ≡ b = (eqb_iff c b).0 e in
      ap (join b) (split_parts_at b c s e) ∙ cc (same, join-split b s)
  | inr e ↦
      ap (join b) (split_parts_on b c s e)
      ∙ join-cons b c (split_parts b s).0 (split_parts b s).1
      ∙ ap (λ (t : Str). c ∷ t) (join-split b s)
]

split-append : (b : ℕ) (part s : Str) → Lacks b part → split b (part ++ b ∷ s) ≡ part ∷ split b s
unfolding split
split-append b [] s h = split_parts_at b b s ((eqb_iff b b).1 refl)
split-append b (c ∷ part) s h =
    let e : eqb c b ≡ false = ground (arith, h.0) in
    split_parts_on b c (part ++ b ∷ s) e
    ∙ ap (λ (l : List Str). elim l [ [] ↦ [] | p ∷ ps ↦ (c ∷ p) ∷ ps ]) (split-append b part s h.1)

trim_prefix_slash : (s : Str) → trim_prefix (b'/' ∷ s) (str "/") ≡ s
unfolding trim_prefix strip_prefix
trim_prefix_slash [] = refl
trim_prefix_slash (c ∷ s) = refl

-- A path with a slash, a network without one, a slash and any tail is taken apart into these two,
-- the tail with all its slashes.
pub route_of_lem :
    (network tail : Str)
    → Lacks b'/' network
    → route_of (b'/' ∷ (network ++ b'/' ∷ tail)) ≡ (network, tail)
unfolding route_of route_parts
route_of_lem network tail h =
    ap (λ (t : Str). route_parts (split b'/' t)) (trim_prefix_slash (network ++ b'/' ∷ tail))
    ∙ ap route_parts (split-append b'/' network tail h)
    ∙ ap (λ (t : Str). (network, t)) (join-split b'/' tail)
