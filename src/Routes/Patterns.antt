-- ===== src/Routes/Patterns.antt =====
-- What is documented of net/http's ServeMux, for the patterns of cmd/app/routes.go, which are paths
-- without methods, hosts and wildcards.
use mezzium.Base.{
  ℕ, ◌<◌, ◌≡◌, refl, subst, ◌≢◌, inl, inr, Bool, true, false, not, ◌&&◌, ◌||◌, none, some, List, [],
  ◌∷◌, ◌++◌, arith, eqb, Bool-cases, length, keep, In,
}
use mezzium.Text.{Str, str, ◌==◌, has_prefix}
use mezzium.Text.Laws.{eq_of_test}
use mezzium.Dict.{Dict, keys}
use mezzium.Health.Checks.{has_suffix}
use mezzium.Proxy.Paths.{Lacks}
use mezzium.Routes.{Endpoint, ServeMux, register}

-- A pattern that ends in a slash matches what is below it, too.
unfoldable pub matches : (pattern_of path : Str) → Bool
unfolding has_suffix
matches p path = p == path || (has_suffix p (str "/") && has_prefix path p)

-- The bytes that are special in a pattern.
unfoldable pub is_plain_byte : ℕ → Bool
is_plain_byte c = not (eqb c b'{' || eqb c b'}' || eqb c b' ' || eqb c 9 || eqb c b'%')

unfoldable pub is_plain : Str → Bool
unfolding is_plain_byte
is_plain p = has_prefix p (str "/") && eqb (length (keep is_plain_byte p)) (length p)

unfoldable pub are_plain : List Str → Bool
unfolding is_plain
are_plain [] = true
are_plain (p ∷ ps) = is_plain p && are_plain ps

unfoldable pub occurs : Str → List Str → Bool
occurs p [] = false
occurs p (q ∷ qs) = q == p || occurs p qs

unfoldable pub are_distinct : List Str → Bool
unfolding occurs
are_distinct [] = true
are_distinct (p ∷ ps) = not (occurs p ps) && are_distinct ps

unfoldable pub none_matches : List Str → (path : Str) → Bool
unfolding matches
none_matches [] path = true
none_matches (p ∷ ps) path = not (matches p path) && none_matches ps path

-- Patterns can be registered once each; the longest that matches a path serves it; where none does,
-- also with a slash behind the path, there is no handler.
pub record IsServeMux {M : Type 0} (mux : ServeMux M) : Type 0 where
  pub registers :
      (ps : Dict Endpoint)
      → are_plain (keys ps) ≡ true
      → are_distinct (keys ps) ≡ true
      → (m : M) × (register mux ps mux.new_serve_mux ≡ some m)
  pub finds :
      (ps : Dict Endpoint) (m : M)
      → register mux ps mux.new_serve_mux ≡ some m
      → are_plain (keys ps) ≡ true
      → (p : Str) (e : Endpoint) (path : Str) → mux.cleaned path ≡ path
      → In (p, e) ps
      → matches p path ≡ true
      → ((q : Str) → In q (keys ps) → matches q path ≡ true → q ≢ p → length q < length p)
      → mux.handler m path ≡ some e
  pub misses :
      (ps : Dict Endpoint) (m : M)
      → register mux ps mux.new_serve_mux ≡ some m
      → are_plain (keys ps) ≡ true
      → (path : Str) → mux.cleaned path ≡ path
      → none_matches (keys ps) path ≡ true
      → none_matches (keys ps) (path ++ str "/") ≡ true
      → mux.handler m path ≡ none

pub none_matches_at :
    (ps : List Str) (p path : Str) → none_matches ps path ≡ true → In p ps → matches p path ≡ false
unfolding none_matches
none_matches_at [] p path h i = absurd i
none_matches_at (q ∷ ps) p path h (inl e) = rw e (ground (arith, h))
none_matches_at (q ∷ ps) p path h (inr i) = none_matches_at ps p path (ground (arith, h)) i

pub none_matches_of :
    (ps : List Str) (path : Str)
    → ((p : Str) → In p ps → matches p path ≡ false)
    → none_matches ps path ≡ true
unfolding none_matches
none_matches_of [] path h = refl
none_matches_of (p ∷ ps) path h =
    ground (arith, h p (inl refl), none_matches_of ps path (λ q i. h q (inr i)))

has_suffix_lacking : (s : Str) → Lacks b'/' s → has_suffix s (str "/") ≡ false
unfolding has_suffix ◌==◌
has_suffix_lacking [] h = refl
has_suffix_lacking (c ∷ []) h = ground (arith, h.0)
has_suffix_lacking (c ∷ d ∷ s) h = ground (arith, has_suffix_lacking (d ∷ s) h.1)

pub has_suffix_slash : (s : Str) → has_suffix (s ++ str "/") (str "/") ≡ true
unfolding has_suffix ◌==◌
has_suffix_slash [] = refl
has_suffix_slash (c ∷ s) = ground (arith, has_suffix_slash s)

-- The route of a network whose name has no slash.
pub has_suffix_route :
    (name : Str) → name ≢ [] → Lacks b'/' name → has_suffix (b'/' ∷ name) (str "/") ≡ false
unfolding has_suffix ◌==◌
has_suffix_route [] ne h = absurd (ne refl)
has_suffix_route (c ∷ s) ne h = has_suffix_lacking (c ∷ s) h

has_prefix_refl : (s : Str) → has_prefix s s ≡ true
unfolding has_prefix
has_prefix_refl [] = refl
has_prefix_refl (c ∷ s) = ground (arith, has_prefix_refl s)

has_prefix_tail : (c : ℕ) (s t : Str) → has_prefix (c ∷ s) (c ∷ t) ≡ true → has_prefix s t ≡ true
unfolding has_prefix
has_prefix_tail c s t e = ground (arith, e)

pub has_prefix_below : (name tail : Str) → has_prefix (name ++ b'/' ∷ tail) (name ++ str "/") ≡ true
unfolding has_prefix
has_prefix_below [] [] = refl
has_prefix_below [] (c ∷ tail) = refl
has_prefix_below (c ∷ name) tail = ground (arith, has_prefix_below name tail)

-- A name without a slash, up to the slash, is the first part of the path.
same_name :
    (name other tail : Str)
    → Lacks b'/' name
    → Lacks b'/' other
    → has_prefix (name ++ b'/' ∷ tail) (other ++ str "/") ≡ true
    → other ≡ name
unfolding has_prefix
same_name [] [] tail h k e = refl
same_name [] (d ∷ other) tail h k e = absurd (ground (arith, e, k.0))
same_name (c ∷ name) [] tail h k e = absurd (ground (arith, e, h.0))
same_name (c ∷ name) (d ∷ other) tail h k e =
    ground (arith, e, same_name name other tail h.1 k.1 (ground (arith, e)))

module _ (name other tail : Str) (h : Lacks b'/' name) (k : Lacks b'/' other) where
  lacking_ne : (s t : Str) → Lacks b'/' s → s ≢ t ++ b'/' ∷ tail
  lacking_ne [] [] l e = cc e
  lacking_ne [] (d ∷ t) l e = cc e
  lacking_ne (c ∷ s) [] l e = l.0 (cc e)
  lacking_ne (c ∷ s) (d ∷ t) l e = lacking_ne s t l.1 (cc e)

  pub matches_below :
      matches (b'/' ∷ (other ++ str "/")) (b'/' ∷ (name ++ b'/' ∷ tail)) ≡ true → other ≡ name
  unfolding matches
  matches_below e = elim (Bool-cases (b'/' ∷ (other ++ str "/") == b'/' ∷ (name ++ b'/' ∷ tail))) [
    | inl q ↦ same_name name other tail h k (
        subst (λ (s : Str). has_prefix s (other ++ str "/") ≡ true) (cc (eq_of_test _ _ q))
          (has_prefix_refl (other ++ str "/")))
    | inr q ↦
        same_name name other tail h k
          (has_prefix_tail b'/' (name ++ b'/' ∷ tail) (other ++ str "/") (ground (arith, e, q)))
  ]

  pub matches_name : other ≢ [] → matches (b'/' ∷ other) (b'/' ∷ (name ++ b'/' ∷ tail)) ≡ false
  unfolding matches
  matches_name ne =
      let short : has_suffix (b'/' ∷ other) (str "/") ≡ false = has_suffix_route other ne k in
      elim (Bool-cases (b'/' ∷ other == b'/' ∷ (name ++ b'/' ∷ tail))) [
        | inl q ↦ absurd (lacking_ne other name k (cc (eq_of_test _ _ q)))
        | inr q ↦ rw (short, matches) (rw (q, matches) refl)
      ]
