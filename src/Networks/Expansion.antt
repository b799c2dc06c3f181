-- ===== src/Networks/Expansion.antt =====
-- The placeholders of pkg/networks/loader.go.
use mezzium.Base.{
  ℕ, zero, suc, ◌≡◌, refl, ap, ◌∙◌, ◌≢◌, true, none, some, [], ◌∷◌, ◌++◌, arith, length, All,
}
use mezzium.Text.{Str, str, strip_prefix}
use mezzium.Networks.Loader.{expand, placeholder, closed, name_run, is_name_byte}

name_run_lem :
    (var rest : Str)
    → All (λ (c : ℕ). is_name_byte c ≡ true) var
    → name_run (var ++ b'}' ∷ rest) ≡ (var, b'}' ∷ rest)
unfolding name_run is_name_byte
name_run_lem [] rest h = refl
name_run_lem (c ∷ var) rest h = rw (name_run_lem var rest h.1, h.0) refl

pub placeholder_lem :
    (c : ℕ) (var rest : Str)
    → All (λ (d : ℕ). is_name_byte d ≡ true) (c ∷ var)
    → placeholder (str "${" ++ (c ∷ var) ++ b'}' ∷ rest) ≡ some (c ∷ var)
unfolding placeholder closed strip_prefix
placeholder_lem c var rest h = ap closed (name_run_lem (c ∷ var) rest h)

placeholder-none : (c : ℕ) (s : Str) → c ≢ b'$' → placeholder (c ∷ s) ≡ none
unfolding placeholder strip_prefix
placeholder-none c s h = ground (arith, h)

module _ (getenv : Str → Str) where
  pub expand-some :
      (c : ℕ) (s var : Str)
      → placeholder (c ∷ s) ≡ some var
      → expand getenv zero (c ∷ s) ≡ getenv var ++ expand getenv (suc (suc (length var))) s
  unfolding expand
  expand-some c s var e = rw (e, expand) refl

  pub expand-none :
      (c : ℕ) (s : Str)
      → placeholder (c ∷ s) ≡ none
      → expand getenv zero (c ∷ s) ≡ c ∷ expand getenv zero s
  unfolding expand
  expand-none c s e = rw (e, expand) refl

  expand_skip :
      (run : Str) (d : ℕ) (rest : Str)
      → expand getenv (suc (length run)) (run ++ d ∷ rest) ≡ expand getenv zero rest
  unfolding expand
  expand_skip [] d rest = refl
  expand_skip (c ∷ run) d rest = expand_skip run d rest

  expand_front :
      (c : ℕ) (var after : Str)
      → All (λ (d : ℕ). is_name_byte d ≡ true) (c ∷ var)
      → expand getenv zero (str "${" ++ (c ∷ var) ++ b'}' ∷ after)
        ≡ getenv (c ∷ var) ++ expand getenv zero after
  unfolding expand
  expand_front c var after h =
      expand-some b'$' (b'{' ∷ (c ∷ var) ++ b'}' ∷ after) (c ∷ var) (placeholder_lem c var after h)
      ∙ ap (λ s. getenv (c ∷ var) ++ s) (expand_skip (c ∷ var) b'}' after)

  expand_plain :
      (before rest : Str)
      → All (λ (c : ℕ). c ≢ b'$') before
      → expand getenv zero (before ++ rest) ≡ before ++ expand getenv zero rest
  expand_plain [] rest h = refl
  expand_plain (c ∷ before) rest h =
      expand-none c (before ++ rest) (placeholder-none c (before ++ rest) h.0)
      ∙ ap (λ s. c ∷ s) (expand_plain before rest h.1)

  -- A placeholder ${VAR} after a text without "$" becomes the value of VAR, which is not expanded
  -- again, and the text behind it is expanded like a text of its own.
  pub expand_placeholder :
      (before var after : Str)
      → All (λ (c : ℕ). c ≢ b'$') before
      → var ≢ []
      → All (λ (c : ℕ). is_name_byte c ≡ true) var
      → expand getenv zero (before ++ (str "${" ++ (var ++ b'}' ∷ after)))
        ≡ before ++ (getenv var ++ expand getenv zero after)
  expand_placeholder before [] after plain ne h = absurd (ne refl)
  expand_placeholder before (c ∷ var) after plain ne h =
      expand_plain before (str "${" ++ (c ∷ var) ++ b'}' ∷ after) plain
      ∙ ap (λ s. before ++ s) (expand_front c var after h)
