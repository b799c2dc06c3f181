-- ===== src/Proxy/Urls.antt =====
-- Where the URLs that buildUpstreamURL of pkg/api/proxy.go builds lead.
use mezzium.Base.{
  List-cases, ℕ, ◌≡◌, refl, sym, ap, ◌∙◌, ◌⊎◌, inl, inr, [], ◌∷◌, ◌++◌, eqb, eqb_iff, Bool-cases,
  All,
}
use mezzium.Text.{Str, str, ◌==◌, trim_left, trim_right, split}
use mathlib.Core.List.{append_assoc, append-nil}
use mezzium.Proxy.{build_upstream_url}

-- The second URL is the first, but for the slashes at its end, and then nothing, or a path behind a
-- slash, or a query behind a question mark.
abbrev pub IsBelow : (base url : Str) → Type 0
IsBelow base url =
    (trunk : Str) × (slashes : Str) × (rest : Str) × (base ≡ trunk ++ slashes)
    × All (λ (c : ℕ). c ≡ b'/') slashes
    × (url ≡ trunk ++ rest)
    × ((rest ≡ [])
        ⊎ ((path : Str) × (rest ≡ b'/' ∷ path))
        ⊎ ((query : Str) × (rest ≡ b'?' ∷ query)))

trim_right_split :
    (b : ℕ) (s : Str) → (end : Str) × (s ≡ trim_right b s ++ end) × All (λ (c : ℕ). c ≡ b) end
unfolding trim_right
trim_right_split b [] = ([], refl, tt)
trim_right_split b (c ∷ s) =
    let (end, split, all) = trim_right_split b s in
    elim (List-cases (trim_right b s)) [
      | inl e ↦ elim (Bool-cases (eqb c b)) [
        | inl same ↦ (
          c ∷ end,
          rw (e, same, trim_right) (ap (λ (x : Str). c ∷ x) (split ∙ ap (λ (x : Str). x ++ end) e)),
          ((eqb_iff c b).0 same, all),
        )
        | inr other ↦ (
          end,
          rw (e, other, trim_right)
              (ap (λ (x : Str). c ∷ x) (split ∙ ap (λ (x : Str). x ++ end) e)),
          all,
        )
      ]
      | inr (d, r, e) ↦ (
        end,
        rw (e, trim_right) (ap (λ (x : Str). c ∷ x) (split ∙ ap (λ (x : Str). x ++ end) e)),
        all,
      )
    ]

pub IsBelow-build_upstream_url :
    (base tail query : Str) → IsBelow base (build_upstream_url base tail query)
unfolding build_upstream_url ◌==◌
IsBelow-build_upstream_url base [] [] =
    let (slashes, split, all) = trim_right_split b'/' base in
    (
      trim_right b'/' base,
      slashes,
      [],
      split,
      all,
      sym (append-nil (trim_right b'/' base)),
      inl refl,
    )
IsBelow-build_upstream_url base [] (c ∷ query) =
    let (slashes, split, all) = trim_right_split b'/' base in
    (
      trim_right b'/' base,
      slashes,
      str "?" ++ c ∷ query,
      split,
      all,
      append_assoc (trim_right b'/' base) (str "?") (c ∷ query),
      inr (inr (c ∷ query, refl)),
    )
IsBelow-build_upstream_url base (d ∷ tail) [] =
    let (slashes, split, all) = trim_right_split b'/' base in
    (
      trim_right b'/' base,
      slashes,
      str "/" ++ trim_left b'/' (d ∷ tail),
      split,
      all,
      append_assoc (trim_right b'/' base) (str "/") (trim_left b'/' (d ∷ tail)),
      inr (inl (trim_left b'/' (d ∷ tail), refl)),
    )
IsBelow-build_upstream_url base (d ∷ tail) (c ∷ query) =
    let (slashes, split, all) = trim_right_split b'/' base in
    (
      trim_right b'/' base,
      slashes,
      str "/" ++ (trim_left b'/' (d ∷ tail) ++ (str "?" ++ c ∷ query)),
      split,
      all,
      (append_assoc (trim_right b'/' base ++ str "/" ++ trim_left b'/' (d ∷ tail)) (str "?")
            (c ∷ query)
          ∙ append_assoc (trim_right b'/' base ++ str "/") (trim_left b'/' (d ∷ tail))
              (str "?" ++ c ∷ query)
          ∙ append_assoc (trim_right b'/' base) (str "/")
              (trim_left b'/' (d ∷ tail) ++ (str "?" ++ c ∷ query))),
      inr (inl (trim_left b'/' (d ∷ tail) ++ (str "?" ++ c ∷ query), refl)),
    )
