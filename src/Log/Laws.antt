-- ===== src/Log/Laws.antt =====
-- What the log of pkg/api leaves of the bytes.
use mezzium.Base.{
  ℕ, zero, suc, ◌+◌, ◌≤◌, ◌<◌, ◌≡◌, refl, ap, ◌∙◌, [], ◌∷◌, arith, length, get_elem?,
}
use mezzium.Text.{Str}
use mezzium.Log.{log_body_limit, truncated, overwrite, log_safe, after_log}

length-overwrite : (n : ℕ) (mark s : Str) → length (overwrite n mark s) ≡ length s
unfolding overwrite
length-overwrite n mark [] = refl
length-overwrite zero [] (c ∷ s) = refl
length-overwrite zero (m ∷ mark) (c ∷ s) = ap (λ k. suc k) (length-overwrite zero mark s)
length-overwrite (suc n) mark (c ∷ s) = ap (λ k. suc k) (length-overwrite n mark s)

overwrite_before :
    (n i : ℕ) (mark s : Str) → i < n → get_elem? (overwrite n mark s) i ≡ get_elem? s i
unfolding overwrite
overwrite_before n i mark [] h = refl
overwrite_before zero i mark (c ∷ s) h = absurd (omega (arith, h))
overwrite_before (suc n) zero mark (c ∷ s) h = refl
overwrite_before (suc n) (suc i) mark (c ∷ s) h = overwrite_before n i mark s (omega (arith, h))

overwrite_mark :
    (j : ℕ) (mark s : Str)
    → length mark ≤ length s
    → j < length mark
    → get_elem? (overwrite zero mark s) j ≡ get_elem? mark j
unfolding overwrite
overwrite_mark j [] s h k = absurd (omega (arith, k))
overwrite_mark j (m ∷ mark) [] h k = absurd (omega (arith, h))
overwrite_mark zero (m ∷ mark) (c ∷ s) h k = refl
overwrite_mark (suc j) (m ∷ mark) (c ∷ s) h k =
    overwrite_mark j mark s (omega (arith, h)) (omega (arith, k))

overwrite_at :
    (n j : ℕ) (mark s : Str)
    → n + length mark ≤ length s
    → j < length mark
    → get_elem? (overwrite n mark s) (n + j) ≡ get_elem? mark j
unfolding overwrite
overwrite_at zero j mark s h k =
    let same : 0 + j ≡ j = omega arith in
    ap (get_elem? (overwrite zero mark s)) same ∙ overwrite_mark j mark s (omega (arith, h)) k
overwrite_at (suc n) j mark [] h k = absurd (omega (arith, h))
overwrite_at (suc n) j mark (c ∷ s) h k =
    let same : suc n + j ≡ suc (n + j) = omega arith in
    ap (get_elem? (c ∷ overwrite n mark s)) same ∙ overwrite_at n j mark s (omega (arith, h)) k

-- The bytes 4096 and on are those of "... [truncated]", the ones before are as they were.
abbrev pub IsGarbled : Str → Str → Type 0
IsGarbled old new =
    (length new ≡ length old)
    × ((i : ℕ) → i < log_body_limit → get_elem? new i ≡ get_elem? old i)
    × ((j : ℕ) → j < length truncated → get_elem? new (log_body_limit + j) ≡ get_elem? truncated j)

abbrev pub IsLogged : Str → Str → Type 0
IsLogged old new =
    (length old ≤ log_body_limit → new ≡ old)
    × (log_body_limit + length truncated ≤ length old → IsGarbled old new)

pub after_log-IsLogged : (room : ℕ) (b : Str) → IsLogged b (after_log room b)
unfolding after_log log_safe
after_log-IsLogged room b = (
  λ short. ground (arith, short),
  λ long.
      let e : after_log room b ≡ overwrite log_body_limit truncated b = ground (arith, long) in
      rw e (
        length-overwrite log_body_limit truncated b,
        λ i h. overwrite_before log_body_limit i truncated b h,
        λ j h. overwrite_at log_body_limit j truncated b long h,
      ),
)
