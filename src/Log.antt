-- ===== src/Log.antt =====
-- pkg/api/log_utils.go: what LogSafe does to the bytes that it is given. It appends to a part of
-- them, and append writes into the array behind a slice as far as there is room. A slice that
-- io.ReadAll returned is its bytes, with the room that is left in the array behind them.
pub mod Laws
mod Tests
use mezzium.Base.{
  ℕ, zero, suc, ◌+◌, ◌-◌, ◌*◌, ◌/◌, ◌%◌, ◌^◌, ◌≤◌, ◌<◌, min, ◌≡◌, refl, sym, ap, ◌∙◌, subst, ◌≢◌,
  ◌↔◌, ◌⊎◌, inl, inr, Bool, true, false, not, ◌&&◌, ◌||◌, Option, none, some, List, [], ◌∷◌, ◌++◌,
  map, arith, ltb, leb, eqb, if◌then◌else◌, ltb_iff, leb_iff, eqb_iff, Bool-cases, Option-cases,
  length, get_elem?, keep, length-append, length-keep-le, keep_idem, In, In-append_left,
  In-append_right, In-keep, In-of_keep, All, All-append, All-keep, All_at, All_of,
}
use mezzium.Text.{
  Str, str, ◌==◌, str_lt, lower_byte, to_lower, has_prefix, contains, trim_left, trim_right, trim,
  strip_prefix, trim_prefix, split, join,
}
use mezzium.Text.Laws.{eq_iff, eq_refl, eq_of_test}

abbrev pub log_body_limit : ℕ
log_body_limit = 4096

abbrev pub truncated : Str
truncated = str "... [truncated]"

-- b[:n]
unfoldable pub take : ℕ → Str → Str
take n [] = []
take zero (c ∷ s) = []
take (suc n) (c ∷ s) = c ∷ take n s

-- What append(b[:n], mark...) leaves in the bytes of b, where the array has room for it.
unfoldable pub overwrite : ℕ → Str → Str → Str
overwrite n mark [] = []
overwrite zero [] (c ∷ s) = c ∷ s
overwrite zero (m ∷ mark) (c ∷ s) = m ∷ overwrite zero mark s
overwrite (suc n) mark (c ∷ s) = c ∷ overwrite n mark s

-- LogSafe: what is logged, and what is in b afterwards.
unfoldable pub log_safe : (room : ℕ) → Str → Str × Str
unfolding take overwrite
log_safe room b =
    if ltb log_body_limit (length b)
    then (
      take log_body_limit b ++ truncated,
      if leb (log_body_limit + length truncated) (length b + room)
          then overwrite log_body_limit truncated b
          else b,
    )
    else (b, b)

-- The bytes after LogRequest or LogResponse.
unfoldable pub after_log : (room : ℕ) → Str → Str
unfolding log_safe
after_log room b = (log_safe room b).1
