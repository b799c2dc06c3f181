-- ===== src/Log/Tests.antt =====
-- The log of pkg/api, on short slices.
use mezzium.Base.{◌≡◌, refl}
use mezzium.Text.{str}
use mezzium.Log.{overwrite, after_log}

overwritten : overwrite 3 (str "...") (str "abcdefgh") ≡ str "abc...gh"
unfolding overwrite
overwritten = refl

untouched : after_log 100 (str "abc") ≡ str "abc"
unfolding after_log
untouched = refl
