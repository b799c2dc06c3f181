-- ===== src/Peers/Tests.antt =====
-- Runs of the peer store.
use mezzium.Text.{◌==◌}
use mezzium.Base.{◌≡◌, refl, some, [], ◌∷◌}
use mezzium.Base.Int.{pos}
use mezzium.Text.{str, ◌==◌}
use mezzium.Dict.{lookup}
use mezzium.Peers.{Peer, Store, new_store, add, on_failure}
use mezzium.Peers.Keyed.{IsKeyed, Reach-IsKeyed, adds, fails, here, next}

abbrev ann : Peer
ann = record { id = str "ann"; addr = str "10.0.0.1"; failures = pos 0 }

abbrev store : Store
store = (str "ann", ann) ∷ []

lookup-ann : lookup (str "ann") store ≡ some ann
unfolding lookup ◌==◌
lookup-ann = refl

Reach-IsKeyed_example : IsKeyed (on_failure (str "ann") (add ann new_store))
Reach-IsKeyed_example = Reach-IsKeyed (next (next here (adds ann)) (fails (str "ann")))
