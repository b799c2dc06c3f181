-- ===== src/Peers.antt =====
-- pkg/peers: the peers of the cluster, by their ids, each with a count of failures in a row.
pub mod Failures
pub mod Keyed
mod Tests
use mezzium.Base.{[], Bool, true, false, Option, none, some, List, if◌then◌else◌}
use mezzium.Base.Int.{ℤ, pos, ◌+ℤ◌, wrap64, leb_ℤ}
use mezzium.Text.{Str}
use mezzium.Dict.{Dict, lookup, insert, delete, values}

pub record Peer : Type 0 where
  pub id : Str
  pub addr : Str
  pub failures : ℤ

abbrev pub Store : Type 0
Store = Dict Peer

unfoldable pub new_store : Store
new_store = []

unfoldable pub add : Peer → Store → Store
add p s = insert p.id p s

unfoldable pub remove : Str → Store → Store
remove id s = delete id s

unfoldable pub list : Store → List Peer
list s = values s

unfoldable pub on_failure : Str → Store → Store
on_failure id s = elim (lookup id s) [
  | none ↦ s
  | some p ↦
      let failures = wrap64 (p.failures +ℤ pos 1) in
      if leb_ℤ (pos 2) failures then delete id s else insert id (record p { failures = failures }) s
]

unfoldable pub on_success : Str → Store → Store
on_success id s = elim (lookup id s) [
  | none ↦ s
  | some p ↦ insert id (record p { failures = pos 0 }) s
]

unfoldable pub exists : Store → Str → Bool
exists s id = elim (lookup id s) [ none ↦ false | some p ↦ true ]
