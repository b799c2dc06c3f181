-- ===== src/Health/Timeouts.antt =====
-- perNodeTimeout and defaultTimeoutFor of pkg/health/check.go.
use mezzium.Base.{◌≡◌, refl, ap, inl, inr, false, none, arith, Bool-cases}
use mezzium.Base.Int.{ℤ, pos, ◌<ℤ◌, leb_ℤ, ◌*ℤ◌, wrap64}
use mezzium.Text.{Str, ◌==◌, to_lower}
use mezzium.Dict.{lookup}
use mezzium.Registry.{Registry, timeout_ms_of}
use mezzium.Health.{default_timeout_for, per_node_timeout}

default_timeout_for-pos : (protocol : Str) → pos 0 <ℤ default_timeout_for protocol
unfolding default_timeout_for
default_timeout_for-pos protocol = ground arith

-- A check always has time: its timeout is never zero or negative, whatever is configured, also
-- where the product overflows.
pub per_node_timeout-pos : (r : Registry) (protocol : Str) → pos 0 <ℤ per_node_timeout r protocol
unfolding per_node_timeout
per_node_timeout-pos r protocol =
    elim (Bool-cases (leb_ℤ (wrap64 (timeout_ms_of r protocol *ℤ pos 1_000_000)) (pos 0))) [
      | inl e ↦ rw e (default_timeout_for-pos protocol)
      | inr e ↦ rw e (positive (wrap64 (timeout_ms_of r protocol *ℤ pos 1_000_000)) e)
    ]
  where
    positive : (t : ℤ) → leb_ℤ t (pos 0) ≡ false → pos 0 <ℤ t
    positive t e = ground arith

-- The timeout is read under the protocol, while the registry's keys are network names: where no
-- network is named like the protocol, the timeouts configured for its networks change nothing.
pub per_node_timeout_unnamed :
    (r : Registry) (protocol : Str)
    → lookup protocol r ≡ none
    → per_node_timeout r protocol ≡ default_timeout_for protocol
unfolding per_node_timeout timeout_ms_of ◌==◌ wrap64 to_lower ◌*ℤ◌
per_node_timeout_unnamed r protocol h =
    let silent : timeout_ms_of r protocol ≡ pos 0 = rw (h, timeout_ms_of) refl in
    rw (ap (λ (t : ℤ). wrap64 (t *ℤ pos 1_000_000)) silent) refl
