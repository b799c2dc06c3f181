-- ===== src/Oracle/Tiers.antt =====
-- The tiers that the oracles compute, within the range where int64 does not overflow.
use mezzium.Base.{ℕ, ◌^◌, ◌≤◌, ◌≡◌, refl, false, Option, some, arith, if◌then◌else◌}
use mezzium.Base.Int.{ℤ, pos, ◌≤ℤ◌, ◌<ℤ◌, ltb_ℤ, ◌+ℤ◌, +ℤ_parts, IsInt64, wrap64_id}
use mezzium.Registry.Pick.{NodeWithPing}
use mezzium.Gas.{Kind, polygon, eth, arbitrum, optimism, bsc}
use mezzium.Oracle.{
  Hints, at_least, standard_delta_gwei, Str, fast_delta_gwei, slow_delta_gwei, Tier, GasPrices,
  Oracle, fees_of, build_tier, prices_of, compute_from_rpc, hints_of,
}
use mezzium.Oracle.Evm.{Eip1559, Decoders, RpcRequest}

-- A price that leaves room for the sums.
abbrev pub IsFee : ℤ → Type 0
IsFee x = (pos 0 ≤ℤ x) × (x <ℤ pos (2 ^ 61))

-- The greater of two.
abbrev pub max_ℤ : ℤ → ℤ → ℤ
max_ℤ a b = if ltb_ℤ b a then a else b

-- A tier whose priority fee is given, and whose other fields are the exact sum.
abbrev pub IsTier : ℤ → ℤ → Tier → Type 0
IsTier base prio t =
    (t.max_priority_fee ≡ prio) × (t.max_fee ≡ base +ℤ prio) × (t.gas_price ≡ base +ℤ prio)

at_least-max_ℤ : (low x : ℤ) → at_least low x ≡ max_ℤ low x
unfolding at_least
at_least-max_ℤ low x = ground arith

build_tier-IsTier :
    (floor base prio : ℤ) (delta : ℕ)
    → IsFee floor
    → IsFee base
    → IsFee prio
    → floor ≤ℤ prio
    → delta ≤ 10
    → IsTier base (prio +ℤ pos delta) (build_tier floor base prio (pos delta))
unfolding build_tier at_least
build_tier-IsTier floor base prio delta hm hb hp hl hd =
    let s : IsInt64 (prio +ℤ pos delta) = ground (arith, +ℤ_parts prio (pos delta)) in
    let low : ltb_ℤ (prio +ℤ pos delta) floor ≡ false = ground (arith, +ℤ_parts prio (pos delta)) in
    let m : IsInt64 (base +ℤ (prio +ℤ pos delta)) =
      ground (arith, +ℤ_parts prio (pos delta), +ℤ_parts base (prio +ℤ pos delta)) in
    rw (wrap64_id (prio +ℤ pos delta) s)
      (rw low (rw (wrap64_id (base +ℤ (prio +ℤ pos delta)) m) (refl, refl, refl)))

pub max_ℤ-IsFee :
    (a b : ℤ) → IsFee a → IsFee b → IsFee (max_ℤ a b) × (a ≤ℤ max_ℤ a b) × (b ≤ℤ max_ℤ a b)
max_ℤ-IsFee a b ha hb = ground arith

-- The increments of a kind.
abbrev pub increments : Kind → ℕ × ℕ
increments polygon = (10, 5)
increments eth = (10, 5)
increments bsc = (5, 2)
increments arbitrum = (5, 2)
increments optimism = (5, 2)

-- The prices of the fees of a node: each tier has the greater of the node's priority fee and the
-- configured minimum with the kind's increment on top, and the exact sum with the base fee.
abbrev pub ArePrices : Oracle → Eip1559 → GasPrices → Type 0
ArePrices o e g =
    let prio = max_ℤ o.min_prio_gwei e.priority_fee_gwei in
    IsTier e.base_fee_gwei (prio +ℤ pos (increments o.kind).0) g.fast
    × IsTier e.base_fee_gwei (prio +ℤ pos (increments o.kind).1) g.standard
    × IsTier e.base_fee_gwei (prio +ℤ pos 0) g.slow
    × (g.estimated_base_fee ≡ e.base_fee_gwei)
    × (g.block_number ≡ e.block_number)

increments-fast : (k : Kind) → (fast_delta_gwei k ≡ pos (increments k).0) × ((increments k).0 ≤ 10)
unfolding fast_delta_gwei
increments-fast polygon = (refl, omega arith)
increments-fast eth = (refl, omega arith)
increments-fast bsc = (refl, omega arith)
increments-fast arbitrum = (refl, omega arith)
increments-fast optimism = (refl, omega arith)

increments-standard :
    (k : Kind) → (standard_delta_gwei k ≡ pos (increments k).1) × ((increments k).1 ≤ 10)
unfolding standard_delta_gwei
increments-standard polygon = (refl, omega arith)
increments-standard eth = (refl, omega arith)
increments-standard bsc = (refl, omega arith)
increments-standard arbitrum = (refl, omega arith)
increments-standard optimism = (refl, omega arith)

prices_of-ArePrices :
    (o : Oracle) (e : Eip1559) (h : Hints)
    → IsFee o.min_prio_gwei
    → IsFee e.base_fee_gwei
    → IsFee e.priority_fee_gwei
    → ArePrices o e (prices_of o e h)
unfolding prices_of slow_delta_gwei
prices_of-ArePrices o e h hm hb hp =
    let prio = max_ℤ o.min_prio_gwei e.priority_fee_gwei in
    let (f, le, _) = max_ℤ-IsFee o.min_prio_gwei e.priority_fee_gwei hm hp in
    let tier = λ (d : ℕ) (k : d ≤ 10).
      build_tier-IsTier o.min_prio_gwei e.base_fee_gwei prio d hm hb f le k in
    let (ef, bf) = increments-fast o.kind in
    let (es, bs) = increments-standard o.kind in
    rw (at_least-max_ℤ o.min_prio_gwei e.priority_fee_gwei, ef, es)
      (tier _ bf, tier _ bs, tier 0 (omega arith), refl, refl)

module _ (decode : Decoders) (post : RpcRequest → Option (ℕ × Str)) where
  -- Of fees below 2^61 gwei, ComputeFromRPC of each oracle makes prices without an overflow: a tier's
  -- priority fee is the greater of the node's and the configured minimum, plus the tier's increment
  -- (10, 5 and 0 gwei on Polygon and Ethereum, 5, 2 and 0 elsewhere), its maximal fee and its gas
  -- price are the sum of that and the base fee, and the base fee and the block are the node's.
  pub compute_from_rpc-ArePrices :
      (o : Oracle) (node : NodeWithPing) (e : Eip1559)
      → fees_of decode post o node ≡ some e
      → IsFee o.min_prio_gwei
      → IsFee e.base_fee_gwei
      → IsFee e.priority_fee_gwei
      → (g : GasPrices) × (compute_from_rpc decode post o node ≡ some g) × ArePrices o e g
  unfolding compute_from_rpc
  compute_from_rpc-ArePrices o node e h hm hb hp =
      let hints = hints_of decode post o.kind node in
      (prices_of o e hints, rw (h, compute_from_rpc) refl, prices_of-ArePrices o e hints hm hb hp)
