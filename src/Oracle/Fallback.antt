-- ===== src/Oracle/Fallback.antt =====
-- BscGasOracle.ComputeFromRPC where eth_feeHistory is of no use: the price of eth_gasPrice decides.
use mezzium.Base.{
  ℕ, ◌≡◌, refl, sym, ap, ◌∙◌, subst, ◌⊎◌, inl, inr, false, Option, none, some, arith, Bool-cases,
}
use mezzium.Base.Int.{
  ℤ, pos, ◌≤ℤ◌, ltb_ℤ, ◌+ℤ◌, ◌-ℤ◌, +ℤ_parts, -ℤ_parts, eq_of_parts, wrap64, IsInt64, wrap64_id,
}
use mezzium.Registry.Pick.{NodeWithPing}
use mezzium.Gas.{bsc}
use mezzium.Oracle.{
  Str, GasPrices, Oracle, fees_of, compute_from_rpc, bsc_fallback, bsc_fees, bsc_observed_prio,
  at_least,
}
use mezzium.Oracle.Requests.{bsc_eth_gas_price_gwei, bsc_priority_fee}
use mezzium.Oracle.Evm.{Eip1559, Decoders, RpcRequest, compute, or_zero}
use mezzium.Oracle.Tiers.{max_ℤ-IsFee, IsFee, max_ℤ, compute_from_rpc-ArePrices}

bsc_observed_prio-max_ℤ :
    (floor : ℤ) (o : Option ℤ)
    → IsFee floor
    → IsFee (or_zero o)
    → bsc_observed_prio floor o ≡ max_ℤ floor (or_zero o)
unfolding bsc_observed_prio at_least or_zero
bsc_observed_prio-max_ℤ floor none hf ho = ground (arith, eq_of_parts floor (pos 0))
bsc_observed_prio-max_ℤ floor (some pr) hf ho = ground (arith, eq_of_parts floor pr)

max_ℤ_again : (a b : ℤ) → max_ℤ a (max_ℤ a b) ≡ max_ℤ a b
max_ℤ_again a b = ground arith

-- The node does not give a base fee that is above zero.
abbrev pub HasNoBase : Option Eip1559 → Type 0
HasNoBase o = (o ≡ none) ⊎ ((e : Eip1559) × (o ≡ some e) × (e.base_fee_gwei ≤ℤ pos 0))

module _ (decode : Decoders) (post : RpcRequest → Option (ℕ × Str)) (o : Oracle)
    (node : NodeWithPing) where
  bsc_fees-HasNoBase :
      HasNoBase (compute decode post node)
      → bsc_fees decode post o node ≡ bsc_fallback decode post o node
  unfolding bsc_fees
  bsc_fees-HasNoBase (inl e) = rw (e, bsc_fees) refl
  bsc_fees-HasNoBase (inr (e, eq, low)) =
      let f : ltb_ℤ (pos 0) e.base_fee_gwei ≡ false = ground arith in rw (eq, bsc_fees) (rw f refl)

  gas_price_again :
      (gp prio : ℤ)
      → IsFee gp
      → IsFee prio
      → IsFee (at_least (pos 0) (wrap64 (gp -ℤ prio)))
        × (at_least (pos 0) (wrap64 (gp -ℤ prio)) +ℤ (prio +ℤ pos 0) ≡ max_ℤ gp prio)
  unfolding at_least
  gas_price_again gp prio hg hp =
      let i : IsInt64 (gp -ℤ prio) = ground (arith, -ℤ_parts gp prio) in
      rw (wrap64_id (gp -ℤ prio) i) (elim (Bool-cases (ltb_ℤ (gp -ℤ prio) (pos 0))) [
        | inl e ↦ rw e (
          ground (arith, -ℤ_parts gp prio),
          eq_of_parts (pos 0 +ℤ (prio +ℤ pos 0)) (max_ℤ gp prio) (
              ground
                (arith, -ℤ_parts gp prio, +ℤ_parts prio (pos 0), +ℤ_parts (pos 0) (prio +ℤ pos 0))),
        )
        | inr e ↦ rw e (
          ground (arith, -ℤ_parts gp prio),
          eq_of_parts (gp -ℤ prio +ℤ (prio +ℤ pos 0)) (max_ℤ gp prio) (
              ground (
                arith,
                -ℤ_parts gp prio,
                +ℤ_parts prio (pos 0),
                +ℤ_parts (gp -ℤ prio) (prio +ℤ pos 0),
              )),
        )
      ])

  bsc_fallback_fees :
      IsFee o.min_prio_gwei
      → IsFee (or_zero (bsc_priority_fee decode post node))
      → let pr = max_ℤ o.min_prio_gwei (or_zero (bsc_priority_fee decode post node)) in
        let gp = or_zero (bsc_eth_gas_price_gwei decode post node) in
        ((bsc_fallback decode post o node).base_fee_gwei ≡ at_least (pos 0) (wrap64 (gp -ℤ pr)))
        × ((bsc_fallback decode post o node).priority_fee_gwei ≡ pr)
  unfolding bsc_fallback
  bsc_fallback_fees hm hp =
      rw (bsc_observed_prio-max_ℤ o.min_prio_gwei (bsc_priority_fee decode post node) hm hp)
        (refl, refl)

  fees_of-bsc :
      o.kind ≡ bsc
      → HasNoBase (compute decode post node)
      → fees_of decode post o node ≡ some (bsc_fallback decode post o node)
  unfolding fees_of
  fees_of-bsc k no_base = rw (k, fees_of) (rw (bsc_fees-HasNoBase no_base) refl)

  -- Where a BSC node gives no base fee above zero, the slow tier's gas price is the greater of what
  -- eth_gasPrice says (0 if that fails) and the priority fee, which is the greater of the node's (0
  -- if that fails) and the configured minimum; the node's two prices are taken to be below 2^61.
  pub bsc_slow-gas_price :
      o.kind ≡ bsc
      → HasNoBase (compute decode post node)
      → IsFee o.min_prio_gwei
      → IsFee (or_zero (bsc_eth_gas_price_gwei decode post node))
      → IsFee (or_zero (bsc_priority_fee decode post node))
      → (g : GasPrices) × (compute_from_rpc decode post o node ≡ some g)
        × (g.slow.gas_price
            ≡ max_ℤ
                (or_zero (bsc_eth_gas_price_gwei decode post node))
                (max_ℤ o.min_prio_gwei (or_zero (bsc_priority_fee decode post node))))
  bsc_slow-gas_price k no_base hm hg hp =
      let gp = or_zero (bsc_eth_gas_price_gwei decode post node) in
      let pr = max_ℤ o.min_prio_gwei (or_zero (bsc_priority_fee decode post node)) in
      let e = bsc_fallback decode post o node in
      let (base, prio) = bsc_fallback_fees hm hp in
      let (fee, _, _) =
        max_ℤ-IsFee o.min_prio_gwei (or_zero (bsc_priority_fee decode post node)) hm hp in
      let (room, sum) = gas_price_again gp pr hg fee in
      let (g, computed, prices) =
        compute_from_rpc-ArePrices decode post o node e (fees_of-bsc k no_base) hm
          (subst IsFee (sym base) room) (subst IsFee (sym prio) fee) in
      let again : max_ℤ o.min_prio_gwei e.priority_fee_gwei ≡ pr =
        ap (max_ℤ o.min_prio_gwei) prio
        ∙ max_ℤ_again o.min_prio_gwei (or_zero (bsc_priority_fee decode post node)) in
      let (_, _, slow, _, _) = prices in
      let (_, _, price) = slow in (g, computed, price ∙ (rw (base, again) sum))
