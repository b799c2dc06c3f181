-- ===== src/Oracle/Written.antt =====
-- What the oracles of eth_gas.go, bsc_gas.go, arbitrum_gas.go and optimism_gas.go compute, each as it
-- is written.
use mezzium.Base.{ℕ, ◌≡◌, refl, sym, ap, ◌∙◌, subst, inl, inr, Option, some, [], Option-cases}
use mezzium.Base.Int.{ℤ, pos, ltb_ℤ_iff, ◌<ℤ◌}
use mezzium.Text.{Str}
use mathlib.Core.Option
use mezzium.Registry.{NetworkState}
use mezzium.Networks.{GasConfig}
use mezzium.Registry.Pick.{NodeWithPing}
use mezzium.Gas.{Kind, polygon, eth, bsc, arbitrum, optimism}
use mezzium.Oracle.{GasPrices, Oracle, new_gas_oracle, compute_from_rpc, fees_of, gas_of, bsc_fees}
use mezzium.Oracle.Evm.{Eip1559, RpcRequest, Decoders, compute}
use mezzium.Oracle.Tiers.{IsFee, ArePrices, compute_from_rpc-ArePrices}
use mezzium.Oracle.Eth
use mezzium.Oracle.Bsc
use mezzium.Oracle.Arbitrum
use mezzium.Oracle.Optimism

-- What counts of an oracle for its prices.
abbrev pub asking : Kind → ℤ → Oracle
asking k floor = record { kind = k; min_prio_gwei = floor; external_url = []; ttl = pos 0 }

-- There is a result, and its tiers are those of the fees.
abbrev pub Prices : {R : Type 0} → (R → GasPrices) → Kind → ℤ → Eip1559 → Option R → Type 0
Prices {R = R} as_prices k floor e result =
    (r : R) × (result ≡ some r) × ArePrices (asking k floor) e (as_prices r)

module _ (decode : Decoders) (post : RpcRequest → Option (ℕ × Str)) (st : NetworkState)
    (c : GasConfig) (node : NodeWithPing) (e : Eip1559) where
  new_gas_oracle_floor :
      (k : Kind)
      → st.gas ≡ some c
      → pos 0 <ℤ c.min_priority_gwei
      → (new_gas_oracle k (some st)).min_prio_gwei ≡ c.min_priority_gwei
  unfolding new_gas_oracle gas_of
  new_gas_oracle_floor k g more =
      rw (g, new_gas_oracle) (rw ((ltb_ℤ_iff (pos 0) c.min_priority_gwei).1 more) refl)

  new_gas_oracle_kind : (k : Kind) → (new_gas_oracle k (some st)).kind ≡ k
  unfolding new_gas_oracle gas_of
  new_gas_oracle_kind k = elim (Option-cases st.gas) [
    | inl none_g ↦ rw (none_g, new_gas_oracle) refl
    | inr (g, some_g) ↦ rw (some_g, new_gas_oracle) refl
  ]

  Prices-of :
      {O R : Type 0} (k : Kind) (as_oracle : O → Oracle) (as_prices : R → GasPrices) (o : O)
      (result : Option R)
      → as_oracle o ≡ new_gas_oracle k (some st)
      → Option.map as_prices result ≡ compute_from_rpc decode post (as_oracle o) node
      → fees_of decode post (as_oracle o) node ≡ some e
      → st.gas ≡ some c
      → pos 0 <ℤ c.min_priority_gwei
      → IsFee c.min_priority_gwei
      → IsFee e.base_fee_gwei
      → IsFee e.priority_fee_gwei
      → Prices as_prices k c.min_priority_gwei e result
  Prices-of k as_oracle as_prices o result made same fees g more hm hb hp =
      let floor = ap (λ (x : Oracle). x.min_prio_gwei) made ∙ new_gas_oracle_floor k g more in
      let kind = ap (λ (x : Oracle). x.kind) made ∙ new_gas_oracle_kind k in
      let (p, ran, are) =
        compute_from_rpc-ArePrices decode post (as_oracle o) node e fees
          (subst IsFee (sym floor) hm) hb hp in
      let (r, found, shown) = (Option.map-eq-some_iff _ _).0 (same ∙ ran) in
      (
        r,
        found,
        subst (ArePrices (asking k c.min_priority_gwei) e) (sym shown) (
            subst (λ f. ArePrices (asking k f) e p) floor
              (subst (λ q. ArePrices (asking q (as_oracle o).min_prio_gwei) e p) kind are)),
      )

  fees-compute :
      (o : Oracle) (k : Kind)
      → o.kind ≡ k
      → pos 0 <ℤ e.base_fee_gwei
      → compute decode post node ≡ some e
      → fees_of decode post o node ≡ some e
  unfolding fees_of bsc_fees
  fees-compute o polygon ok more h = rw (ok, fees_of) h
  fees-compute o eth ok more h = rw (ok, fees_of) h
  fees-compute o arbitrum ok more h = rw (ok, fees_of) h
  fees-compute o optimism ok more h = rw (ok, fees_of) h
  fees-compute o bsc ok more h =
      rw (ok, fees_of) (rw (h, bsc_fees) (rw ((ltb_ℤ_iff (pos 0) e.base_fee_gwei).1 more) refl))

  -- If a network is configured with a minimum above 0 and below 2^61 gwei, and the fees that a node
  -- answers are in that range too, the base fee above 0, then each of the four oracles, as its
  -- constructor makes it for the network, computes prices: a tier's priority fee is the greater of
  -- the node's and the configured minimum, plus 10, 5 and 0 gwei on Ethereum and 5, 2 and 0 on the
  -- others; its maximal fee and its gas price are the exact sum of that and the base fee; the base
  -- fee and the block are the node's.
  pub written_oracles-Prices :
      st.gas ≡ some c
      → pos 0 <ℤ c.min_priority_gwei
      → IsFee c.min_priority_gwei
      → compute decode post node ≡ some e
      → pos 0 <ℤ e.base_fee_gwei
      → IsFee e.base_fee_gwei
      → IsFee e.priority_fee_gwei
      → Prices Eth.as_prices eth c.min_priority_gwei e
          (Eth.eth_compute_from_rpc decode post (Eth.new_eth_gas_oracle (some st)) node)
        × Prices Bsc.as_prices bsc c.min_priority_gwei e
            (Bsc.bsc_compute_from_rpc decode post (Bsc.new_bsc_gas_oracle (some st)) node)
        × Prices Arbitrum.as_prices arbitrum c.min_priority_gwei e (
            Arbitrum.arbitrum_compute_from_rpc decode post
              (Arbitrum.new_arbitrum_gas_oracle (some st))
              node)
        × Prices Optimism.as_prices optimism c.min_priority_gwei e (
            Optimism.optimism_compute_from_rpc decode post
              (Optimism.new_optimism_gas_oracle (some st))
              node)
  written_oracles-Prices g more hm h base hb hp = (
    Prices-of eth Eth.as_oracle Eth.as_prices (Eth.new_eth_gas_oracle (some st)) _
        (Eth.new_eth_gas_oracle_same (some st)) (Eth.eth_compute_from_rpc_same decode post _ node)
        (fees-compute _ eth refl base h) g more hm hb hp,
    Prices-of bsc Bsc.as_oracle Bsc.as_prices (Bsc.new_bsc_gas_oracle (some st)) _
        (Bsc.new_bsc_gas_oracle_same (some st)) (Bsc.bsc_compute_from_rpc_same decode post _ node)
        (fees-compute _ bsc refl base h) g more hm hb hp,
    Prices-of arbitrum Arbitrum.as_oracle Arbitrum.as_prices
        (Arbitrum.new_arbitrum_gas_oracle (some st)) _
        (Arbitrum.new_arbitrum_gas_oracle_same (some st))
        (Arbitrum.arbitrum_compute_from_rpc_same decode post _ node)
        (fees-compute _ arbitrum refl base h) g more hm hb hp,
    Prices-of optimism Optimism.as_oracle Optimism.as_prices
        (Optimism.new_optimism_gas_oracle (some st)) _
        (Optimism.new_optimism_gas_oracle_same (some st))
        (Optimism.optimism_compute_from_rpc_same decode post _ node)
        (fees-compute _ optimism refl base h) g more hm hb hp,
  )
