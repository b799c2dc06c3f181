-- ===== src/Oracle/Serving.antt =====
-- The gas endpoints of pkg/api/gas.go with the oracles of pkg/oracle behind them.
use mezzium.Base.{
  subst, ℕ, ◌≡◌, refl, ◌≢◌, ◌⊎◌, inl, inr, Option, none, some, List, [], ◌∷◌, ◌++◌, arith,
  Bool-cases, Option-cases,
}
use mezzium.Base.Int.{ℤ, pos, negsuc, ◌≤ℤ◌, ◌<ℤ◌, ltb_ℤ, ◌+ℤ◌, ◌*ℤ◌, wrap64}
use mezzium.Text.{Str, str, ◌==◌}
use mezzium.Registry.{Registry, NetworkState, best_of}
use mezzium.Registry.Pick.{NodeWithPing}
use mezzium.Gas.{
  polygon, eth, bsc, arbitrum, optimism, Kind, json, Slot, unexpired, accepted, first_computed, ask,
  filled, init_once, serve_slot,
}
use mezzium.Networks.{GasConfig}
use mezzium.Oracle.{
  GasPrices, Oracle, new_gas_oracle, compute_from_rpc, gas_oracles, fetch_from_official, fees_of,
  gas_of, default_ttl,
}
use mezzium.Oracle.Evm.{Eip1559, Decoders, RpcRequest}
use mezzium.Oracle.Tiers.{IsFee, ArePrices, compute_from_rpc-ArePrices}

default_ttl-pos : (k : Kind) → pos 0 <ℤ default_ttl k
unfolding default_ttl
default_ttl-pos polygon = omega arith
default_ttl-pos eth = omega arith
default_ttl-pos bsc = omega arith
default_ttl-pos arbitrum = omega arith
default_ttl-pos optimism = omega arith

-- The configured TTL, in seconds.
abbrev pub ttl_seconds_of : Option GasConfig → ℤ
ttl_seconds_of none = pos 0
ttl_seconds_of (some c) = c.ttl_seconds

seconds-IsInt64 :
    (s : ℤ) → pos 0 <ℤ s → s ≤ℤ pos 9_223_372_036 → pos 0 <ℤ wrap64 (s *ℤ pos 1_000_000_000)
unfolding ◌*ℤ◌ wrap64
seconds-IsInt64 (pos n) h k = ground arith
seconds-IsInt64 (negsuc n) h k = ground arith

-- The TTL of an oracle is positive, so that prices are cached for a time, if the configured TTL is
-- one that fits into a time.Duration, at most 292 years, or is not positive, or there is none.
pub new_gas_oracle-ttl :
    (k : Kind) (cfg : Option NetworkState)
    → ttl_seconds_of (gas_of cfg) ≤ℤ pos 9_223_372_036
    → pos 0 <ℤ (new_gas_oracle k cfg).ttl
unfolding new_gas_oracle
new_gas_oracle-ttl k cfg fits = elim (Option-cases (gas_of cfg)) [
  | inl e ↦ rw (e, new_gas_oracle) (default_ttl-pos k)
  | inr (c, e) ↦ elim (Bool-cases (ltb_ℤ (pos 0) c.ttl_seconds)) [
    | inl t ↦
        rw (e, new_gas_oracle)
          (rw t (
            seconds-IsInt64 c.ttl_seconds (ground (arith, t))
              (subst (λ o. ttl_seconds_of o ≤ℤ pos 9_223_372_036) e fits)))
    | inr t ↦ rw (e, new_gas_oracle) (rw t (default_ttl-pos k))
  ]
]

Str-cases : (s : Str) → (s ≡ []) ⊎ ((c : ℕ) × (cs : Str) × (s ≡ c ∷ cs))
Str-cases [] = inl refl
Str-cases (c ∷ cs) = inr (c, cs, refl)

module _ (decode : Decoders) (post : RpcRequest → Option (ℕ × Str))
    (marshal : GasPrices → Str) where
  first_computed-get :
      (get get' : Str → Option (ℕ × Str)) (o : Oracle) (nodes : List NodeWithPing)
      → first_computed (gas_oracles decode post get marshal) o nodes
        ≡ first_computed (gas_oracles decode post get' marshal) o nodes
  unfolding first_computed gas_oracles
  first_computed-get get get' o [] = refl
  first_computed-get get get' o (n ∷ ns) = elim (Option-cases (compute_from_rpc decode post o n)) [
    | inl e ↦ rw (e, first_computed) (first_computed-get get get' o ns)
    | inr (g, e) ↦ rw (e, first_computed) refl
  ]

  ask-get :
      (get get' : Str → Option (ℕ × Str)) (o : Oracle) (nodes : List NodeWithPing) (message : Str)
      → o.external_url ≡ []
      → ask (gas_oracles decode post get marshal) o nodes message
        ≡ ask (gas_oracles decode post get' marshal) o nodes message
  unfolding ask gas_oracles fetch_from_official accepted ◌==◌
  ask-get get get' o [] message h = rw (h, ask) refl
  ask-get get get' o (n ∷ ns) message h =
      rw (h, ask) (rw (first_computed-get get get' o (n ∷ ns)) refl)

  init_once-get :
      (get get' : Str → Option (ℕ × Str)) (kind : Kind) (network : Str) (r : Registry)
      (o : Option Oracle)
      → init_once (gas_oracles decode post get' marshal) kind network r o
        ≡ init_once (gas_oracles decode post get marshal) kind network r o
  unfolding init_once gas_oracles
  init_once-get get get' kind network r none = refl
  init_once-get get get' kind network r (some o) = refl

  -- The JSON of a result is not empty.
  abbrev pub IsMarshal : Type 0
  IsMarshal = (g : GasPrices) → marshal g ≢ []

  ask-computed :
      (get : Str → Option (ℕ × Str)) (o : Oracle) (n : NodeWithPing) (ns : List NodeWithPing)
      (message : Str) (g : GasPrices)
      → IsMarshal
      → o.external_url ≡ []
      → compute_from_rpc decode post o n ≡ some g
      → ask (gas_oracles decode post get marshal) o (n ∷ ns) message
        ≡ (json 200 (marshal g), some (marshal g))
  unfolding ask gas_oracles fetch_from_official accepted ◌==◌ first_computed
  ask-computed get o n ns message g full h e = elim (Str-cases (marshal g)) [
    | inl m ↦ absurd (full g m)
    | inr (c, cs, m) ↦ rw (h, ask) (rw (e, first_computed) (rw m refl))
  ]

  module _ (get : Str → Option (ℕ × Str)) (r : Registry) (now later : ℤ) (kind : Kind)
      (network : Str) (s : Slot Oracle) where
    -- The oracle that serves a slot.
    abbrev pub serving_oracle : Oracle
    serving_oracle = init_once (gas_oracles decode post get marshal) kind network r s.oracle

    -- Where no external service is configured, none is asked: the answer and the cache are the same
    -- whatever the services of the outside would say.
    pub serve_slot-external_url :
        (get' : Str → Option (ℕ × Str))
        → serving_oracle.external_url ≡ []
        → serve_slot (gas_oracles decode post get marshal) r now later kind network s
          ≡ serve_slot (gas_oracles decode post get' marshal) r now later kind network s
    unfolding serve_slot filled gas_oracles
    serve_slot-external_url get' h =
        let o = serving_oracle in
        let asked =
          ask-get get get' o (best_of r network) (str "no " ++ network ++ str " nodes") h in
        elim (Option-cases (unexpired now s.cache)) [
          | inl e ↦
              rw (e, serve_slot) (rw (init_once-get get get' kind network r s.oracle, asked) refl)
          | inr (b, e) ↦
              rw (e, serve_slot) (rw (init_once-get get get' kind network r s.oracle) refl)
        ]

    -- A request that the cache cannot serve, of a network without an external service: if the best
    -- node gives its fees, below 2^61, the answer is the JSON of the prices made of them, and it is
    -- cached until the TTL is over.
    pub serve_slot-ArePrices :
        (n : NodeWithPing) (ns : List NodeWithPing) (e : Eip1559)
        → IsMarshal
        → serving_oracle.external_url ≡ []
        → unexpired now s.cache ≡ none
        → best_of r network ≡ n ∷ ns
        → fees_of decode post serving_oracle n ≡ some e
        → IsFee serving_oracle.min_prio_gwei
        → IsFee e.base_fee_gwei
        → IsFee e.priority_fee_gwei
        → (g : GasPrices) × ArePrices serving_oracle e g
          × (serve_slot (gas_oracles decode post get marshal) r now later kind network s ≡ (
            json 200 (marshal g),
            record {
              oracle = some serving_oracle;
              cache = some (record { b = marshal g; exp = later +ℤ serving_oracle.ttl });
            },
          ))
    unfolding serve_slot filled gas_oracles
    serve_slot-ArePrices n ns e full h miss best fees hm hb hp =
        let o = serving_oracle in
        let (g, computed, prices) = compute_from_rpc-ArePrices decode post o n e fees hm hb hp in
        (
          g,
          prices,
          rw (miss, serve_slot)
              (rw best (
                rw
                  (ask-computed get o n ns (str "no " ++ network ++ str " nodes") g full h computed)
                  refl)),
        )
