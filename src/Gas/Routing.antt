-- ===== src/Gas/Routing.antt =====
-- TryServeGasFee of pkg/api/gas.go: which requests it takes.
use mezzium.Base.{
  ◌≡◌, refl, sym, ap, ◌∙◌, ◌≢◌, ◌↔◌, inl, inr, Option, none, some, List, [], ◌∷◌, arith, Bool-cases,
  Option-cases, In,
}
use mezzium.Base.Int.{ℤ}
use mezzium.Text.{Str, str, ◌==◌, to_lower, trim}
use mezzium.Text.Laws.{eq_iff, eq_refl}
use mezzium.Dict.{lookup}
use mezzium.Registry.{Registry, NetworkState}
use mezzium.Gas.{
  kind_of, best_of, ask, unexpired, OracleApi, Response, json, GasState, new_oracle_for_network,
  serve_generic_gas, try_serve_gas_fee,
}

-- A GET of the tail "gas", in any case and with slashes around it.
abbrev pub IsGasRequest : Str → Str → Type 0
IsGasRequest method tail = (method ≡ str "GET") × (to_lower (trim b'/' tail) ≡ str "gas")

-- The networks with a server of their own.
abbrev pub dedicated : List Str
dedicated = str "polygon" ∷ str "ethereum" ∷ str "binance" ∷ str "arbitrum" ∷ str "optimism" ∷ []

module _ {O : Type 0} (api : OracleApi O) (r : Registry) (now later : ℤ) (g : GasState O) where
  -- What is no gas request is left to the proxy, with nothing answered and nothing changed.
  pub try_serve_gas_fee_untaken :
      (method network tail : Str)
      → ¬ IsGasRequest method tail
      → try_serve_gas_fee api r now later method network tail g ≡ (none, g)
  unfolding try_serve_gas_fee
  try_serve_gas_fee_untaken method network tail h =
      ground (arith, eq_iff method (str "GET"), eq_iff (to_lower (trim b'/' tail)) (str "gas"))

  generic_untaken :
      (network : Str)
      → new_oracle_for_network api r now later network ≡ none
      → serve_generic_gas api r now later (str "GET") network g ≡ (none, g)
  unfolding serve_generic_gas ◌==◌
  generic_untaken network e = rw (e, serve_generic_gas) refl

  generic_taken :
      (network : Str) (o : O)
      → new_oracle_for_network api r now later network ≡ some o
      → (resp : Response) × ((serve_generic_gas api r now later (str "GET") network g).0
          ≡ some resp)
  unfolding serve_generic_gas ◌==◌
  generic_taken network o e =
      elim (Option-cases (unexpired now (lookup network g.generic_gas_cache))) [
        | inl k ↦ (
          (ask api o (best_of r network) (str "no nodes")).0,
          rw (e, serve_generic_gas) (rw k refl),
        )
        | inr (b, k) ↦ (json 200 b, rw (e, serve_generic_gas) (rw k refl))
      ]

  routed :
      (network tail : Str)
      → to_lower (trim b'/' tail) ≡ str "gas"
      → (In (to_lower network) dedicated → ⊥)
      → try_serve_gas_fee api r now later (str "GET") network tail g
        ≡ serve_generic_gas api r now later (str "GET") network g
  unfolding try_serve_gas_fee
  routed network tail h k = ground (
    arith,
    h,
    k,
    eq_refl (str "gas"),
    eq_refl (str "GET"),
    eq_iff (to_lower network) (str "polygon"),
    eq_iff (to_lower network) (str "ethereum"),
    eq_iff (to_lower network) (str "binance"),
    eq_iff (to_lower network) (str "arbitrum"),
    eq_iff (to_lower network) (str "optimism"),
  )

  -- A network without a server of its own is left to the proxy, with nothing answered and nothing
  -- changed, exactly if the registry has no network of that very name with an EVM protocol.
  pub try_serve_gas_fee_generic :
      (method network tail : Str)
      → IsGasRequest method tail
      → (In (to_lower network) dedicated → ⊥)
      → (try_serve_gas_fee api r now later method network tail g ≡ (none, g))
        ↔ ((st : NetworkState) → lookup network r ≡ some st → to_lower st.protocol ≢ str "evm")
  unfolding try_serve_gas_fee serve_generic_gas new_oracle_for_network
  try_serve_gas_fee_generic method network tail (get, h) k =
      rw (get, routed network tail h k)
        (
          (λ left st e evm.
              let o : new_oracle_for_network api r now later network
                  ≡ some (api.new_oracle (kind_of (to_lower network)) (some st)) =
                rw (e, new_oracle_for_network)
                  (rw ((eq_iff (to_lower st.protocol) (str "evm")).1 evm) refl) in
              let (resp, sent) = generic_taken network _ o in
              none_ne resp (sym (ap (λ (p : Option Response × GasState O). p.0) left) ∙ sent)),
          λ other. generic_untaken network (unlisted other (lookup network r) refl),
        )
    where
      none_ne : (resp : Response) → none ≢ some resp
      none_ne resp h = cc

      unlisted :
          ((st : NetworkState) → lookup network r ≡ some st → to_lower st.protocol ≢ str "evm")
          → (found : Option NetworkState) → lookup network r ≡ found
          → new_oracle_for_network api r now later network ≡ none
      unlisted other none e = rw (e, new_oracle_for_network) refl
      unlisted other (some st) e = elim (Bool-cases (to_lower st.protocol == str "evm")) [
        | inl t ↦ absurd (other st e ((eq_iff (to_lower st.protocol) (str "evm")).0 t))
        | inr f ↦ rw (e, new_oracle_for_network) (rw f refl)
      ]
