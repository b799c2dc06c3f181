-- ===== src/Proxy/Entry.antt =====
-- Serve of pkg/api/proxy.go as a whole.
use mezzium.Base.{ℕ, ◌≡◌, refl, ap, ◌∙◌, Option, ◌∷◌, ◌++◌}
use mezzium.Base.Int.{ℤ}
use mezzium.Text.{Str}
use mezzium.Registry.{Registry}
use mezzium.Gas.{OracleApi, GasState}
use mezzium.Gas.Routing.{IsGasRequest, try_serve_gas_fee_untaken}
use mezzium.Proxy.{
  dispatch, Headers, Incoming, Adapted, Outgoing, Answer, Messages, route_of, forward, serve,
}
use mezzium.Proxy.Paths.{Lacks, route_of_lem}

module _ (r : Registry) (adapt : Str → Str → Str → Str → Str → Headers → Str → Adapted)
    (decode : Str → Option Messages) (send : ℕ → Outgoing → Option Answer) {O : Type 0}
    (api : OracleApi O) (now later : ℤ) (q : Incoming) (g : GasState O) where
  -- A request whose path is a network and a tail, and which is no GET of "gas", is forwarded to
  -- that network with that tail, and leaves the gas prices as they are.
  pub serve-forward :
      (network tail : Str)
      → Lacks b'/' network
      → q.path ≡ b'/' ∷ (network ++ b'/' ∷ tail)
      → ¬ IsGasRequest q.method tail
      → serve r adapt decode send api now later q g
        ≡ (forward r adapt decode send network tail q, g)
  unfolding serve dispatch
  serve-forward network tail h e other =
      let routed : route_of q.path ≡ (network, tail) =
        ap route_of e ∙ route_of_lem network tail h in
      let untaken = try_serve_gas_fee_untaken api r now later g q.method network tail other in
      ap (λ (p : Str × Str). dispatch r adapt decode send api now later p.0 p.1 q g) routed
      ∙ rw (untaken, dispatch) (rw untaken refl)
