-- ===== src/Gas.antt =====
-- pkg/api/gas.go: gas prices of a network, from a cache, an external service or the network's own
-- nodes. Times are nanoseconds. A request reads the clock when it looks at the cache (`now`) and
-- when it fills it (`later`). The oracles, pkg/oracle, stand behind the interface GasOracle.
pub mod Asking
pub mod Slots
pub mod Routing
mod Tests
use mezzium.Base.{ℕ, ◌/◌, not, ◌||◌, Option, none, some, List, [], ◌∷◌, ◌++◌, eqb, if◌then◌else◌}
use mezzium.Base.Int.{ℤ, ltb_ℤ, ◌+ℤ◌}
use mezzium.Text.{Str, str, ◌==◌, to_lower, trim}
use mezzium.Dict.{Dict, lookup, insert}
use mezzium.Registry.{Registry, NetworkState, best_of}
use mezzium.Registry.Pick.{NodeWithPing}

-- The constructors NewPolygonGasOracle, NewEthGasOracle and so on.
pub data Kind : Type 0 where
  polygon eth bsc arbitrum optimism : Kind

-- GasOracle and the constructors, for oracles of type O; an error is `none`. The JSON encoding is
-- part of compute_from_rpc_bytes.
pub record OracleApi (O : Type 0) : Type 0 where
  pub new_oracle : Kind → Option NetworkState → O
  pub ttl_duration : O → ℤ
  pub fetch_from_official : O → Option (ℕ × Str)
  pub compute_from_rpc_bytes : O → NodeWithPing → Option Str

-- What is written to the client: JSON, or http.Error.
pub data Response : Type 0 where
  json : (code : ℕ) → (body : Str) → Response
  http_error : (code : ℕ) → (message : Str) → Response

pub record Entry : Type 0 where
  pub b : Str
  pub exp : ℤ

-- polygonGasOnce, polygonGasCache and polygonOracle, and the same for the other networks. The
-- oracle is there once the sync.Once has run; the cache is there once its b is not nil.
pub record Slot (O : Type 0) : Type 0 where
  pub oracle : Option O
  pub cache : Option Entry

pub record GasState (O : Type 0) : Type 0 where
  pub polygon_slot : Slot O
  pub eth_slot : Slot O
  pub bsc_slot : Slot O
  pub arb_slot : Slot O
  pub op_slot : Slot O
  pub generic_gas_cache : Dict Entry

-- The bytes of a cache that is filled and has not expired.
unfoldable pub unexpired : ℤ → Option Entry → Option Str
unexpired now none = none
unexpired now (some e) = if ltb_ℤ now e.exp then some e.b else none

-- err == nil && code/100 == 2
unfoldable pub accepted : Option (ℕ × Str) → Option (ℕ × Str)
accepted none = none
accepted (some (code, body)) = if eqb (code / 100) 2 then some (code, body) else none

-- The switch of NewOracleForNetwork.
unfoldable pub kind_of : Str → Kind
kind_of name =
    if name == str "polygon"
    then polygon
    else if name == str "arbitrum"
    then arbitrum
    else if name == str "optimism"
    then optimism
    else if name == str "binance" || name == str "bsc"
    then bsc
    else eth

module _ {O : Type 0} (api : OracleApi O) where
  -- The loop over the nodes, up to its `break`.
  unfoldable pub first_computed : O → List NodeWithPing → Str
  first_computed o [] = []
  first_computed o (n ∷ ns) = elim (api.compute_from_rpc_bytes o n) [
    | none ↦ first_computed o ns
    | some b ↦ b
  ]

  -- What follows the look at the cache: the answer, and the bytes to cache, if any.
  unfoldable pub ask : O → List NodeWithPing → Str → Response × Option Str
  unfolding accepted first_computed
  ask o nodes no_nodes = elim (accepted (api.fetch_from_official o)) [
    | some (code, body) ↦ (json code body, some body)
    | none ↦ elim nodes [
      | [] ↦ (http_error 503 no_nodes, none)
      | n ∷ ns ↦ elim (first_computed o (n ∷ ns)) [
        | [] ↦ (http_error 502 (str "gas calc failed"), none)
        | c ∷ cs ↦ (json 200 (c ∷ cs), some (c ∷ cs))
      ]
    ]
  ]

  -- The cache after an answer.
  unfoldable pub filled : ℤ → O → Option Str → Option Entry → Option Entry
  filled later o none old = old
  filled later o (some b) old = some (record { b = b; exp = later +ℤ api.ttl_duration o })

  -- The sync.Once at the start of each server.
  unfoldable pub init_once : Kind → Str → Registry → Option O → O
  init_once kind network r none = api.new_oracle kind (lookup network r)
  init_once kind network r (some o) = o

  module _ (r : Registry) (now later : ℤ) where
    -- What servePolygonGas, serveEthGas and the other three do, each with its own network.
    unfoldable pub serve_slot : Kind → Str → Slot O → Response × Slot O
    unfolding unexpired ask filled init_once
    serve_slot kind network s =
        let o = init_once kind network r s.oracle in
        elim (unexpired now s.cache) [
          | some b ↦ (json 200 b, record { oracle = some o; cache = s.cache })
          | none ↦
              let (resp, store) =
                ask o (best_of r network) (str "no " ++ network ++ str " nodes") in
              (resp, record { oracle = some o; cache = filled later o store s.cache })
        ]

    unfoldable pub serve_polygon_gas : GasState O → Response × GasState O
    unfolding serve_slot
    serve_polygon_gas g =
        let (resp, s) = serve_slot polygon (str "polygon") g.polygon_slot in
        (resp, record g { polygon_slot = s })

    unfoldable pub serve_eth_gas : GasState O → Response × GasState O
    unfolding serve_slot
    serve_eth_gas g =
        let (resp, s) = serve_slot eth (str "ethereum") g.eth_slot in
        (resp, record g { eth_slot = s })

    unfoldable pub serve_bsc_gas : GasState O → Response × GasState O
    unfolding serve_slot
    serve_bsc_gas g =
        let (resp, s) = serve_slot bsc (str "binance") g.bsc_slot in
        (resp, record g { bsc_slot = s })

    unfoldable pub serve_arbitrum_gas : GasState O → Response × GasState O
    unfolding serve_slot
    serve_arbitrum_gas g =
        let (resp, s) = serve_slot arbitrum (str "arbitrum") g.arb_slot in
        (resp, record g { arb_slot = s })

    unfoldable pub serve_optimism_gas : GasState O → Response × GasState O
    unfolding serve_slot
    serve_optimism_gas g =
        let (resp, s) = serve_slot optimism (str "optimism") g.op_slot in
        (resp, record g { op_slot = s })

    unfoldable pub new_oracle_for_network : Str → Option O
    unfolding kind_of
    new_oracle_for_network name = elim (lookup name r) [
      | none ↦ none
      | some st ↦
          if to_lower st.protocol == str "evm"
          then some (api.new_oracle (kind_of (to_lower name)) (some st))
          else none
    ]

    -- genericGasCache[network] after an answer.
    unfoldable pub fill_generic : O → Str → Option Str → Dict Entry → Dict Entry
    fill_generic o network none cache = cache
    fill_generic o network (some b) cache =
        insert network (record { b = b; exp = later +ℤ api.ttl_duration o }) cache

    -- The answer is `none` where the Go function returns false and has written nothing.
    unfoldable pub serve_generic_gas : Str → Str → GasState O → Option Response × GasState O
    unfolding new_oracle_for_network unexpired ask fill_generic
    serve_generic_gas method network g =
        if method == str "GET"
        then elim (new_oracle_for_network network) [
          | none ↦ (none, g)
          | some o ↦ elim (unexpired now (lookup network g.generic_gas_cache)) [
            | some b ↦ (some (json 200 b), g)
            | none ↦
                let (resp, store) = ask o (best_of r network) (str "no nodes") in
                (
                  some resp,
                  record g { generic_gas_cache = fill_generic o network store g.generic_gas_cache },
                )
          ]
        ]
        else (none, g)

    unfoldable pub try_serve_gas_fee : Str → Str → Str → GasState O → Option Response × GasState O
    unfolding serve_polygon_gas serve_eth_gas serve_bsc_gas serve_arbitrum_gas serve_optimism_gas
        serve_generic_gas
    try_serve_gas_fee method network tail g =
        if not (method == str "GET") || not (to_lower (trim b'/' tail) == str "gas")
        then (none, g)
        else if to_lower network == str "polygon"
        then answered (serve_polygon_gas g)
        else if to_lower network == str "ethereum"
        then answered (serve_eth_gas g)
        else if to_lower network == str "binance"
        then answered (serve_bsc_gas g)
        else if to_lower network == str "arbitrum"
        then answered (serve_arbitrum_gas g)
        else if to_lower network == str "optimism"
        then answered (serve_optimism_gas g)
        else serve_generic_gas method network g
      where
        answered : Response × GasState O → Option Response × GasState O
        answered (resp, g') = (some resp, g')
