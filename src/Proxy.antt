-- ===== src/Proxy.antt =====
-- pkg/api/proxy.go and pkg/api/ratelimit.go: a request to /{network}/{tail} goes to the best nodes of
-- the network in turn, until one answers. The adapters, pkg/adapters, are the argument `adapt`, the
-- network is `send`, which is also told the number of the attempt, and `decode` reads what
-- isRateLimited looks for in a JSON body. The names of headers are kept in lower case.
pub mod Relay
pub mod Logging
pub mod Urls
pub mod Paths
pub mod Entry
mod Tests
use mezzium.Base.{
  ℕ, ◌+◌, Bool, true, false, not, ◌&&◌, ◌||◌, Option, none, some, List, [], ◌∷◌, ◌++◌, leb, eqb,
  if◌then◌else◌, keep,
}
use mezzium.Base.Int.{ℤ, pos, leb_ℤ, ◌*ℤ◌, wrap64}
use mezzium.Text.{
  Str, str, ◌==◌, to_lower, contains, trim_left, trim_right, trim_prefix, split, join,
}
use mezzium.Dict.{Dict, lookup, insert}
use mezzium.Log.{after_log}
use mezzium.Registry.{Registry, best_of, protocol_of, timeout_ms_of}
use mezzium.Registry.Pick.{NodeWithPing}
use mezzium.Gas.{OracleApi, Response, GasState, try_serve_gas_fee}

-- http.Header: the values of each name.
abbrev pub Headers : Type 0
Headers = Dict (List Str)

-- Header.Set
unfoldable pub set_header : Str → Str → Headers → Headers
set_header name value h = insert (to_lower name) (value ∷ []) h

-- Header.Get
unfoldable pub get_header : Str → Headers → Str
get_header name h = elim (lookup name h) [ none ↦ [] | some vs ↦ elim vs [ [] ↦ [] | v ∷ r ↦ v ] ]

-- The loops that set the headers of an adapter or of a node.
unfoldable pub set_all : Dict Str → Headers → Headers
unfolding set_header
set_all [] h = h
set_all ((name, value) ∷ rest) h = set_all rest (set_header name value h)

-- A request to the proxy.
pub record Incoming : Type 0 where
  pub method : Str
  pub path : Str
  pub raw_query : Str
  pub headers : Headers
  pub body : Str
  -- The room behind the body in the array that io.ReadAll read it into.
  pub room : ℕ

-- The result of adapters.Adapt.
pub record Adapted : Type 0 where
  pub method : Str
  pub tail : Str
  pub body : Str
  pub headers : Dict Str
  pub allowed_host_substr : List Str

-- A request to an upstream, and the client's settings.
pub record Outgoing : Type 0 where
  pub method : Str
  pub url : Str
  pub body : Str
  pub headers : Headers
  pub timeout : ℤ
  pub tor : Bool

pub record Answer : Type 0 where
  pub status : ℕ
  pub headers : Headers
  pub body : Str
  pub room : ℕ

-- The message of the object under "error", and the message of the body itself, where they are text.
pub record Messages : Type 0 where
  pub error_message : Option Str
  pub message : Option Str

-- What Serve writes.
pub data Served : Type 0 where
  gas : Response → Served
  relayed : Answer → Served
  http_error : ℕ → Str → Served

unfoldable looks_like_rl : Str → Bool
looks_like_rl s =
    let t = to_lower s in
    contains t (str "rate limit")
    || contains t (str "too many request")
    || contains t (str "too many requests")

-- Whether strings.TrimSpace leaves something: whether a byte is no ASCII space.
unfoldable has_text : Str → Bool
has_text [] = false
has_text (c ∷ s) = not (eqb c 32 || (leb 9 c && leb c 13)) || has_text s

unfoldable message_limited : Option Str → Bool
unfolding looks_like_rl
message_limited none = false
message_limited (some s) = looks_like_rl s

unfoldable pub is_rate_limited : (Str → Option Messages) → Answer → Bool
unfolding get_header has_text message_limited
is_rate_limited decode a =
    if eqb a.status 429
    then true
    else if has_text (get_header (str "retry-after") a.headers)
    then true
    else if get_header (str "x-ratelimit-remaining") a.headers == str "0"
    then true
    else if a.body == []
    then false
    else elim (decode a.body) [
      | none ↦ false
      | some j ↦ message_limited j.error_message || message_limited j.message
    ]

unfoldable pub build_upstream_url : Str → Str → Str → Str
build_upstream_url base tail raw_query =
    let u = trim_right b'/' base in
    let v = if tail == [] then u else u ++ str "/" ++ trim_left b'/' tail in
    if raw_query == [] then v else v ++ str "?" ++ raw_query

unfoldable pub default_timeout_for_protocol : Str → ℤ
default_timeout_for_protocol protocol =
    let p = to_lower protocol in
    if p == str "sol"
    then pos 800_000_000
    else if p == str "evm"
    then pos 1_500_000_000
    else if p == str "trx"
    then pos 1_500_000_000
    else if p == str "btc" || p == str "doge" || p == str "ltc"
    then pos 2_000_000_000
    else pos 1_500_000_000

-- The timeout of Serve, which looks it up under the network's name.
unfoldable pub node_timeout : Registry → Str → ℤ
unfolding default_timeout_for_protocol
node_timeout r network =
    let tmo = wrap64 (timeout_ms_of r network *ℤ pos 1_000_000) in
    if leb_ℤ tmo (pos 0) then default_timeout_for_protocol (protocol_of r network) else tmo

-- The inner loop of the filter, up to its `break`.
unfoldable pub is_allowed : List Str → Str → Bool
is_allowed [] url = false
is_allowed (sub ∷ subs) url =
    if contains (to_lower url) (to_lower sub) then true else is_allowed subs url

unfoldable pub filter_allowed : List Str → List NodeWithPing → List NodeWithPing
unfolding is_allowed
filter_allowed [] nodes = nodes
filter_allowed (sub ∷ subs) nodes = keep (λ (n : NodeWithPing). is_allowed (sub ∷ subs) n.url) nodes

-- The request that is sent to a node.
unfoldable pub outgoing : Adapted → Headers → Str → ℤ → NodeWithPing → Outgoing
unfolding build_upstream_url set_all set_header get_header
outgoing ad in_headers raw_query timeout n =
    let h = set_all n.headers in_headers in
    record {
      method = ad.method;
      url = build_upstream_url n.url ad.tail raw_query;
      body = ad.body;
      headers =
          if (get_header (str "content-type") h == [])
            && (ad.method == str "POST" || ad.method == str "PUT")
          then set_header (str "content-type") (str "application/json") h
          else h;
      timeout = timeout;
      tor = n.tor;
    }

-- The body of a request after LogRequest, and that of an answer after LogResponse.
unfoldable pub logged_request : Incoming → Str
unfolding after_log
logged_request q = after_log q.room q.body

unfoldable pub logged_answer : Answer → Answer
unfolding after_log
logged_answer a = record a { body = after_log a.room a.body }

-- What has come of an attempt, once it is logged.
unfoldable pub received : (ℕ → Outgoing → Option Answer) → ℕ → Outgoing → Option Answer
unfolding logged_answer
received send i o = elim (send i o) [ none ↦ none | some a ↦ some (logged_answer a) ]

module _ (decode : Str → Option Messages) (send : ℕ → Outgoing → Option Answer)
    (request : NodeWithPing → Outgoing) where
  -- The loop over the candidates: what is written, and the requests that were sent.
  unfoldable pub relay : ℕ → List NodeWithPing → Served × List Outgoing
  unfolding is_rate_limited received
  relay i [] = (http_error 502 (str "all upstreams failed"), [])
  relay i (n ∷ ns) =
      let (later, sent) = relay (i + 1) ns in
      elim (received send i (request n)) [
        | none ↦ (later, request n ∷ sent)
        | some a ↦
            if is_rate_limited decode a || leb 500 a.status
            then (later, request n ∷ sent)
            else (relayed a, request n ∷ [])
      ]

  -- What follows the filter.
  unfoldable pub attempt : List NodeWithPing → Served × List Outgoing
  unfolding relay
  attempt [] = (http_error 503 (str "no allowed upstreams"), [])
  attempt (n ∷ ns) = relay 0 (n ∷ ns)

-- The network and the tail from the parts of a path.
unfoldable pub route_parts : List Str → Str × Str
route_parts [] = ([], [])
route_parts (network ∷ rest) = (network, join b'/' rest)

unfoldable pub route_of : Str → Str × Str
unfolding route_parts
route_of path = route_parts (split b'/' (trim_prefix path (str "/")))

module _ (r : Registry) (adapt : Str → Str → Str → Str → Str → Headers → Str → Adapted)
    (decode : Str → Option Messages) (send : ℕ → Outgoing → Option Answer) where
  -- Serve from the choice of the candidates on.
  unfoldable pub forward : Str → Str → Incoming → Served × List Outgoing
  unfolding filter_allowed outgoing attempt node_timeout set_all logged_request
  forward network tail q = elim (best_of r network) [
    | [] ↦ (http_error 503 (str "no available nodes"), [])
    | first ∷ others ↦
        let ad =
          adapt network (protocol_of r network) first.url tail q.method q.headers
            (logged_request q) in
        let raw_query =
          if q.method == str "GET" && ad.method == str "POST" && not (ad.body == [])
          then []
          else q.raw_query in
        attempt decode send
          (outgoing ad (set_all ad.headers q.headers) raw_query (node_timeout r network))
          (filter_allowed ad.allowed_host_substr (first ∷ others))
  ]

  -- Serve from the short circuit for gas on.
  unfoldable pub dispatch :
      {O : Type 0} (api : OracleApi O) (now later : ℤ) (network tail : Str)
      → Incoming
      → GasState O
      → (Served × List Outgoing) × GasState O
  unfolding forward
  dispatch api now later network tail q g =
      let (taken, g') = try_serve_gas_fee api r now later q.method network tail g in
      elim taken [ some resp ↦ ((gas resp, []), g') | none ↦ (forward network tail q, g') ]

  unfoldable pub serve :
      {O : Type 0} (api : OracleApi O) (now later : ℤ)
      → Incoming
      → GasState O
      → (Served × List Outgoing) × GasState O
  unfolding dispatch route_of
  serve api now later q g =
      let (network, tail) = route_of q.path in dispatch api now later network tail q g
