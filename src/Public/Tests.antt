-- ===== src/Public/Tests.antt =====
-- Runs of the public endpoints: of the nodes a, b and c, which have the priorities 2, 1 and 2, b
-- limits the rate, and c is throttled at the start.
use mezzium.Base.{
  ℕ, ◌+◌, ◌≡◌, refl, ◌≢◌, inl, inr, true, false, Option, none, some, List, [], ◌∷◌, ◌++◌, arith,
  ltb, eqb, if◌then◌else◌, length, In,
}
use mezzium.Base.Int.{pos}
use mezzium.Text.{Str, str, ◌==◌, to_lower, has_prefix, contains, trim_prefix}
use mezzium.Dict.{lookup}
use mezzium.Registry.{Registry, NetworkState, best_of}
use mezzium.Registry.Pick.{NodeWithPing}
use mezzium.Throttle.{mark_429, Throttler, is_throttled, new_throttler}
use mezzium.Proxy.{Outgoing, Answer, Messages}
use mezzium.Public.{Calls, candidates, candidates_of, first_2xx, post_to}
use mezzium.Public.Recovery.{mark_429-candidates}
use mezzium.Public.Nodes.{active_nodes}
use mezzium.Public.Redacted.{Hides, active_nodes-Hides}
use mezzium.Secrets.{init_sensitive_envs, hidden, redact_string, redact_headers}
use mezzium.Secrets.Redaction.{IsUnmarked}
use mezzium.Public.Groups.{of_priority, unthrottled}
use mezzium.Public.Order.{ByPriority, candidates-ByPriority}
use mezzium.Public.Loops.{Found, AreCandidates, first_2xx-Found}
use mezzium.Public.Sends.{SendsOnly, ToUnthrottled, first_2xx-SendsOnly}
use mezzium.Public.Endpoints.{
  Library, PublicRequest, Reply, json, btc_balance, eth_max_priority_fee,
}
use mezzium.Public.Fees.{eth_fee}
use mezzium.Public.Pages.{nft_get_all_nfts, limit_of, offset_of}
use mezzium.Public.Pages.Paging.{HoldsPage, nft_get_all_nfts-HoldsPage}

abbrev node : Str → ℕ → NodeWithPing
node url priority = record {
  node = record { url = url; priority = pos priority; headers = []; tor = false };
  alive = true;
  ping = pos 3;
}

abbrev nodes : List NodeWithPing
nodes = node (str "a") 2 ∷ node (str "b") 1 ∷ node (str "c") 2 ∷ []

abbrev throttler : Throttler
throttler = record new_throttler { deadlines = (str "c", 900) ∷ [] }

asked_in_order : candidates 5 throttler nodes ≡ node (str "b") 1 ∷ node (str "a") 2 ∷ []
unfolding candidates is_throttled lookup ◌==◌
asked_in_order = refl

candidates-ByPriority_example :
    ByPriority (candidates 5 throttler nodes)
    × (of_priority (pos 2) (candidates 5 throttler nodes)
        ≡ of_priority (pos 2) (unthrottled 5 throttler nodes))
candidates-ByPriority_example = candidates-ByPriority 5 throttler nodes (pos 2)

abbrev decode : Str → Option Messages
decode body = none

abbrev send : ℕ → Outgoing → Option Answer
send i o =
    if o.url == str "b"
    then some (record { status = 429; headers = []; body = []; room = 0 })
    else some (record { status = 200; headers = []; body = str "0x10"; room = 0 })

abbrev clock : ℕ → ℕ
clock i = 5 + i

abbrev start : Calls
start = record { throttler = throttler; sent = [] }

abbrev request : NodeWithPing → Outgoing
request n = post_to (pos 7) true (str "{}") n

first_2xx-Found_example :
    (cs : List NodeWithPing) × AreCandidates decode send clock request
      (clock (length start.sent))
      start.throttler
      nodes
      cs
    × Found decode send clock request cs start (first_2xx decode send clock request nodes start)
first_2xx-Found_example = first_2xx-Found decode send clock request nodes start

answered_second : length (first_2xx decode send clock request nodes start).1.sent ≡ 2
unfolding first_2xx is_throttled lookup ◌==◌ post_to
answered_second = refl

first_2xx-SendsOnly_example :
    SendsOnly
      (ToUnthrottled decode send clock request nodes start)
      start
      (first_2xx decode send clock request nodes start).1
first_2xx-SendsOnly_example = first_2xx-SendsOnly decode send clock request nodes start

abbrev state : NetworkState
state = record {
  protocol = str "btc";
  route = str "btc";
  all = [];
  best = nodes;
  discovered = [];
  timeout_ms = pos 0;
  gas = none;
}

abbrev registry : Registry
registry = (str "btc", state) ∷ (str "ethereum", state) ∷ []

abbrev lib : Library
lib = record {
  quote = λ s. str "\"" ++ s ++ str "\"";
  read_fees = λ fees body. (fees, true);
  read_prio = λ prio body. (body, true);
  read_result = λ body. body;
  scan_uint = λ s. none;
  fits_slice = λ n. ltb n 1_000_000;
}

abbrev get : Str → PublicRequest
get path = record { method = str "GET"; path = path; query = (str "contract", str " 0xab ") ∷ [] }

address_read : trim_prefix (str "/btc/balance/x") (str "/btc/balance/") ≢ []
unfolding trim_prefix
address_read e = cc e

best : best_of registry (str "btc") ≡ nodes
unfolding best_of lookup ◌==◌
best = refl

nft_get_all_nfts-HoldsPage_example : HoldsPage lib decode send clock 50 0 (
    nft_get_all_nfts lib decode send clock registry
      (get (str "/ethereum/nft/get-all-nfts/0xcd"))
      start)
unfolding limit_of offset_of ◌==◌ lookup
nft_get_all_nfts-HoldsPage_example =
    nft_get_all_nfts-HoldsPage lib decode send clock registry
      (get (str "/ethereum/nft/get-all-nfts/0xcd")) start

-- The base fee of the first node is answered with the priority fee of the second.
abbrev mixed_lib : Library
mixed_lib = record lib {
  read_fees = λ fees body. if body == str "no fees" then (fees, true) else (body ∷ [], true);
}

abbrev mixed_send : ℕ → Outgoing → Option Answer
mixed_send i o =
    if eqb i 0
    then some (record { status = 200; headers = []; body = str "fee of b"; room = 0 })
    else if eqb i 1
    then none
    else if eqb i 2
    then some (record { status = 200; headers = []; body = str "no fees"; room = 0 })
    else some (record { status = 200; headers = []; body = str "prio of a"; room = 0 })

mixed_fees :
    (eth_fee mixed_lib decode mixed_send clock registry (get (str "/ethereum/fee")) start).0
    ≡ json 200 (str "{\"baseFee\":\"fee of b\",\"maxPriorityFee\":\"prio of a\"}")
unfolding eth_fee ◌==◌ best_of lookup is_throttled mezzium.Public.Endpoints.first
mixed_fees = refl

mark_429-candidates_example :
    In (node (str "b") 1) (candidates 600_000_000_007 (mark_429 7 (str "b") throttler) nodes)
unfolding new_throttler
mark_429-candidates_example =
    mark_429-candidates 7 600_000_000_007 throttler nodes (node (str "b") 1) (omega arith)
      (omega arith) (inr (inl refl))

abbrev environ : List Str
environ = str "HOME=/root" ∷ str "NODE_TOKEN=t0k=n" ∷ []

secret : In (str "t0k=n") (init_sensitive_envs environ)
unfolding init_sensitive_envs contains ◌==◌
secret = inl refl

unmarked : IsUnmarked (str "t0k=n")
unfolding hidden
unmarked = ground arith

abbrev secret_registry : Registry
secret_registry = (str "btc", record state { best = node (str "http://x/t0k=n/y") 1 ∷ [] }) ∷ []

active_nodes-Hides_example : Hides (str "t0k=n") (active_nodes environ secret_registry (str "POST"))
active_nodes-Hides_example =
    active_nodes-Hides environ secret_registry (str "POST") (str "t0k=n") secret unmarked

redacted : redact_string (str "t0k=n" ∷ []) (str "http://x/t0k=n/y") ≡ str "http://x/[HIDDEN]/y"
unfolding redact_string ◌==◌ has_prefix
redacted = refl

headers_redacted :
    redact_headers ((str "X-API-Key", str "k") ∷ (str "a", str "b") ∷ [])
    ≡ (str "X-API-Key", str "***") ∷ (str "a", str "b") ∷ []
unfolding redact_headers ◌==◌ to_lower
headers_redacted = refl
