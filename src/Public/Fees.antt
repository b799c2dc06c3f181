-- ===== src/Public/Fees.antt =====
-- EthFee of pkg/api/public.go: two requests to a node, of which the answers are read into variables
-- that outlive the attempt.
use mezzium.Base.{ℕ, Bool, true, false, not, Option, none, some, List, [], ◌++◌, if◌then◌else◌}
use mezzium.Base.Int.{pos}
use mezzium.Text.{Str, str, ◌==◌}
use mezzium.Registry.{Registry, best_of}
use mezzium.Registry.Pick.{NodeWithPing}
use mezzium.Throttle.{reset}
use mezzium.Proxy.{Outgoing, Answer, Messages}
use mezzium.Public.{Calls, candidates_of, first_of, call_node, post_to}
use mezzium.Public.Endpoints.{Library, PublicRequest, Reply, status_only, json, http_error, first}

-- What EthFee has read so far: it keeps it from node to node.
pub record Fees : Type 0 where
  pub base_fee_per_gas : List Str
  pub max_prio : Str

module _ (lib : Library) (decode : Str → Option Messages) (send : ℕ → Outgoing → Option Answer)
    (clock : ℕ → ℕ) where
  -- A body of the loop of EthFee: a request, and what is read of its answer.
  unfoldable fee_request : Str → NodeWithPing → Calls × Fees → Option Str × (Calls × Fees)
  unfolding call_node post_to
  fee_request body n (s, f) =
      let (a, s') = call_node decode send clock (post_to (pos 5_000_000_000) true body n) s in
      elim a [ none ↦ (none, (s', f)) | some b ↦ (some b.body, (s', f)) ]

  unfoldable keep_fees : Option Str × (Calls × Fees) → Bool × (Calls × Fees)
  keep_fees (none, (s, f)) = (false, (s, f))
  keep_fees (some body, (s, f)) =
      let (fees, ok) = lib.read_fees f.base_fee_per_gas body in
      (ok, (s, record f { base_fee_per_gas = fees }))

  unfoldable keep_prio : Option Str × (Calls × Fees) → Bool × (Calls × Fees)
  keep_prio (none, (s, f)) = (false, (s, f))
  keep_prio (some body, (s, f)) =
      let (prio, ok) = lib.read_prio f.max_prio body in (ok, (s, record f { max_prio = prio }))

  -- The answer, once both are read.
  unfoldable fee_answer : Str → Bool × (Calls × Fees) → Option Str × (Calls × Fees)
  fee_answer url (false, x) = (none, x)
  fee_answer url (true, (s, f)) = (
    some (
        str "{\"baseFee\":"
        ++ (lib.quote (first f.base_fee_per_gas)
            ++ (str ",\"maxPriorityFee\":" ++ (lib.quote f.max_prio ++ str "}")))),
    (record s { throttler = reset url s.throttler }, f),
  )

  unfoldable fee_second : NodeWithPing → Bool × (Calls × Fees) → Option Str × (Calls × Fees)
  unfolding fee_request keep_prio fee_answer
  fee_second n (false, x) = (none, x)
  fee_second n (true, x) = fee_answer n.url (
      keep_prio (
        fee_request (str "{\"jsonrpc\":\"2.0\",\"method\":\"eth_maxPriorityFeePerGas\",\"id\":2}") n
          x))

  unfoldable fee_attempt : NodeWithPing → Calls × Fees → Option Str × (Calls × Fees)
  unfolding fee_request keep_fees fee_second
  fee_attempt n x = fee_second n (
      keep_fees (
        fee_request
          (str
            "{\"jsonrpc\":\"2.0\",\"method\":\"eth_feeHistory\",\"params\":[\"0x1\",\"latest\",[]],\"id\":1}")
          n x))

  unfoldable fee_reply : Option Str × (Calls × Fees) → Reply × Calls
  fee_reply (none, (s, f)) = (http_error 502 (str "fee calc failed"), s)
  fee_reply (some body, (s, f)) = (json 200 body, s)

  unfoldable pub eth_fee : Registry → PublicRequest → Calls → Reply × Calls
  unfolding candidates_of first_of fee_attempt fee_reply
  eth_fee r q s =
      if not (q.method == str "GET")
      then (status_only 405, s)
      else fee_reply (
          first_of fee_attempt (candidates_of clock (best_of r (str "ethereum")) s)
            (s, record { base_fee_per_gas = []; max_prio = [] }))
