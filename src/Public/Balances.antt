-- ===== src/Public/Balances.antt =====
-- What BTCBalance of pkg/api/public.go answers.
use mezzium.Base.{
  ℕ, ◌≡◌, refl, sym, subst, ◌≢◌, ◌⊎◌, inl, inr, true, false, Option, none, some, List, [], ◌∷◌,
  ◌++◌,
}
use mezzium.Base.Int.{pos}
use mezzium.Text.{Str, str, ◌==◌, trim_prefix}
use mezzium.Text.Laws.{eq_refl}
use mezzium.Registry.{Registry, best_of}
use mezzium.Registry.Pick.{NodeWithPing}
use mezzium.Proxy.{Outgoing, Answer, Messages}
use mezzium.Public.{Calls, candidates_of, first_2xx, call_first_2xx, post_to}
use mezzium.Public.Loops.{Found, found, not_found, first_2xx-Found_loops, IsSuccess, AllMiss}
use mezzium.Public.Sends.{SendsOnly, ToUnthrottled, first_2xx-SendsOnly}
use mezzium.Public.Endpoints.{
  Library, PublicRequest, Reply, json, http_error, answered, try_forward_json_rpc_to_nodes,
  btc_balance,
}

module _ (lib : Library) (decode : Str → Option Messages) (send : ℕ → Outgoing → Option Answer)
    (clock : ℕ → ℕ) where
  abbrev pub address_of : PublicRequest → Str
  address_of q = trim_prefix q.path (str "/btc/balance/")

  -- The request for the balance of an address.
  abbrev pub balance_call : Str → NodeWithPing → Outgoing
  balance_call addr = post_to (pos 8_000_000_000) true (
      str "{\"jsonrpc\":\"2.0\",\"id\":1,\"method\":\"getbalance\",\"params\":[\""
      ++ (addr ++ str "\"]}"))

  -- The answer is that of a node that succeeded, or 502 after all were asked in vain.
  abbrev pub IsAnswer : (NodeWithPing → Outgoing) → List NodeWithPing → Calls → Reply → Type 0
  IsAnswer request nodes s reply =
      ((a : Answer) × IsSuccess decode send clock request a × (reply ≡ json a.status a.body))
      ⊎ (AllMiss decode send clock request (candidates_of clock nodes s) s
          × ((message : Str) × (reply ≡ http_error 502 message)))

  answered-IsAnswer :
      (request : NodeWithPing → Outgoing) (nodes : List NodeWithPing) (s : Calls) (message : Str)
      (x : Option Answer × Calls)
      → Found decode send clock request (candidates_of clock nodes s) s x
      → IsAnswer request nodes s (answered message x).0
  unfolding answered
  answered-IsAnswer request nodes s message x (found before n after a cut misses e good d) =
      inl (a, good, rw d refl)
  answered-IsAnswer request nodes s message x (not_found misses d) =
      inr (misses, (message, rw d refl))

  answered-sent : (message : Str) (x : Option Answer × Calls) → (answered message x).1 ≡ x.1
  unfolding answered
  answered-sent message (none, s) = refl
  answered-sent message (some a, s) = refl

  not_empty : (s : Str) → s ≢ [] → (s == []) ≡ false
  unfolding ◌==◌
  not_empty [] ne = absurd (ne refl)
  not_empty (c ∷ s) ne = refl

  btc_balance-answered :
      (r : Registry) (q : PublicRequest) (s : Calls) (n : NodeWithPing) (ns : List NodeWithPing)
      → q.method ≡ str "GET"
      → address_of q ≢ []
      → best_of r (str "btc") ≡ n ∷ ns
      → btc_balance lib decode send clock r q s
        ≡ answered
            (str "all upstreams failed")
            (first_2xx decode send clock (balance_call (address_of q)) (n ∷ ns) s)
  unfolding btc_balance try_forward_json_rpc_to_nodes call_first_2xx
  btc_balance-answered r q s n ns get ne best =
      rw (get, btc_balance)
        (rw (not_empty (address_of q) ne) (rw (eq_refl (str "GET")) (rw best refl)))

  -- A GET request for the balance of an address, while there are nodes: the answer is that of a node
  -- which answered with a status of 200 to 299 and does not limit the rate, or 502 after all that
  -- are not throttled were asked in vain; and nothing is sent but the call of getbalance with the
  -- address, to best nodes of btc that are not throttled.
  pub btc_balance-IsAnswer :
      (r : Registry) (q : PublicRequest) (s : Calls) (n : NodeWithPing) (ns : List NodeWithPing)
      → q.method ≡ str "GET"
      → address_of q ≢ []
      → best_of r (str "btc") ≡ n ∷ ns
      → IsAnswer
          (balance_call (address_of q))
          (n ∷ ns)
          s
          (btc_balance lib decode send clock r q s).0
        × SendsOnly
            (ToUnthrottled decode send clock (balance_call (address_of q)) (n ∷ ns) s)
            s
            (btc_balance lib decode send clock r q s).1
  btc_balance-IsAnswer r q s n ns get ne best =
      let call = first_2xx decode send clock (balance_call (address_of q)) (n ∷ ns) s in
      rw (btc_balance-answered r q s n ns get ne best) (
        answered-IsAnswer (balance_call (address_of q)) (n ∷ ns) s (str "all upstreams failed") call
            (first_2xx-Found_loops decode send clock (balance_call (address_of q)) (n ∷ ns) s),
        subst
            (SendsOnly (ToUnthrottled decode send clock (balance_call (address_of q)) (n ∷ ns) s) s)
            (sym (answered-sent (str "all upstreams failed") call))
            (first_2xx-SendsOnly decode send clock (balance_call (address_of q)) (n ∷ ns) s),
      )
