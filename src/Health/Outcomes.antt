-- ===== src/Health/Outcomes.antt =====
-- What a check, and UpdateNetwork, conclude from the replies.
use mezzium.Base.{
  ◌≤◌, ◌<◌, ◌≡◌, refl, sym, subst, ◌≢◌, ◌⊎◌, inl, inr, Bool, true, false, none, some, [], ◌∷◌, ◌++◌,
  arith, if◌then◌else◌, Bool-cases,
}
use mezzium.Text.{Str, str, ◌==◌, to_lower, has_prefix, contains}
use mezzium.Base.Int.{ℤ, pos}
use mezzium.Networks.{Node}
use mezzium.Dict.{Dict}
use mezzium.Health.Checks.{
  NetError, get, trim_suffix_slash, post, json_type, Request, Reply, failed, answered, Drops,
  Verdict, mark_drop, is_fatal_net_err, is_fatal_http_status, is_2xx, judge, judge_result,
  check_evm, check_btc, check_ltc, check_sol, check_trx, check, get,
}

-- An error of DNS, a refused connection, a scheme that net/http does not know, or a text that speaks
-- of an unknown host, of x509 or of TLS.
abbrev pub IsFatalError : NetError → Type 0
IsFatalError e =
    (e.dns ≡ true)
    ⊎ (e.refused ≡ true)
    ⊎ (contains e.text (str "unsupported protocol scheme") ≡ true)
    ⊎ (contains (to_lower e.text) (str "no such host") ≡ true)
    ⊎ (contains (to_lower e.text) (str "x509:") ≡ true)
    ⊎ (contains (to_lower e.text) (str "tls") ≡ true)

is_fatal_net_err-IsFatalError : (e : NetError) → is_fatal_net_err e ≡ true → IsFatalError e
unfolding is_fatal_net_err
is_fatal_net_err-IsFatalError e h = ground (arith, h)

-- The upstream is to be dropped: a fatal error of the client, or a client error other than 429.
abbrev pub IsFatal : Reply → Type 0
IsFatal (failed e) = IsFatalError e
IsFatal (answered status elapsed result) = (400 ≤ status) × (status < 500) × (status ≢ 429)

-- The upstream answered with success, in that time.
abbrev pub IsServed : ℤ → Reply → Type 0
IsServed ping (failed e) = ⊥
IsServed ping (answered status elapsed result) = (200 ≤ status) × (status < 300) × (ping ≡ elapsed)

-- The request goes to the URL of the node, or below it.
abbrev pub IsTo : Str → Request → Type 0
IsTo url req = has_prefix req.url (trim_suffix_slash url) ≡ true

-- The three ways in which a check ends.
pub data Outcome (send : Request → Reply) (url : Str) (drops : Drops) (v : Verdict) : Type 0 where
  served :
      (req : Request)
      → IsTo url req
      → v.alive ≡ true
      → v.drops ≡ drops
      → IsServed v.ping (send req)
      → Outcome send url drops v
  dead : v.alive ≡ false → v.drops ≡ drops → Outcome send url drops v
  dropped :
      (req : Request)
      → IsTo url req
      → v.alive ≡ false
      → v.drops ≡ mark_drop url drops
      → IsFatal (send req)
      → Outcome send url drops v

judge-Outcome :
    (send : Request → Reply) (url : Str) (drops : Drops) (req : Request) (reply : Reply)
    → IsTo url req
    → send req ≡ reply
    → Outcome send url drops (judge url reply drops)
unfolding judge
judge-Outcome send url drops req (failed e) to same = elim (Bool-cases (is_fatal_net_err e)) [
  | inl fatal ↦
      dropped req to refl (rw fatal refl) (rw same (is_fatal_net_err-IsFatalError e fatal))
  | inr mild ↦ dead refl (rw mild refl)
]
judge-Outcome send url drops req (answered status elapsed result) to same =
    elim (Bool-cases (is_2xx status)) [
      | inl good ↦ rw good (served req to refl refl (rw same (unfold is_2xx in ground arith)))
      | inr bad ↦ elim (Bool-cases (is_fatal_http_status status)) [
        | inl fatal ↦
            rw (bad, fatal)
              (dropped req to refl refl (rw same (unfold is_fatal_http_status in ground arith)))
        | inr mild ↦ rw (bad, mild) (dead refl refl)
      ]
    ]

-- A verdict turned to "not alive" is still an outcome.
silenced :
    (send : Request → Reply) (url : Str) (drops : Drops) (v : Verdict)
    → Outcome send url drops v
    → Outcome send url drops (record v { alive = false; ping = pos 0 })
silenced send url drops v (served req to a d s) = dead refl d
silenced send url drops v (dead a d) = dead refl d
silenced send url drops v (dropped req to a d f) = dropped req to refl d f

judge_result-Outcome :
    (send : Request → Reply) (url : Str) (drops : Drops) (v : Verdict) (reply : Reply)
    → Outcome send url drops v
    → Outcome send url drops (judge_result reply v)
unfolding judge_result
judge_result-Outcome send url drops v (failed e) o = o
judge_result-Outcome send url drops v (answered status elapsed none) o = silenced send url drops v o
judge_result-Outcome send url drops v (answered status elapsed (some result)) o =
    elim (Bool-cases (result == [])) [
      | inl empty ↦ rw empty (silenced send url drops v o)
      | inr full ↦ rw full o
    ]

has_prefix_self : (s : Str) → has_prefix s s ≡ true
unfolding has_prefix
has_prefix_self [] = refl
has_prefix_self (c ∷ s) = ground (arith, has_prefix_self s)

has_prefix-append : (s t : Str) → has_prefix (s ++ t) s ≡ true
unfolding has_prefix
has_prefix-append [] [] = refl
has_prefix-append [] (c ∷ t) = refl
has_prefix-append (c ∷ s) t = ground (arith, has_prefix-append s t)

has_prefix-trim_suffix_slash : (s : Str) → has_prefix s (trim_suffix_slash s) ≡ true
unfolding has_prefix trim_suffix_slash
has_prefix-trim_suffix_slash [] = refl
has_prefix-trim_suffix_slash (c ∷ []) = ground arith
has_prefix-trim_suffix_slash (c ∷ d ∷ s) = ground (arith, has_prefix-trim_suffix_slash (d ∷ s))

module _ (send : Request → Reply) (n : Node) (timeout : ℤ) (drops : Drops) where
  abbrev Ends : Verdict → Type 0
  Ends v = Outcome send n.url drops v

  judged : (req : Request) → IsTo n.url req → Ends (judge n.url (send req) drops)
  judged req to = judge-Outcome send n.url drops req (send req) to refl

  judged_at :
      (req : Request) (url : Str)
      → req.url ≡ url
      → has_prefix url (trim_suffix_slash n.url) ≡ true
      → Ends (judge n.url (send req) drops)
  judged_at req url e h =
      judged req (subst (λ u. has_prefix u (trim_suffix_slash n.url) ≡ true) (sym e) h)

  -- Requests to the URL without the slash at its end, to a URL below it, and to the URL.
  get_below :
      (path : Str) (headers : Dict Str)
      → Ends (judge n.url (send (get timeout n (trim_suffix_slash n.url ++ path) headers)) drops)
  unfolding get
  get_below path headers =
      judged_at (get timeout n (trim_suffix_slash n.url ++ path) headers) _ refl
        (has_prefix-append (trim_suffix_slash n.url) path)

  post_below :
      (path rpc : Str) (headers : Dict Str)
      → Ends
          (judge n.url (send (post timeout n (trim_suffix_slash n.url ++ path) rpc headers)) drops)
  unfolding post
  post_below path rpc headers =
      judged_at (post timeout n (trim_suffix_slash n.url ++ path) rpc headers) _ refl
        (has_prefix-append (trim_suffix_slash n.url) path)

  post_trimmed :
      (rpc : Str) (headers : Dict Str)
      → Ends (judge n.url (send (post timeout n (trim_suffix_slash n.url) rpc headers)) drops)
  unfolding post
  post_trimmed rpc headers =
      judged_at (post timeout n (trim_suffix_slash n.url) rpc headers) _ refl
        (has_prefix_self (trim_suffix_slash n.url))

  post_to_url :
      (rpc : Str) (headers : Dict Str)
      → Ends (judge n.url (send (post timeout n n.url rpc headers)) drops)
  unfolding post
  post_to_url rpc headers =
      judged_at (post timeout n n.url rpc headers) _ refl (has_prefix-trim_suffix_slash n.url)

  Ends-if : (b : Bool) (v w : Verdict) → Ends v → Ends w → Ends (if b then v else w)
  Ends-if true v w h k = h
  Ends-if false v w h k = k

  unasked : Ends (record { alive = false; ping = pos 0; drops = drops })
  unasked = dead refl refl

  ruleset ending = (get_below, post_below, post_trimmed, post_to_url, Ends-if, unasked)

  check_evm-Ends : Ends (check_evm send n timeout drops)
  unfolding check_evm
  check_evm-Ends =
      let req = post timeout n n.url (str "eth_blockNumber") (n.headers ++ json_type ∷ []) in
      judge_result-Outcome send n.url drops (judge n.url (send req) drops) (send req)
        (post_to_url (str "eth_blockNumber") (n.headers ++ json_type ∷ []))

  check_btc-Ends : Ends (check_btc send n timeout drops)
  unfolding check_btc
  check_btc-Ends = search ending

  check_ltc-Ends : Ends (check_ltc send n timeout drops)
  unfolding check_ltc
  check_ltc-Ends = search ending

  check_sol-Ends : Ends (check_sol send n timeout drops)
  unfolding check_sol
  check_sol-Ends = search ending

  check_trx-Ends : Ends (check_trx send n timeout drops)
  unfolding check_trx
  check_trx-Ends = search ending

  -- Whatever the protocol, a check ends in one of three ways: the node is alive, some request of
  -- the check, to the node's URL or below it, was answered with success and nothing is marked; it is not alive and nothing is
  -- marked; or it is not alive, a reply was fatal, and the node's URL is marked to be dropped.
  pub check-Outcome :
      (protocol : Str) → Outcome send n.url drops (check protocol send n timeout drops)
  unfolding check
  check-Outcome protocol =
      search
        (
          Ends-if, unasked, check_evm-Ends, check_btc-Ends, check_trx-Ends, check_ltc-Ends,
          check_sol-Ends,
        )
        depth 8
