-- ===== src/Health/Checks.antt =====
-- pkg/health: the checks of one upstream, and the set of URLs to drop.
use mezzium.Base.{
  ℕ, Bool, true, false, not, ◌&&◌, ◌||◌, Option, none, some, List, [], ◌∷◌, ◌++◌, ltb, leb, eqb,
  if◌then◌else◌,
}
use mezzium.Base.Int.{ℤ, pos}
use mezzium.Text.{Str, str, ◌==◌, to_lower, contains}
use mezzium.Dict.{Dict}
use mezzium.Networks.{Node}

-- `headers` are the calls of Header.Set in their order, `rpc` is the JSON-RPC method of the body,
-- and `tor` and `timeout` are those of the client that sends the request.
pub record Request : Type 0 where
  pub method : Str
  pub url : Str
  pub rpc : Str
  pub headers : Dict Str
  pub tor : Bool
  pub timeout : ℤ

-- An error of the HTTP client: whether it wraps a net.DNSError, or a net.OpError for ECONNREFUSED,
-- and its text.
pub record NetError : Type 0 where
  pub dns : Bool
  pub refused : Bool
  pub text : Str

-- `result` is the field of that name in the JSON body, `none` where the body cannot be decoded;
-- `elapsed` is the time since the check began, in milliseconds.
pub data Reply : Type 0 where
  failed : NetError → Reply
  answered : ℕ → ℤ → Option Str → Reply

unfoldable pub is_fatal_http_status : ℕ → Bool
is_fatal_http_status code =
    if eqb code 0 then false else leb 400 code && ltb code 500 && not (eqb code 429)

unfoldable pub is_fatal_net_err : NetError → Bool
is_fatal_net_err e =
    if e.dns
    then true
    else if e.refused
    then true
    else if contains e.text (str "unsupported protocol scheme")
    then true
    else if contains (to_lower e.text) (str "no such host")
    then true
    else contains (to_lower e.text) (str "x509:") || contains (to_lower e.text) (str "tls")

-- dropURLs, a set.
abbrev pub Drops : Type 0
Drops = List Str

unfoldable pub has : Str → Drops → Bool
has url [] = false
has url (u ∷ us) = if u == url then true else has url us

unfoldable pub mark_drop : Str → Drops → Drops
unfolding has
mark_drop url drops = if has url drops then drops else url ∷ drops

pub record Verdict : Type 0 where
  pub alive : Bool
  pub ping : ℤ
  pub drops : Drops

unfoldable pub is_2xx : ℕ → Bool
is_2xx code = leb 200 code && ltb code 300

-- What every check does with its reply.
unfoldable pub judge : Str → Reply → Drops → Verdict
unfolding is_fatal_net_err is_fatal_http_status mark_drop is_2xx
judge url (failed e) drops = record {
  alive = false;
  ping = pos 0;
  drops = if is_fatal_net_err e then mark_drop url drops else drops;
}
judge url (answered status elapsed result) drops =
    if is_2xx status then record { alive = true; ping = elapsed; drops = drops } else record {
      alive = false;
      ping = pos 0;
      drops = if is_fatal_http_status status then mark_drop url drops else drops;
    }

-- What checkEVM adds: the body must hold a result.
unfoldable pub judge_result : Reply → Verdict → Verdict
judge_result (failed e) v = v
judge_result (answered status elapsed none) v = record v { alive = false; ping = pos 0 }
judge_result (answered status elapsed (some result)) v =
    if result == [] then record v { alive = false; ping = pos 0 } else v

abbrev pub json_type : Str × Str
json_type = (str "content-type", str "application/json")

-- The requests of the checks, to a node with a client of a timeout.
unfoldable pub get : ℤ → Node → Str → Dict Str → Request
get timeout n url headers = record {
  method = str "GET";
  url = url;
  rpc = [];
  headers = headers;
  tor = n.tor;
  timeout = timeout;
}

unfoldable pub post : ℤ → Node → Str → Str → Dict Str → Request
post timeout n url rpc headers = record {
  method = str "POST";
  url = url;
  rpc = rpc;
  headers = headers;
  tor = n.tor;
  timeout = timeout;
}

unfoldable pub check_evm : (Request → Reply) → Node → ℤ → Drops → Verdict
unfolding judge judge_result post
check_evm send n timeout drops =
    let reply : Reply =
      send (post timeout n n.url (str "eth_blockNumber") (n.headers ++ json_type ∷ [])) in
    judge_result reply (judge n.url reply drops)

unfoldable pub trim_suffix_slash : Str → Str
trim_suffix_slash [] = []
trim_suffix_slash (c ∷ []) = if eqb c b'/' then [] else c ∷ []
trim_suffix_slash (c ∷ d ∷ s) = c ∷ trim_suffix_slash (d ∷ s)

unfoldable pub has_suffix : Str → Str → Bool
has_suffix [] t = [] == t
has_suffix (c ∷ s) t = if (c ∷ s) == t then true else has_suffix s t

unfoldable pub check_btc : (Request → Reply) → Node → ℤ → Drops → Verdict
unfolding judge get post trim_suffix_slash has_suffix
check_btc send n timeout drops =
    let u = trim_suffix_slash n.url in
    if contains u (str "blockstream.info") || has_suffix u (str "/api")
    then judge n.url (send (get timeout n (u ++ str "/blocks/tip/height") [])) drops
    else if contains u (str "gateway.tatum.io")
    then judge n.url (send (post timeout n u (str "getblockcount") (n.headers ++ json_type ∷ [])))
        drops
    else record { alive = false; ping = pos 0; drops = drops }

unfoldable pub check_doge : (Request → Reply) → Node → ℤ → Drops → Verdict
unfolding judge get post trim_suffix_slash
check_doge send n timeout drops =
    let u = trim_suffix_slash n.url in
    if contains n.url (str "tatum.io")
    then judge n.url (send (post timeout n u (str "getblockcount") (json_type ∷ n.headers))) drops
    else judge n.url (send (get timeout n (u ++ str "/rest/chaininfo.json") [])) drops

unfoldable pub check_ltc : (Request → Reply) → Node → ℤ → Drops → Verdict
unfolding judge get post trim_suffix_slash
check_ltc send n timeout drops =
    let u = trim_suffix_slash n.url in
    if contains n.url (str "tatum.io")
    then judge n.url (send (post timeout n u (str "getblockcount") (json_type ∷ n.headers))) drops
    else judge n.url (send (get timeout n (u ++ str "/rest/chaininfo.json") [])) drops

unfoldable pub check_sol : (Request → Reply) → Node → ℤ → Drops → Verdict
unfolding judge post
check_sol send n timeout drops =
    judge n.url (send (post timeout n n.url (str "getSlot") (n.headers ++ json_type ∷ []))) drops

unfoldable pub check_trx : (Request → Reply) → Node → ℤ → Drops → Verdict
unfolding judge get post trim_suffix_slash
check_trx send n timeout drops =
    let u = trim_suffix_slash n.url in
    if contains n.url (str "tatum.io")
    then judge n.url (send (get timeout n (u ++ str "/wallet/getnodeinfo") n.headers)) drops
    else judge n.url
        (send (post timeout n (u ++ str "/wallet/getnowblock") [] (json_type ∷ n.headers))) drops

-- The switch of UpdateNetwork.
unfoldable pub check : Str → (Request → Reply) → Node → ℤ → Drops → Verdict
unfolding check_evm check_btc check_trx check_ltc check_doge check_sol
check protocol send n timeout drops =
    if protocol == str "evm"
    then check_evm send n timeout drops
    else if protocol == str "btc"
    then check_btc send n timeout drops
    else if protocol == str "trx"
    then check_trx send n timeout drops
    else if protocol == str "ltc"
    then check_ltc send n timeout drops
    else if protocol == str "doge"
    then check_doge send n timeout drops
    else if protocol == str "sol"
    then check_sol send n timeout drops
    else record { alive = false; ping = pos 0; drops = drops }
