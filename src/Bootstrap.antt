-- ===== src/Bootstrap.antt =====
-- pkg/bootstrap, and initBootstrap of cmd/app/bootstrap.go: a member that starts announces itself
-- to another, which answers with its peers. `mac` is the HMAC with SHA-256 in hex, of a key and a
-- text, `format_int` is strconv.FormatInt with base 10, and the codecs are encoding/json; `post` is
-- http.Post, with the status and the body of the answer, if there is one.
pub mod Admission
pub mod Joining
mod Tests
use mezzium.Base.{ℕ, not, Option, none, some, List, [], ◌∷◌, ◌++◌, eqb, if◌then◌else◌}
use mezzium.Base.Int.{ℤ, pos}
use mezzium.Text.{Str, str, ◌==◌}
use mezzium.Peers.{Peer, Store, new_store, add, list}

pub record AnnounceRequest : Type 0 where
  pub id : Str
  pub name : Str
  pub internal_addr : Str
  pub timestamp : ℤ
  pub signature : Str

pub record Handler : Type 0 where
  pub store : Store
  pub my_id : Str
  pub my_addr : Str
  pub secret : Str

pub data AnnounceReply : Type 0 where
  peers : List Peer → AnnounceReply
  http_error : (code : ℕ) → (message : Str) → AnnounceReply

pub record Codecs : Type 0 where
  pub mac : Str → Str → Str
  pub format_int : ℤ → Str
  pub write_request : AnnounceRequest → Str
  pub read_request : Str → Option AnnounceRequest
  pub write_response : List Peer → Str
  pub read_response : Str → Option (List Peer)

unfoldable pub new_peer : Str → Str → Peer
new_peer id addr = record { id = id; addr = addr; failures = pos 0 }

module _ (c : Codecs) where
  unfoldable pub sign : (secret id name addr : Str) → ℤ → Str
  sign secret id name addr timestamp =
      c.mac secret (id ++ (name ++ (addr ++ c.format_int timestamp)))

  -- The request of Announce.
  unfoldable pub announcement : (id name addr secret : Str) → ℤ → AnnounceRequest
  unfolding sign
  announcement id name addr secret now = record {
    id = id;
    name = name;
    internal_addr = addr;
    timestamp = now;
    signature = sign secret id name addr now;
  }

  unfoldable pub announce :
      (Str → Str → Option (ℕ × Str))
      → (server_url id name addr secret : Str) → ℤ
      → Option (List Peer)
  unfolding announcement
  announce post server_url id name addr secret now =
      elim (post (server_url ++ str "/announce")
        (c.write_request (announcement id name addr secret now))) [
          | none ↦ none
          | some (code, body) ↦ if eqb code 200 then c.read_response body else none
        ]

  -- What a request whose signature is right does.
  unfoldable pub admit : Handler → AnnounceRequest → AnnounceReply × Handler
  unfolding new_peer
  admit h q =
      let store = add (new_peer q.id q.internal_addr) h.store in
      (peers (list store ++ new_peer h.my_id h.my_addr ∷ []), record h { store = store })

  -- The handler once the request is read.
  unfoldable pub accept : Handler → AnnounceRequest → AnnounceReply × Handler
  unfolding sign admit
  accept h q =
      if sign h.secret q.id q.name q.internal_addr q.timestamp == q.signature
      then admit h q
      else (http_error 403 (str "invalid signature"), h)

  -- Handler.ServeHTTP
  unfoldable pub serve_http : Handler → (method body : Str) → AnnounceReply × Handler
  unfolding accept
  serve_http h method body =
      if method == str "POST"
      then elim (c.read_request body) [
        | none ↦ (http_error 400 (str "invalid JSON"), h)
        | some q ↦ accept h q
      ]
      else (http_error 405 (str "method not allowed"), h)

  -- The loop over the peers of the answer.
  unfoldable pub add_others : Str → List Peer → Store → Store
  add_others node_id [] s = s
  add_others node_id (p ∷ ps) s = add_others node_id ps (if p.id == node_id then s else add p s)

  unfoldable learn : Str → Option (List Peer) → Store → Store
  unfolding add_others
  learn node_id none s = s
  learn node_id (some ps) s = add_others node_id ps s

  unfoldable pub init_bootstrap :
      (Str → Str → Option (ℕ × Str))
      → (bootstrap_url node_id pod_name internal_addr secret : Str) → ℤ
      → Store
  unfolding announce learn new_peer
  init_bootstrap post bootstrap_url node_id pod_name internal_addr secret now =
      let own = add (new_peer node_id internal_addr) new_store in
      if bootstrap_url == []
      then own
      else learn node_id (announce post bootstrap_url node_id pod_name internal_addr secret now) own
