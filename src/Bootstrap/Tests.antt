-- ===== src/Bootstrap/Tests.antt =====
-- A member that announces itself, with a MAC that is the key before the text.
use mezzium.Base.{ℕ, ◌≡◌, refl, sym, ap, ◌≢◌, ◌⊎◌, true, Option, some, List, [], ◌∷◌, ◌++◌, All}
use mezzium.Base.Int.{pos}
use mezzium.Text.{Str, str, ◌==◌}
use mezzium.Dict.{lookup, insert}
use mezzium.Peers.{Peer, add, list, exists}
use mezzium.Bootstrap.{
  AnnounceRequest, Handler, http_error, Codecs, new_peer, sign, announcement, accept, serve_http,
  init_bootstrap,
}
use mezzium.Bootstrap.Admission.{IsSigned, IsAdmitted, serve_http-IsSigned, accept_shifted}
use mezzium.Bootstrap.Joining.{RoundTrips, over_network, init_bootstrap_joins, answer_of_all}

abbrev request : AnnounceRequest
request = record {
  id = str "id7";
  name = str "pod";
  internal_addr = str "addr";
  timestamp = pos 5;
  signature = str "keyid7podaddr5";
}

abbrev handler : Handler
handler = record {
  store = (str "other", record { id = str "other"; addr = str "there"; failures = pos 1 }) ∷ [];
  my_id = str "me";
  my_addr = str "here";
  secret = str "key";
}

abbrev all_peers : List Peer
all_peers =
    record { id = str "other"; addr = str "there"; failures = pos 1 }
    ∷ record { id = str "id7"; addr = str "addr"; failures = pos 0 }
    ∷ record { id = str "me"; addr = str "here"; failures = pos 0 }
    ∷ []

abbrev codecs : Codecs
codecs = record {
  mac = λ key text. key ++ text;
  format_int = λ n. str "5";
  write_request = λ q. str "request";
  read_request = λ body. some request;
  write_response = λ ps. str "response";
  read_response = λ body. some all_peers;
}

serve_http-IsSigned_example :
    ((q : AnnounceRequest) × (str "POST" ≡ str "POST")
      × (some request ≡ some q)
      × IsSigned codecs handler q
      × IsAdmitted codecs handler q (serve_http codecs handler (str "POST") (str "request")))
    ⊎ ((code : ℕ) × (message : Str) × (serve_http codecs handler (str "POST") (str "request")
          ≡ (http_error code message, handler)))
serve_http-IsSigned_example = serve_http-IsSigned codecs handler (str "POST") (str "request")

signed : IsSigned codecs handler request
unfolding sign
signed = refl

accept_shifted_example :
    IsAdmitted codecs handler
      (record request { id = str "id"; name = str "7pod" })
      (accept codecs handler (record request { id = str "id"; name = str "7pod" }))
accept_shifted_example = accept_shifted codecs handler request (str "id") (str "7") refl signed

sent : announcement codecs (str "id7") (str "pod") (str "addr") (str "key") (pos 5) ≡ request
unfolding announcement
sent = refl

answered :
    answer_of_all codecs handler (str "url") (str "id7") (str "pod") (str "addr") (pos 5)
    ≡ all_peers
unfolding add list insert ◌==◌ new_peer
answered = refl

trips : RoundTrips codecs handler (str "url") (str "id7") (str "pod") (str "addr") (pos 5)
trips = (ap some (sym sent), ap some (sym answered))

abbrev post : Str → Str → Option (ℕ × Str)
post url body = some (
    over_network codecs handler (str "url") (str "id7") (str "pod") (str "addr") (pos 5)
      (serve_http codecs handler (str "POST") body).0)

url_given : str "url" ≢ []
url_given e = cc e

init_bootstrap_joins_example :
    (lookup (str "id7") (serve_http codecs handler (str "POST") (str "request")).1.store
      ≡ some (new_peer (str "id7") (str "addr")))
    × (lookup (str "id7") (
          init_bootstrap codecs post
            (str "url")
            (str "id7")
            (str "pod")
            (str "addr")
            (str "key")
            (pos 5))
        ≡ some (new_peer (str "id7") (str "addr")))
    × (exists
          (init_bootstrap codecs post
            (str "url")
            (str "id7")
            (str "pod")
            (str "addr")
            (str "key")
            (pos 5))
          (str "me")
        ≡ true)
    × All
        (λ (p : Peer).
          exists
            (init_bootstrap codecs post
              (str "url")
              (str "id7")
              (str "pod")
              (str "addr")
              (str "key")
              (pos 5))
            p.id
          ≡ true)
        (list (serve_http codecs handler (str "POST") (str "request")).1.store)
init_bootstrap_joins_example =
    init_bootstrap_joins codecs handler (str "url") (str "id7") (str "pod") (str "addr") (pos 5)
      post trips (λ body. refl) url_given
