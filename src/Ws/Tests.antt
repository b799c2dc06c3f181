-- ===== src/Ws/Tests.antt =====
-- Websockets, pkg/api/ws.go: an opening, and a session.
use mezzium.Base.{◌≡◌, refl, true, false, none, some, List, [], ◌∷◌, All}
use mezzium.Text.{Str, str, ◌==◌, has_prefix, trim_prefix, split}
use mezzium.Base.Int.{pos}
use mezzium.Registry.{Registry, NetworkState}
use mezzium.Ws.{
  http_error, joined, serve_ws, Message, Session, Event, from_client, from_upstream, opened, run,
}
use mezzium.Ws.Copying.{Carries, client_messages, upstream_messages, run-Carries}
use mezzium.Ws.Holding.{IsCalm, run-serving}

abbrev state : Str → NetworkState
state url = record {
  protocol = str "evm";
  route = str "/eth";
  all = [];
  best =
      record {
        node = record { url = url; priority = pos 1; headers = []; tor = false };
        alive = true;
        ping = pos 3;
      }
      ∷ [];
  discovered = [];
  timeout_ms = pos 0;
  gas = none;
}

joins :
    serve_ws true (λ url. true) ((str "eth", state (str "wss://a")) ∷ []) (str "/ws/eth/x")
    ≡ joined (str "wss://a")
unfolding serve_ws ◌==◌ mezzium.Registry.best_of mezzium.Dict.lookup split trim_prefix has_prefix
joins = refl

refuses :
    serve_ws true (λ url. true) ((str "eth", state (str "https://a")) ∷ []) (str "/ws/eth")
    ≡ http_error 502 (str "upstream is not websocket")
unfolding serve_ws ◌==◌ mezzium.Registry.best_of mezzium.Dict.lookup split trim_prefix has_prefix
refuses = refl

abbrev said : Message
said = record { kind = 1; payload = str "eth_subscribe" }

abbrev news : Message
news = record { kind = 1; payload = str "0x1" }

abbrev events : List Event
events =
    from_client said true
    ∷ from_upstream news true
    ∷ from_client said false
    ∷ from_upstream news true
    ∷ []

abbrev after : Session
after = record {
  forwarding = false;
  serving = true;
  to_upstream = said ∷ [];
  to_client = news ∷ news ∷ [];
}

ran : run events opened ≡ some after
unfolding run opened
ran = refl

run-Carries_example :
    Carries false (client_messages events) (said ∷ [])
    × Carries true (upstream_messages events) (news ∷ news ∷ [])
run-Carries_example = run-Carries events after ran

calm : All IsCalm events
calm = (
  ((λ e. cc e), (λ m e. cc e)),
  (
    ((λ e. cc e), (λ m e. cc e)),
    (((λ e. cc e), (λ m e. cc e)), (((λ e. cc e), (λ m e. cc e)), tt)),
  ),
)

run-serving_example : after.serving ≡ true
run-serving_example = run-serving events after ran calm
