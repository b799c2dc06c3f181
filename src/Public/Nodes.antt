-- ===== src/Public/Nodes.antt =====
-- ActiveNodes of pkg/api/public.go: the best nodes of each network, with the secrets of the
-- environment redacted in their URLs.
use mezzium.Base.{Bool, List, [], ◌∷◌, if◌then◌else◌}
use mezzium.Base.Int.{ℤ}
use mezzium.Text.{Str, str, ◌==◌}
use mezzium.Dict.{Dict}
use mezzium.Registry.{Registry}
use mezzium.Registry.Pick.{NodeWithPing}
use mezzium.Secrets.{init_sensitive_envs, redact_string}

pub record LiteNode : Type 0 where
  pub url : Str
  pub priority : ℤ

pub record FullNode : Type 0 where
  pub url : Str
  pub priority : ℤ
  pub alive : Bool
  pub ping : ℤ

-- The answer to a POST request, and to any other; both have the status 200. No nodes are written as [] in the
-- first and as null in the second.
pub data NodesReply : Type 0 where
  lite : Dict (List LiteNode) → NodesReply
  full : Dict (List FullNode) → NodesReply

unfoldable pub lite_nodes : List Str → List NodeWithPing → List LiteNode
lite_nodes vals [] = []
lite_nodes vals (n ∷ ns) =
    record { url = redact_string vals n.url; priority = n.priority } ∷ lite_nodes vals ns

unfoldable pub full_nodes : List Str → List NodeWithPing → List FullNode
full_nodes vals [] = []
full_nodes vals (n ∷ ns) =
    record { url = redact_string vals n.url; priority = n.priority; alive = n.alive; ping = n.ping }
    ∷ full_nodes vals ns

unfoldable pub lite_all : List Str → Registry → Dict (List LiteNode)
unfolding lite_nodes
lite_all vals [] = []
lite_all vals ((name, st) ∷ r) = (name, lite_nodes vals st.best) ∷ lite_all vals r

unfoldable pub full_all : List Str → Registry → Dict (List FullNode)
unfolding full_nodes
full_all vals [] = []
full_all vals ((name, st) ∷ r) = (name, full_nodes vals st.best) ∷ full_all vals r

unfoldable pub active_nodes : (environ : List Str) → Registry → (method : Str) → NodesReply
unfolding lite_all full_all
active_nodes environ r method =
    if method == str "POST"
    then lite (lite_all (init_sensitive_envs environ) r)
    else full (full_all (init_sensitive_envs environ) r)
