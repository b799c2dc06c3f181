-- ===== src/Public/Redacted.antt =====
-- ActiveNodes of pkg/api/public.go shows no secret of the environment.
use mezzium.Base.{
  ◌≡◌, ◌≢◌, inl, inr, false, not, ◌&&◌, Option, none, some, List, [], ◌∷◌, arith, Bool-cases, In,
  All, All-append, All_at,
}
use mezzium.Text.{Str, str, ◌==◌, contains}
use mezzium.Text.Laws.{eq_iff}
use mezzium.Registry.{Registry}
use mezzium.Registry.Pick.{NodeWithPing}
use mezzium.Secrets.{
  init_sensitive_envs, redact_string, sensitive_value, name_and_value, contains_any, to_upper,
  env_name_sensitive_patterns,
}
use mezzium.Secrets.Redaction.{IsUnmarked, contains-redact_string_none}
use mezzium.Public.Nodes.{
  LiteNode, FullNode, NodesReply, lite, full, lite_nodes, full_nodes, lite_all, full_all,
  active_nodes,
}

sensitive_value-All : (o : Option (Str × Str)) → All (λ (v : Str). v ≢ []) (sensitive_value o)
unfolding sensitive_value
sensitive_value-All none = tt
sensitive_value-All (some (name, value)) =
    elim (Bool-cases
      (contains_any (to_upper name) env_name_sensitive_patterns && not (value == []))) [
        | inl e ↦ rw (e, sensitive_value) ((λ k. ground (arith, e, (eq_iff value []).1 k)), tt)
        | inr e ↦ rw (e, sensitive_value) tt
      ]

init_sensitive_envs-All :
    (environ : List Str) → All (λ (v : Str). v ≢ []) (init_sensitive_envs environ)
unfolding init_sensitive_envs
init_sensitive_envs-All [] = tt
init_sensitive_envs-All (kv ∷ environ) =
    All-append (λ (v : Str). v ≢ []) (sensitive_value (name_and_value kv))
      (init_sensitive_envs environ) (sensitive_value-All (name_and_value kv))
      (init_sensitive_envs-All environ)

-- The URLs of an answer do not contain a value.
abbrev pub Hides : Str → NodesReply → Type 0
Hides v (lite d) =
    All (λ (e : Str × List LiteNode). All (λ (n : LiteNode). contains n.url v ≡ false) e.1) d
Hides v (full d) =
    All (λ (e : Str × List FullNode). All (λ (n : FullNode). contains n.url v ≡ false) e.1) d

module _ (vals : List Str) (v : Str)
    (gone : (s : Str) → contains (redact_string vals s) v ≡ false) where
  lite_nodes-All :
      (ns : List NodeWithPing)
      → All (λ (n : LiteNode). contains n.url v ≡ false) (lite_nodes vals ns)
  unfolding lite_nodes
  lite_nodes-All [] = tt
  lite_nodes-All (n ∷ ns) = (gone n.url, lite_nodes-All ns)

  full_nodes-All :
      (ns : List NodeWithPing)
      → All (λ (n : FullNode). contains n.url v ≡ false) (full_nodes vals ns)
  unfolding full_nodes
  full_nodes-All [] = tt
  full_nodes-All (n ∷ ns) = (gone n.url, full_nodes-All ns)

  lite_all-Hides : (r : Registry) → Hides v (lite (lite_all vals r))
  unfolding lite_all
  lite_all-Hides [] = tt
  lite_all-Hides ((name, st) ∷ r) = (lite_nodes-All st.best, lite_all-Hides r)

  full_all-Hides : (r : Registry) → Hides v (full (full_all vals r))
  unfolding full_all
  full_all-Hides [] = tt
  full_all-Hides ((name, st) ∷ r) = (full_nodes-All st.best, full_all-Hides r)

-- No URL that ActiveNodes writes contains a value of the environment whose name marks it as a
-- secret, if that value has no byte of the mark "[HIDDEN]", whatever the method is.
pub active_nodes-Hides :
    (environ : List Str) (r : Registry) (method v : Str)
    → In v (init_sensitive_envs environ)
    → IsUnmarked v
    → Hides v (active_nodes environ r method)
unfolding active_nodes
active_nodes-Hides environ r method v i u =
    let vals = init_sensitive_envs environ in
    let ne : v ≢ [] = All_at (λ (x : Str). x ≢ []) v vals (init_sensitive_envs-All environ) i in
    let gone = λ (s : Str). contains-redact_string_none vals s v i ne u in
    elim (Bool-cases (method == str "POST")) [
      | inl e ↦ rw (e, active_nodes) (lite_all-Hides vals v gone r)
      | inr e ↦ rw (e, active_nodes) (full_all-Hides vals v gone r)
    ]
