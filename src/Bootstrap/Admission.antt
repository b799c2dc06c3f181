-- ===== src/Bootstrap/Admission.antt =====
-- Whom the handler of pkg/bootstrap/handler.go admits.
use mathlib.Core.List.{append_assoc}
use mezzium.Base.{
  ℕ, ◌≡◌, refl, sym, ap, ◌∙◌, ◌⊎◌, inl, inr, some, [], ◌∷◌, ◌++◌, Bool-cases, Option-cases,
}
use mezzium.Text.{Str, str, ◌==◌}
use mezzium.Text.Laws.{eq_iff, eq_of_test}
use mezzium.Peers.{add, list}
use mezzium.Bootstrap.{
  AnnounceRequest, Handler, AnnounceReply, peers, http_error, Codecs, new_peer, sign, accept, admit,
  serve_http,
}

module _ (c : Codecs) where
  -- The request carries the signature that the handler's secret gives.
  abbrev pub IsSigned : Handler → AnnounceRequest → Type 0
  IsSigned h q = sign c h.secret q.id q.name q.internal_addr q.timestamp ≡ q.signature

  -- What a request that is accepted does: its sender is stored, and the answer has all the peers.
  abbrev pub IsAdmitted : Handler → AnnounceRequest → AnnounceReply × Handler → Type 0
  IsAdmitted h q r =
      let store = add (new_peer q.id q.internal_addr) h.store in
      r ≡ (peers (list store ++ new_peer h.my_id h.my_addr ∷ []), record h { store = store })

  -- A request is answered with peers only if it is a POST request which is signed with the handler's
  -- secret; then its sender is stored with its address, and the answer is all the peers then stored
  -- and the handler itself. Any other is answered with an error and changes nothing.
  pub serve_http-IsSigned :
      (h : Handler) (method body : Str)
      → ((q : AnnounceRequest) × (method ≡ str "POST")
          × (c.read_request body ≡ some q)
          × IsSigned h q
          × IsAdmitted h q (serve_http c h method body))
        ⊎ ((code : ℕ) × (message : Str) × (serve_http c h method body
              ≡ (http_error code message, h)))
  unfolding serve_http accept admit
  serve_http-IsSigned h method body = elim (Bool-cases (method == str "POST")) [
    | inr e ↦ inr (405, str "method not allowed", rw (e, serve_http) refl)
    | inl e ↦ elim (Option-cases (c.read_request body)) [
      | inl r ↦ inr (400, str "invalid JSON", rw (e, serve_http) (rw r refl))
      | inr (q, r) ↦
          elim (Bool-cases
            (sign c h.secret q.id q.name q.internal_addr q.timestamp == q.signature)) [
              | inl s ↦ inl (
                q,
                eq_of_test method (str "POST") e,
                r,
                eq_of_test _ q.signature s,
                rw (e, serve_http) (rw (r, accept) (rw s refl)),
              )
              | inr s ↦
                  inr
                    (403, str "invalid signature", rw (e, serve_http) (rw (r, accept) (rw s refl)))
            ]
    ]
  ]

  -- The signature does not tell the fields apart: of a request that is admitted, another with the
  -- same signature, where the end of the id has moved to the start of the name, is admitted too, and
  -- its sender stored under the id that is left.
  pub accept_shifted :
      (h : Handler) (q : AnnounceRequest) (id moved : Str)
      → q.id ≡ id ++ moved
      → IsSigned h q
      → IsAdmitted h
          (record q { id = id; name = moved ++ q.name })
          (accept c h (record q { id = id; name = moved ++ q.name }))
  unfolding accept admit sign
  accept_shifted h q id moved e s =
      let rest = q.internal_addr ++ c.format_int q.timestamp in
      let same : sign c h.secret id (moved ++ q.name) q.internal_addr q.timestamp ≡ q.signature =
        ap (c.mac h.secret) (
          ap (λ l. id ++ l) (append_assoc moved q.name rest)
          ∙ sym (append_assoc id moved (q.name ++ rest))
          ∙ ap (λ i. i ++ (q.name ++ rest)) (sym e))
        ∙ s in
      rw
        (
          (eq_iff (sign c h.secret id (moved ++ q.name) q.internal_addr q.timestamp) q.signature).1
              same,
          accept,
        )
        refl
