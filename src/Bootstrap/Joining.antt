-- ===== src/Bootstrap/Joining.antt =====
-- How a member that starts joins the others.
use mezzium.Base.{
  ℕ, ◌≡◌, refl, sym, ◌∙◌, subst, ◌≢◌, inl, inr, true, false, Option, some, List, [], ◌∷◌, ◌++◌,
  Bool-cases, All,
}
use mezzium.Base.Int.{ℤ}
use mezzium.Text.{Str, str, ◌==◌}
use mezzium.Text.Laws.{ne_of_test, eq_refl, eq_of_test}
use mezzium.Dict.{lookup}
use mezzium.Dict.Laws.{lookup-insert_self, lookup-insert_ne}
use mezzium.Peers.{exists, Peer, Store, new_store, add, list}
use mezzium.Bootstrap.{
  add_others, announcement, learn, init_bootstrap, announce, admit, new_peer, AnnounceRequest,
  Handler, AnnounceReply, peers, http_error, Codecs, sign, accept, serve_http,
}

exists_at : (s : Store) (id : Str) (p : Peer) → lookup id s ≡ some p → exists s id ≡ true
unfolding exists
exists_at s id p e = rw (e, exists) refl

exists-add_self : (p : Peer) (s : Store) → exists (add p s) p.id ≡ true
unfolding add
exists-add_self p s = exists_at (add p s) p.id p (lookup-insert_self p.id p s)

add_keeps : (p : Peer) (s : Store) (id : Str) → p.id ≢ id → lookup id (add p s) ≡ lookup id s
unfolding add
add_keeps p s id ne = lookup-insert_ne p.id id p s ne

exists-add : (p : Peer) (s : Store) (id : Str) → exists s id ≡ true → exists (add p s) id ≡ true
unfolding exists
exists-add p s id h = elim (Bool-cases (p.id == id)) [
  | inl e ↦ subst (λ k. exists (add p s) k ≡ true) (eq_of_test p.id id e) (exists-add_self p s)
  | inr e ↦ rw (add_keeps p s id (ne_of_test p.id id e), exists) h
]

module _ (c : Codecs) (node_id : Str) where
  add_others-exists :
      (ps : List Peer) (s : Store) (id : Str)
      → exists s id ≡ true
      → exists (add_others c node_id ps s) id ≡ true
  unfolding add_others
  add_others-exists [] s id h = h
  add_others-exists (p ∷ ps) s id h = elim (Bool-cases (p.id == node_id)) [
    | inl e ↦ rw (e, add_others) (add_others-exists ps s id h)
    | inr e ↦ rw (e, add_others) (add_others-exists ps (add p s) id (exists-add p s id h))
  ]

  add_others_own :
      (p : Peer) (ps : List Peer) (s : Store)
      → (p.id == node_id) ≡ true
      → add_others c node_id (p ∷ ps) s ≡ add_others c node_id ps s
  unfolding add_others
  add_others_own p ps s e = rw (e, add_others) refl

  add_others_other :
      (p : Peer) (ps : List Peer) (s : Store)
      → (p.id == node_id) ≡ false
      → add_others c node_id (p ∷ ps) s ≡ add_others c node_id ps (add p s)
  unfolding add_others
  add_others_other p ps s e = rw (e, add_others) refl

  add_others-All :
      (ps : List Peer) (s : Store)
      → exists s node_id ≡ true
      → All (λ (p : Peer). exists (add_others c node_id ps s) p.id ≡ true) ps
  add_others-All [] s h = tt
  add_others-All (p ∷ ps) s h = elim (Bool-cases (p.id == node_id)) [
    | inl e ↦
        subst (λ s'. All (λ (q : Peer). exists s' q.id ≡ true) (p ∷ ps))
          (sym (add_others_own p ps s e))
          (
            add_others-exists ps s p.id
                (subst (λ k. exists s k ≡ true) (sym (eq_of_test p.id node_id e)) h),
            add_others-All ps s h,
          )
    | inr e ↦
        subst (λ s'. All (λ (q : Peer). exists s' q.id ≡ true) (p ∷ ps))
          (sym (add_others_other p ps s e))
          (
            add_others-exists ps (add p s) p.id (exists-add_self p s),
            add_others-All ps (add p s) (exists-add p s node_id h),
          )
  ]

  add_others-lookup :
      (ps : List Peer) (s : Store) → lookup node_id (add_others c node_id ps s) ≡ lookup node_id s
  unfolding add_others
  add_others-lookup [] s = refl
  add_others-lookup (p ∷ ps) s = elim (Bool-cases (p.id == node_id)) [
    | inl e ↦ rw (e, add_others) (add_others-lookup ps s)
    | inr e ↦
        rw (e, add_others)
          (add_others-lookup ps (add p s) ∙ add_keeps p s node_id (ne_of_test p.id node_id e))
  ]

stored_own : (p : Peer) (s : Store) → lookup p.id (add p s) ≡ some p
unfolding add
stored_own p s = lookup-insert_self p.id p s

not_empty : (s : Str) → s ≢ [] → (s == []) ≡ false
unfolding ◌==◌
not_empty [] ne = absurd (ne refl)
not_empty (c ∷ s) ne = refl

All_last : (P : Peer → Type 0) (ps : List Peer) (p : Peer) → All P (ps ++ p ∷ []) → P p × All P ps
All_last P [] p h = (h.0, tt)
All_last P (q ∷ ps) p h = let (k, ks) = All_last P ps p h.1 in (k, (h.0, ks))

module _ (c : Codecs) (h : Handler) (bootstrap_url id pod_name addr : Str) (now : ℤ) where
  -- The answer of the member as it comes over the network.
  abbrev pub over_network : AnnounceReply → ℕ × Str
  over_network (peers ps) = (200, c.write_response ps)
  over_network (http_error code message) = (code, message)

  -- The request of the member that starts.
  abbrev pub sent_request : AnnounceRequest
  sent_request = announcement c id pod_name addr h.secret now

  -- The network brings a request to the member, and its answer back.
  abbrev pub Delivers : (Str → Str → Option (ℕ × Str)) → Type 0
  Delivers post =
      (body : Str)
      → post (bootstrap_url ++ str "/announce") body
        ≡ some (over_network (serve_http c h (str "POST") body).0)

  -- The peers of the member, once the request is admitted, and itself.
  abbrev pub answer_of_all : List Peer
  answer_of_all = list (add (new_peer id addr) h.store) ++ new_peer h.my_id h.my_addr ∷ []

  -- What is written is read again: the request and the answer.
  abbrev pub RoundTrips : Type 0
  RoundTrips =
      (c.read_request (c.write_request sent_request) ≡ some sent_request)
      × (c.read_response (c.write_response answer_of_all) ≡ some answer_of_all)

  serve_sent :
      RoundTrips
      → serve_http c h (str "POST") (c.write_request sent_request)
        ≡ (peers answer_of_all, record h { store = add (new_peer id addr) h.store })
  unfolding serve_http accept admit announcement
  serve_sent (reads, writes) =
      rw (eq_refl (str "POST"), serve_http)
        (rw (reads, accept) (rw (eq_refl (sign c h.secret id pod_name addr now)) refl))

  announce_sent :
      (post : Str → Str → Option (ℕ × Str))
      → RoundTrips
      → Delivers post
      → announce c post bootstrap_url id pod_name addr h.secret now ≡ some answer_of_all
  unfolding announce
  announce_sent post trips delivers =
      rw (delivers (c.write_request sent_request), announce) (rw (serve_sent trips) trips.1)

  init_bootstrap_learns :
      (post : Str → Str → Option (ℕ × Str))
      → RoundTrips
      → Delivers post
      → bootstrap_url ≢ []
      → init_bootstrap c post bootstrap_url id pod_name addr h.secret now
        ≡ add_others c id answer_of_all (add (new_peer id addr) new_store)
  unfolding init_bootstrap learn
  init_bootstrap_learns post trips delivers ne =
      let given : (bootstrap_url == []) ≡ false = not_empty bootstrap_url ne in
      rw (given, init_bootstrap) (rw (announce_sent post trips delivers, learn) refl)

  -- A member that starts with the URL and the secret of another, over a network that delivers,
  -- where what is written is read again, is known to the other afterwards, by its id and its address, and
  -- knows itself, the other and all the peers that the other has.
  pub init_bootstrap_joins :
      (post : Str → Str → Option (ℕ × Str))
      → RoundTrips
      → Delivers post
      → bootstrap_url ≢ []
      → let s = init_bootstrap c post bootstrap_url id pod_name addr h.secret now in
        let h' = (serve_http c h (str "POST") (c.write_request sent_request)).1 in
        (lookup id h'.store ≡ some (new_peer id addr))
        × (lookup id s ≡ some (new_peer id addr))
        × (exists s h.my_id ≡ true)
        × All (λ (p : Peer). exists s p.id ≡ true) (list h'.store)
  unfolding new_peer
  init_bootstrap_joins post trips delivers ne =
      let own = add (new_peer id addr) new_store in
      let joined = init_bootstrap_learns post trips delivers ne in
      let served = serve_sent trips in
      let (other, others) =
        All_last (λ (p : Peer). exists (add_others c id answer_of_all own) p.id ≡ true)
          (list (add (new_peer id addr) h.store)) (new_peer h.my_id h.my_addr)
          (add_others-All c id answer_of_all own (exists-add_self (new_peer id addr) new_store)) in
      rw (joined, served)
        (
          stored_own (new_peer id addr) h.store,
          add_others-lookup c id answer_of_all own ∙ stored_own (new_peer id addr) new_store,
          other,
          others,
        )
