-- ===== src/Gossip/PeerExchange.antt =====
-- Start and Handler of pkg/gossip/gossip.go.
use mezzium.Base.{
  ℕ, ◌≡◌, refl, ◌≢◌, ◌⊎◌, inl, inr, Bool, Option, none, some, List, [], ◌∷◌, arith, leb,
  if◌then◌else◌, Bool-cases, Option-cases, length, get_elem?,
}
use mezzium.Text.{Str, str, ◌==◌}
use mezzium.Text.Laws.{eq_iff}
use mezzium.Dict.{lookup, insert}
use mezzium.Dict.Laws.{lookup-insert}
use mezzium.Peers.{Peer, Store, add, list}
use mezzium.Peers.Failures.{on_failure_frame, on_success_frame}
use mezzium.Gossip.{GossipMessage, start_tick, merge_peers, handler}

-- The last of the peers that has the id.
pub last_with : Str → List Peer → Option Peer
last_with id [] = none
last_with id (p ∷ ps) = elim (last_with id ps) [
  | none ↦ if p.id == id then some p else none
  | some q ↦ some q
]

abbrev pub or_else : Option Peer → Option Peer → Option Peer
or_else none o = o
or_else (some p) o = some p

merge_peers-lookup :
    (id : Str) (ps : List Peer) (s : Store)
    → lookup id (merge_peers ps s) ≡ or_else (last_with id ps) (lookup id s)
unfolding merge_peers last_with add
merge_peers-lookup id [] s = refl
merge_peers-lookup id (p ∷ ps) s =
    ground (arith, merge_peers-lookup id ps (insert p.id p s), lookup-insert p.id id p s)

-- A message that is posted and can be decoded is taken over whole, its counts of failures too: for
-- each id of it the store then has the last peer of the message with that id, and what it had for
-- any other. Any other request is refused with its status and changes nothing.
pub handler_lem :
    (method : Str) (body : Option GossipMessage) (s : Store)
    → ((method ≢ str "POST") × (handler method body s ≡ (405, s)))
      ⊎ ((method ≡ str "POST") × (body ≡ none) × (handler method body s ≡ (400, s)))
      ⊎ ((msg : GossipMessage) × (method ≡ str "POST")
          × (body ≡ some msg)
          × ((handler method body s).0 ≡ 200)
          × ((id : Str)
              → lookup id (handler method body s).1
                ≡ or_else (last_with id msg.peers) (lookup id s)))
unfolding handler
handler_lem method body s = elim (Bool-cases (method == str "POST")) [
  | inl post ↦
      let is_post = (eq_iff method (str "POST")).0 post in
      elim (Option-cases body) [
        | inl e ↦ inr (inl (is_post, e, rw (post, e) refl))
        | inr (msg, e) ↦ inr (
            inr (
              msg,
              is_post,
              e,
              rw (post, e) refl,
              λ id. rw (post, e) (merge_peers-lookup id msg.peers s),
            ))
      ]
  | inr other ↦ inl (λ e. cc ((eq_iff method (str "POST")).1 e), rw other refl)
]

-- A round of gossip touches at most the entry of the peer that was chosen, and never the node's
-- own, however the choice and the call turn out.
pub start_tick_self :
    (self : Str) (i : ℕ) (sent : Peer → Bool) (s : Store)
    → lookup self (start_tick self i sent s) ≡ lookup self s
unfolding start_tick
start_tick_self self i sent s = elim (Bool-cases (leb (length (list s)) 1)) [
  | inl few ↦ rw few refl
  | inr many ↦ elim (Option-cases (get_elem? (list s) i)) [
    | inl e ↦ rw (many, e) refl
    | inr (p, e) ↦ elim (Bool-cases (p.id == self)) [
      | inl same ↦ rw (many, e, same) refl
      | inr other ↦
          let ne : p.id ≢ self = λ q. cc ((eq_iff p.id self).1 q) in
          elim (Bool-cases (sent p)) [
            | inl up ↦ rw (many, e, other, up) (on_success_frame p.id self s ne)
            | inr down ↦ rw (many, e, other, down) (on_failure_frame p.id self s ne)
          ]
    ]
  ]
]
