-- ===== src/Leader/Heartbeats.antt =====
-- HeartbeatLoop of pkg/leader/leader.go.
use mezzium.Base.{
  ◌≡◌, ◌≢◌, refl, sym, ap, ◌∙◌, inl, inr, ◌↔◌, true, false, List, [], ◌∷◌, arith, In, if◌then◌else◌,
  Bool-cases,
}
use mezzium.Base.Int.{ℤ, pos, ◌-ℤ◌, ◌*ℤ◌, ltb_ℤ}
use mezzium.Text.{Str, ◌==◌}
use mezzium.Text.Laws.{eq_iff}
use mezzium.Dict.Laws.{lookup-insert_self}
use mezzium.Peers.{Peer}
use mezzium.Leader.{Heartbeats, elect, targets, is_leader_alive, heartbeat_round}
use mezzium.Leader.Election.{IdsWithin, elect_agree}

In-targets :
    (self : Str) (p : Peer) (ps : List Peer) → In p (targets self ps) ↔ (In p ps × (p.id ≢ self))
unfolding targets
In-targets self p [] = (λ i. absurd i, λ h. absurd h.0)
In-targets self p (q ∷ ps) =
    ground (arith, eq_iff q.id self, In-targets self p ps, ap (λ (x : Peer). x.id) {x = p} {y = q})

module _ (plist : List Peer) (self : Str) (ttl ts now : ℤ) (h : Heartbeats) where
  -- The elected node posts to exactly the peers with another id, and from then on counts itself
  -- alive for as long as the time since `ts` is less than the TTL.
  pub round_leader :
      elect plist ≡ self
      → ((p : Peer)
          → In p (heartbeat_round plist self ttl ts now h).posts ↔ (In p plist × (p.id ≢ self)))
        × ((later : ℤ)
            → is_leader_alive later self ttl (heartbeat_round plist self ttl ts now h).heartbeats
              ≡ ltb_ℤ (later -ℤ ts *ℤ pos 1_000_000_000) ttl)
  unfolding heartbeat_round
  round_leader e =
      let t : (elect plist == self) ≡ true = (eq_iff (elect plist) self).1 e in
      rw (t, heartbeat_round)
        (
          λ p. In-targets self p plist,
          λ later. rw (lookup-insert_self self ts h, is_leader_alive) refl,
        )

  -- A node that is not elected posts nothing and records nothing, whether the leader's last
  -- heartbeat is recent or not: a missed heartbeat is logged, and the same leader stays elected.
  pub round_follower :
      elect plist ≢ self
      → ((heartbeat_round plist self ttl ts now h).posts ≡ [])
        × ((heartbeat_round plist self ttl ts now h).heartbeats ≡ h)
        × ((heartbeat_round plist self ttl ts now h).warned
            ≡ (if is_leader_alive now (elect plist) ttl h then false else true))
  unfolding heartbeat_round
  round_follower ne = elim (Bool-cases (elect plist == self)) [
    | inl same ↦ absurd (ne ((eq_iff (elect plist) self).0 same))
    | inr other ↦ rw (other, heartbeat_round) (refl, refl, refl)
  ]

-- Two nodes that know the same ids and both post as leaders are the same node.
pub leader_unique :
    (xs ys : List Peer) (a b : Str) (ttl ts ts' now now' : ℤ) (h h' : Heartbeats)
    → IdsWithin xs ys
    → IdsWithin ys xs
    → (heartbeat_round xs a ttl ts now h).posts ≢ []
    → (heartbeat_round ys b ttl ts' now' h').posts ≢ []
    → a ≡ b
leader_unique xs ys a b ttl ts ts' now now' h h' w w' p p' = elim (Bool-cases (elect xs == a)) [
  | inl e ↦ elim (Bool-cases (elect ys == b)) [
    | inl e' ↦ sym ((eq_iff (elect xs) a).0 e) ∙ elect_agree xs ys w w' ∙ (eq_iff (elect ys) b).0 e'
    | inr n' ↦ absurd (p' (round_follower ys b ttl ts' now' h' (ne_of_test ys b n')).0)
  ]
  | inr n ↦ absurd (p (round_follower xs a ttl ts now h (ne_of_test xs a n)).0)
]
  where
    ne_of_test : (zs : List Peer) (c : Str) → (elect zs == c) ≡ false → elect zs ≢ c
    ne_of_test zs c n e = cc ((eq_iff (elect zs) c).1 e)
