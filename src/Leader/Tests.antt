-- ===== src/Leader/Tests.antt =====
-- Runs of the election.
use mezzium.Text.{◌==◌, str_lt}
use mezzium.Text.Laws.{ne_of_test}
use mezzium.Base.{◌≡◌, refl, sym, ap, ◌≢◌, inl, inr, List, [], ◌∷◌}
use mezzium.Base.Int.{pos}
use mezzium.Text.{str, ◌==◌, str_lt}
use mezzium.Peers.{Peer}
use mezzium.Leader.{elect, heartbeat_round}
use mezzium.Leader.Election.{IdsWithin}
use mezzium.Leader.Heartbeats.{leader_unique}

abbrev ann : Peer
ann = record { id = str "ann"; addr = str "10.0.0.1"; failures = pos 0 }

abbrev bob : Peer
bob = record { id = str "bob"; addr = str "10.0.0.2"; failures = pos 1 }

abbrev known : List Peer
known = bob ∷ ann ∷ []

abbrev others : List Peer
others = ann ∷ bob ∷ ann ∷ []

known_within : IdsWithin known others
known_within q (inl e) = (bob, inr (inl refl), ap (λ (p : Peer). p.id) (sym e))
known_within q (inr (inl e)) = (ann, inl refl, ap (λ (p : Peer). p.id) (sym e))
known_within q (inr (inr h)) = absurd h

others_within : IdsWithin others known
others_within q (inl e) = (ann, inr (inl refl), ap (λ (p : Peer). p.id) (sym e))
others_within q (inr (inl e)) = (bob, inl refl, ap (λ (p : Peer). p.id) (sym e))
others_within q (inr (inr (inl e))) = (ann, inr (inl refl), ap (λ (p : Peer). p.id) (sym e))
others_within q (inr (inr (inr h))) = absurd h

elected : elect known ≡ str "ann"
unfolding elect str_lt
elected = refl

bob_not : elect known ≢ str "bob"
unfolding elect str_lt ◌==◌
bob_not = ne_of_test (elect known) (str "bob") refl

posts_known : (heartbeat_round known (str "ann") (pos 9) (pos 5) (pos 6) []).posts ≢ []
unfolding heartbeat_round str_lt ◌==◌
posts_known h = cc

posts_others : (heartbeat_round others (str "ann") (pos 9) (pos 7) (pos 8) []).posts ≢ []
unfolding heartbeat_round str_lt ◌==◌
posts_others h = cc

leader_unique_example : str "ann" ≡ str "ann"
leader_unique_example =
    leader_unique known others (str "ann") (str "ann") (pos 9) (pos 5) (pos 7) (pos 6) (pos 8) [] []
      known_within others_within posts_known posts_others
