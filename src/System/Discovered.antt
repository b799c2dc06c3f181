-- ===== src/System/Discovered.antt =====
-- A node that a peer proposes, pkg/gossip/state.go, gets into a network, pkg/registry.
use mezzium.Base.{
  ℕ, ◌+◌, ◌<◌, ◌≡◌, refl, inl, true, false, some, [], ◌∷◌, arith, length, In, In-append_right,
}
use mezzium.Text.{Str, str}
use mezzium.Text.Laws.{eq_refl}
use mezzium.Dict.{lookup, modify}
use mezzium.Dict.Laws.{lookup-modify_self}
use mezzium.Registry.{Registry, NetworkState, prune_and_merge, has_url}
use mezzium.Registry.Prune.{prune_and_merge_known}
use mezzium.Gossip.{
  NetworkAdvert, NodeAdvert, discover, discovered_ttl, max_discovered, discover_all, scan_adverts,
  merge_advert, merge_adverts, state_handler,
}

module _ (now later : ℕ) (from : Str) (adv : NetworkAdvert) (n : NodeAdvert) (r : Registry)
    (st : NetworkState) where
  merge_advert_new :
      adv.nodes ≡ n ∷ []
      → has_url n.url st.all ≡ false
      → length st.discovered < max_discovered
      → In (discover now n) (merge_advert now adv st).discovered
  unfolding merge_advert scan_adverts discover_all
  merge_advert_new one new room = rw one (
      ground (
        arith,
        new,
        room,
        In-append_right (discover now n) st.discovered (discover now n ∷ []) (inl refl),
      ))

  -- Whoever posts it, without any key: an unknown URL that is alone proposed for a network that is
  -- there, with less than twenty discovered nodes is among the nodes of that network after the next
  -- merge, if this comes within ten minutes.
  pub state_handler-prune_and_merge :
      adv.nodes ≡ n ∷ []
      → lookup adv.name r ≡ some st
      → has_url n.url st.all ≡ false
      → length st.discovered < max_discovered
      → later < now + discovered_ttl
      → (st' : NetworkState) × (lookup adv.name (
            prune_and_merge later
              (state_handler now
                (str "POST")
                (some (record { from = from; networks = adv ∷ [] }))
                r).1)
          ≡ some st')
        × (has_url n.url st'.all ≡ true)
  unfolding state_handler merge_adverts discover
  state_handler-prune_and_merge one found new room soon =
      let posted : state_handler now (str "POST")
            (some (record { from = from; networks = adv ∷ [] })) r
          ≡ (200, modify adv.name (merge_advert now adv) r) =
        rw (eq_refl (str "POST"), state_handler) refl in
      rw posted (
        prune_and_merge_known later (modify adv.name (merge_advert now adv) r) adv.name
          (merge_advert now adv st) (discover now n) (rw (lookup-modify_self, found) refl)
          (merge_advert_new one new room) soon)
