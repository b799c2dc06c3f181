-- ===== src/System/Locked.antt =====
-- What those who do not know the administrator's key, pkg/api/admin.go, can do to the networks.
use mezzium.Base.{
  ℕ, ◌≡◌, refl, ap, ◌∙◌, ◌≢◌, inl, inr, Option, none, some, List, [], ◌∷◌, Bool-cases,
}
use mezzium.Text.{Str, str, ◌==◌}
use mezzium.Dict.{Dict, update_all, modify}
use mezzium.Base.Int.{ℤ}
use mezzium.Networks.{GasConfig}
use mezzium.Registry.{
  Registry, NetworkState, set_best, prune_and_merge, prune_and_merge_state, remove_node_from,
  remove_node_everywhere,
}
use mezzium.Health.Checks.{Drops}
use mezzium.Health.{update_network, drain_drop_urls}
use mezzium.Health.Cycle.{Net, run_checks, remove_all, health_tick}
use mezzium.Gossip.{StateMessage, NetworkAdvert, state_handler, merge_adverts, merge_advert}
use mezzium.Admin.{AdminState, AdminReply}
use mezzium.Admin.Keys.{
  with_auth-admin_add_network, with_auth-admin_add_networks_bulk, with_auth-admin_add_node,
  with_auth-admin_delete_node,
}
use mezzium.System.{
  Step, ticks, adds_network, adds_networks, adds_node, deletes_node, hears, Reach, here, next,
}

-- What only an administrator sets: protocol, route, timeout and gas.
abbrev pub Settings : Type 0
Settings = Str × Str × ℤ × Option GasConfig

abbrev pub settings_of : NetworkState → Settings
settings_of st = (st.protocol, st.route, st.timeout_ms, st.gas)

-- The networks with their settings.
abbrev pub settings : Registry → Dict Settings
settings [] = []
settings ((name, st) ∷ r) = (name, settings_of st) ∷ settings r

update_all-settings :
    (f : NetworkState → NetworkState) (r : Registry)
    → ((st : NetworkState) → settings_of (f st) ≡ settings_of st)
    → settings (update_all f r) ≡ settings r
unfolding update_all
update_all-settings f [] h = refl
update_all-settings f ((name, st) ∷ r) h = cc (h st, update_all-settings f r h)

modify-settings :
    (k : Str) (f : NetworkState → NetworkState) (r : Registry)
    → ((st : NetworkState) → settings_of (f st) ≡ settings_of st)
    → settings (modify k f r) ≡ settings r
unfolding modify
modify-settings k f [] h = refl
modify-settings k f ((name, st) ∷ r) h = elim (Bool-cases (name == k)) [
  | inl e ↦ rw (e, modify) (cc (h st))
  | inr e ↦ rw (e, modify) (cc (modify-settings k f r h))
]

run_checks-settings :
    (net : Net) (ns : List (Str × NetworkState)) (r : Registry) (drops : Drops)
    → settings (run_checks net ns r drops).0 ≡ settings r
unfolding run_checks set_best
run_checks-settings net [] r drops = refl
run_checks-settings net ((n, st) ∷ ns) r drops =
    let (best, more) = update_network r st.protocol (net n) st.all drops in
    run_checks-settings net ns (set_best n best r) more
    ∙ modify-settings n (λ s. record s { best = best }) r (λ s. refl)

remove_all-settings : (urls : List Str) (r : Registry) → settings (remove_all urls r) ≡ settings r
unfolding remove_all remove_node_everywhere remove_node_from
remove_all-settings [] r = refl
remove_all-settings (url ∷ urls) r =
    remove_all-settings urls (remove_node_everywhere url r)
    ∙ update_all-settings (remove_node_from url) r (λ st. refl)

prune_and_merge-settings : (now : ℕ) (r : Registry) → settings (prune_and_merge now r) ≡ settings r
unfolding prune_and_merge prune_and_merge_state
prune_and_merge-settings now r = update_all-settings (prune_and_merge_state now) r (λ st. refl)

health_tick-settings :
    (net : Net) (now : ℕ) (r : Registry) (drops : Drops)
    → settings (health_tick net now r drops).0 ≡ settings r
unfolding health_tick drain_drop_urls
health_tick-settings net now r drops =
    let merged = prune_and_merge now r in
    remove_all-settings (run_checks net merged merged drops).1
      (run_checks net merged merged drops).0
    ∙ run_checks-settings net merged merged drops
    ∙ prune_and_merge-settings now r

merge_adverts-settings :
    (now : ℕ) (advs : List NetworkAdvert) (r : Registry)
    → settings (merge_adverts now advs r) ≡ settings r
unfolding merge_adverts merge_advert
merge_adverts-settings now [] r = refl
merge_adverts-settings now (adv ∷ advs) r =
    merge_adverts-settings now advs (modify adv.name (merge_advert now adv) r)
    ∙ modify-settings adv.name (merge_advert now adv) r (λ st. refl)

state_handler-settings :
    (now : ℕ) (method : Str) (body : Option StateMessage) (r : Registry)
    → settings (state_handler now method body r).1 ≡ settings r
unfolding state_handler
state_handler-settings now method none r = elim (Bool-cases (method == str "POST")) [
  | inl e ↦ rw (e, state_handler) refl
  | inr e ↦ rw (e, state_handler) refl
]
state_handler-settings now method (some msg) r = elim (Bool-cases (method == str "POST")) [
  | inl e ↦ rw (e, state_handler) (merge_adverts-settings now msg.networks r)
  | inr e ↦ rw (e, state_handler) refl
]

module _ (admin_key : Str) where
  -- A step that is no request with the administrator's key.
  abbrev pub IsKeylessStep : (s t : AdminState) → Step admin_key s t → Type 0
  IsKeylessStep s t (ticks net now) = Unit
  IsKeylessStep s t (adds_network net key nc) = key ≢ admin_key
  IsKeylessStep s t (adds_networks nets key ncs) = key ≢ admin_key
  IsKeylessStep s t (adds_node net key path n) = key ≢ admin_key
  IsKeylessStep s t (deletes_node key path url) = key ≢ admin_key
  IsKeylessStep s t (hears now method body) = Unit

  abbrev pub IsKeyless : (s t : AdminState) → Reach admin_key s t → Type 0
  IsKeyless s t here = Unit
  IsKeyless s t (next {t = u} r st) = IsKeyless s u r × IsKeylessStep u t st

  abbrev at : AdminReply × AdminState → Dict Settings
  at a = settings a.1.reg

  Step-settings :
      (s t : AdminState) (st : Step admin_key s t)
      → IsKeylessStep s t st
      → settings t.reg ≡ settings s.reg
  Step-settings s t (ticks net now) k = health_tick-settings net now s.reg s.drops
  Step-settings s t (adds_network net key nc) k =
      ap at (with_auth-admin_add_network admin_key key s net nc k)
  Step-settings s t (adds_networks nets key ncs) k =
      ap at (with_auth-admin_add_networks_bulk admin_key key s nets ncs k)
  Step-settings s t (adds_node net key path n) k =
      ap at (with_auth-admin_add_node admin_key key s net path n k)
  Step-settings s t (deletes_node key path url) k =
      ap at (with_auth-admin_delete_node admin_key key s path url k)
  Step-settings s t (hears now method body) k = state_handler-settings now method body s.reg

  -- Whatever ticks of the health loop, messages of peers and requests of administrators follow one
  -- another, as long as none of the requests has the administrator's key: the networks stay the
  -- same ones, and each keeps its protocol, its route, its timeout and its settings for gas.
  pub Reach-settings :
      (s t : AdminState) (r : Reach admin_key s t)
      → IsKeyless s t r
      → settings t.reg ≡ settings s.reg
  Reach-settings s t here k = refl
  Reach-settings s t (next {t = u} r st) k = Step-settings u t st k.1 ∙ Reach-settings s u r k.0
