-- ===== src/Xray/Fallback.antt =====
-- backend/xray/user.go and backend/xray/config_clone.go: how a change of the configuration ends.
use pasarguard_node.Prelude.{
  String, ◌≡◌, refl, ap, Bool, true, false, ◌&&◌, not, Option, none, some, List, [], ◌∷◌, arith,
  eq_refl, contains, is_some, inl, inr, ◌⊎◌, Option-cases,
}
use pasarguard_node.Dict
use pasarguard_node.Dict.{IsNodup}
use pasarguard_node.User.{User}
use pasarguard_node.Xray.Inbounds.{Codecs, Inbound}
use pasarguard_node.Xray.Users.{sync_inbounds, update_inbounds}
use pasarguard_node.Xray.Agreement.{tags}
use pasarguard_node.Xray.Restart.{
  Restarted, busy, not_started, restarted, Xray, Course, Answer, restart_core_with_config,
  check_status, set_config, restore_previous_config, give_back, apply_config_with_restart,
  find_last, clone_inbound, clone_inbounds, clone, apply_changed, change_config, sync_users,
  update_users_and_restart,
}

abbrev pub is_started : Restarted → Bool
is_started restarted = true
is_started _ = false

-- The core was started again with the previous configuration, and its API answers.
abbrev pub is_restored : Course → Bool
is_restored c = is_started c.restore_restart && not (is_some c.restore_status)

-- The change is made, or there is an error and the configuration is the previous one, which the core
-- runs with if the way back succeeded.
abbrev pub IsChanged : Course → List Inbound → List Inbound → Answer → Type 0
IsChanged c candidate previous a =
    ((a.error ≡ none) × (a.xray.config ≡ some candidate) × (a.xray.running ≡ some candidate))
    ⊎ ((e : String) × (a.error ≡ some e)
        × (a.xray.config ≡ some previous)
        × (is_restored c ≡ true → a.xray.running ≡ some previous))

abbrev pub with_config : List Inbound → Option (List Inbound) → Xray
with_config config running = record { config = some config; running = running }

abbrev course : Restarted → Option String → Restarted → Option String → Course
course r1 s1 r2 s2 = record { restart = r1; status = s1; restore_restart = r2; restore_status = s2 }

-- On the way back the configuration stays, and the core runs with it if the way back succeeds.
abbrev IsBack : Course → List Inbound → Answer → Type 0
IsBack c previous a =
    (is_some a.error ≡ true)
    × (a.xray.config ≡ some previous)
    × (is_restored c ≡ true → a.xray.running ≡ some previous)

-- What json.Marshal and json.Unmarshal leave of an inbound: neither `exclude` nor `clients` is
-- exported.
abbrev pub bare : List Inbound → List Inbound
bare [] = []
bare (i ∷ is) = record i { exclude = false; clients = Dict.empty } ∷ bare is

abbrev AllFound : List Inbound → List Inbound → Type 0
AllFound originals [] = Unit
AllFound originals (i ∷ is) = (find_last i.tag originals ≡ some i) × AllFound originals is

AllFound-cons :
    (j : Inbound) (originals is : List Inbound)
    → AllFound originals is
    → AllFound (j ∷ originals) is
unfolding find_last
AllFound-cons j originals [] a = tt
AllFound-cons j originals (i ∷ is) a = (rw a.0 refl, AllFound-cons j originals is a.1)

find_last-unnamed :
    (tag : String) (is : List Inbound) → contains tag (tags is) ≡ false → find_last tag is ≡ none
unfolding find_last
find_last-unnamed tag [] h = refl
find_last-unnamed tag (i ∷ is) h = ground (arith, find_last-unnamed tag is)

tags-AllFound : (is : List Inbound) → IsNodup (tags is) → AllFound is is
unfolding find_last
tags-AllFound [] d = tt
tags-AllFound (i ∷ is) d = (
  rw (find_last-unnamed i.tag is d.0, eq_refl i.tag) refl,
  AllFound-cons i is is (tags-AllFound is d.1),
)

clone_inbounds-bare :
    (originals is : List Inbound) → AllFound originals is → clone_inbounds originals (bare is) ≡ is
unfolding clone_inbounds clone_inbound
clone_inbounds-bare originals [] a = refl
clone_inbounds-bare originals (i ∷ is) a =
    rw a.0 (ap (λ rest. i ∷ rest) (clone_inbounds-bare originals is a.1))

module _ (remarshal : List Inbound → Option (List Inbound)) (config : List Inbound)
    (remarshal_bare : remarshal config ≡ some (bare config)) where
  -- A configuration whose inbounds have distinct tags comes back whole from Clone, with the clients
  -- and the exclusions that JSON does not carry, if JSON keeps the rest.
  pub clone_roundtrip : IsNodup (tags config) → clone remarshal config ≡ some config
  unfolding clone
  clone_roundtrip distinct =
      rw remarshal_bare
        (ap some (clone_inbounds-bare config config (tags-AllFound config distinct)))

module _ (join_errors : String → String → String) where
  give_back-IsBack :
      (r1 : Restarted) (s1 : Option String) (r2 : Restarted) (s2 : Option String)
      (previous : List Inbound) (e : String) (x : Xray)
      → x.config ≡ some previous
      → IsBack
          (course r1 s1 r2 s2)
          previous
          (give_back join_errors (course r1 s1 r2 s2) (some previous) e x)
  unfolding give_back restore_previous_config restart_core_with_config check_status set_config
  give_back-IsBack r1 s1 (busy f) s2 previous e x h = (refl, h, λ q. cc q)
  give_back-IsBack r1 s1 (not_started f) s2 previous e x h = (refl, h, λ q. cc q)
  give_back-IsBack r1 s1 restarted none previous e x h = (refl, refl, λ q. refl)
  give_back-IsBack r1 s1 restarted (some f) previous e x h = (refl, h, λ q. cc)

  failed :
      (c : Course) (candidate previous : List Inbound) (a : Answer)
      → IsBack c previous a
      → IsChanged c candidate previous a
  failed c candidate previous a back = elim (Option-cases a.error) [
    | inl n ↦ cc (rw n at back.0)
    | inr (e, s) ↦ inr (e, s, back.1, back.2)
  ]

  apply-IsChanged :
      (r1 : Restarted) (s1 : Option String) (r2 : Restarted) (s2 : Option String)
      (candidate previous : List Inbound) (running : Option (List Inbound))
      → IsChanged (course r1 s1 r2 s2) candidate previous (
          apply_config_with_restart join_errors
            (course r1 s1 r2 s2)
            candidate
            (with_config previous running))
  unfolding apply_config_with_restart restart_core_with_config check_status set_config
  apply-IsChanged (busy f) s1 r2 s2 candidate previous running =
      failed (course (busy f) s1 r2 s2) candidate previous
        (give_back join_errors (course (busy f) s1 r2 s2) (some previous) f
          (with_config previous running))
        (give_back-IsBack (busy f) s1 r2 s2 previous f (with_config previous running) refl)
  apply-IsChanged (not_started f) s1 r2 s2 candidate previous running =
      failed (course (not_started f) s1 r2 s2) candidate previous
        (give_back join_errors (course (not_started f) s1 r2 s2) (some previous) f
          (with_config previous none))
        (give_back-IsBack (not_started f) s1 r2 s2 previous f (with_config previous none) refl)
  apply-IsChanged restarted none r2 s2 candidate previous running = inl (refl, refl, refl)
  apply-IsChanged restarted (some f) r2 s2 candidate previous running =
      failed (course restarted (some f) r2 s2) candidate previous
        (give_back join_errors (course restarted (some f) r2 s2) (some previous) f
          (with_config previous (some candidate)))
        (give_back-IsBack restarted (some f) r2 s2 previous f
          (with_config previous (some candidate)) refl)

  module _ (remarshal : List Inbound → Option (List Inbound)) (config : List Inbound)
      (remarshal_bare : remarshal config ≡ some (bare config)) (distinct : IsNodup (tags config))
      (running : Option (List Inbound)) (lib : Codecs) (c : Course) (us : List User) where
    change_config-IsChanged :
        (change : List Inbound → List Inbound)
        → IsChanged c (change config) config (
            change_config join_errors remarshal c change (some config) (with_config config running))
    unfolding change_config apply_changed
    change_config-IsChanged change = rw (clone_roundtrip remarshal config remarshal_bare distinct) (
        apply-IsChanged c.restart c.status c.restore_restart c.restore_status (change config) config
          running)

    -- SyncUsers either makes the configuration with the users and leaves the core running with it, or
    -- fails, keeps the configuration that it had, and leaves the core running with that one if the
    -- restart with it succeeds. The tags are distinct, and JSON keeps what is exported.
    pub sync_users-IsChanged :
        IsChanged c
          (sync_inbounds lib us config)
          config
          (sync_users join_errors remarshal lib c us (with_config config running))
    unfolding sync_users
    sync_users-IsChanged = change_config-IsChanged (sync_inbounds lib us)

    -- So does UpdateUsersAndRestart.
    pub update_users_and_restart-IsChanged :
        IsChanged c
          (update_inbounds lib us config)
          config
          (update_users_and_restart join_errors remarshal lib c us (with_config config running))
    unfolding update_users_and_restart
    update_users_and_restart-IsChanged = change_config-IsChanged (update_inbounds lib us)
