-- ===== src/Xray/Restart.antt =====
-- backend/xray/user.go, backend/xray/config_clone.go and backend/xray/xray.go: a new configuration
-- for the core, which is restarted with it, and the way back when that fails. How core.Restart and
-- checkXrayStatus end is an argument, and so is what JSON makes of a configuration. Accounts are
-- values, of which a copy is no other.
use pasarguard_node.Prelude.{
  String, Option, none, some, List, [], ◌∷◌, ◌==◌, if◌then◌else◌, some_or,
}
use pasarguard_node.Dict
use pasarguard_node.Dict.{IsNodup}
use pasarguard_node.User.{User}
use pasarguard_node.Xray.Accounts.{map_option}
use pasarguard_node.Xray.Inbounds.{Codecs, Inbound}
use pasarguard_node.Xray.Users.{sync_inbounds, update_inbounds}

-- core.Restart refuses while another restart is under way; it stops the core before Start, which may
-- fail.
pub data Restarted : Type 0 where
  busy : String → Restarted
  not_started : String → Restarted
  restarted : Restarted

-- The configuration, nil at first, and the one that the process of the core was started with.
pub record Xray : Type 0 where
  pub config : Option (List Inbound)
  pub running : Option (List Inbound)

-- What the calls of a configuration's change end with: core.Restart and checkXrayStatus, and both
-- once more with the previous configuration.
pub record Course : Type 0 where
  pub restart : Restarted
  pub status : Option String
  pub restore_restart : Restarted
  pub restore_status : Option String

pub record Answer : Type 0 where
  pub xray : Xray
  pub error : Option String

abbrev pub fail : Xray → String → Answer
fail x e = record { xray = x; error = some e }

abbrev pub done : Xray → Answer
done x = record { xray = x; error = none }

unfoldable pub restart_core_with_config : Restarted → List Inbound → Xray → Answer
restart_core_with_config (busy e) config x = fail x e
restart_core_with_config (not_started e) config x = fail (record x { running = none }) e
restart_core_with_config restarted config x = done (record x { running = some config })

unfoldable pub check_status : Option String → Xray → Answer
check_status none x = done x
check_status (some e) x = fail x e

unfoldable pub set_config : List Inbound → Xray → Xray
set_config config x = record x { config = some config }

-- `if err := ...; err != nil { return err }`
abbrev pub and_then : Answer → (Xray → Answer) → Answer
and_then a k = elim a.error [ none ↦ k a.xray | some e ↦ a ]

-- An error, the handler of which has the last word.
abbrev pub or_else_do : Answer → (String → Xray → Answer) → Answer
or_else_do a k = elim a.error [ none ↦ a | some e ↦ k e a.xray ]

unfoldable pub restore_previous_config : Course → Option (List Inbound) → Xray → Answer
unfolding restart_core_with_config check_status set_config
restore_previous_config c none x = fail x "previous xray config is nil"
restore_previous_config c (some previous) x =
    and_then (restart_core_with_config c.restore_restart previous x)
      λ x1. and_then (check_status c.restore_status x1) λ x2. done (set_config previous x2)

-- originalByTag[tag]
unfoldable pub find_last : String → List Inbound → Option Inbound
find_last tag [] = none
find_last tag (i ∷ is) = some_or (find_last tag is) (if i.tag == tag then some i else none)

unfoldable pub clone_inbound : Option Inbound → Inbound → Inbound
clone_inbound none i = record i { clients = Dict.empty }
clone_inbound (some original) i = record i {
  exclude = original.exclude;
  clients = original.clients;
}

unfoldable pub clone_inbounds : List Inbound → List Inbound → List Inbound
unfolding find_last clone_inbound
clone_inbounds originals [] = []
clone_inbounds originals (i ∷ is) =
    clone_inbound (find_last i.tag originals) i ∷ clone_inbounds originals is

-- What is left after json.Marshal and json.Unmarshal, or an error of these, is an argument.
unfoldable pub clone : (List Inbound → Option (List Inbound)) → List Inbound → Option (List Inbound)
unfolding clone_inbounds
clone remarshal config = map_option (clone_inbounds config) (remarshal config)

module _ (join_errors : String → String → String) where
  -- The error of the change, with that of the way back if there is one.
  unfoldable pub give_back : Course → Option (List Inbound) → String → Xray → Answer
  unfolding restore_previous_config
  give_back c previous e x =
      let back = restore_previous_config c previous x in
      fail back.xray (elim back.error [ none ↦ e | some f ↦ join_errors e f ])

  unfoldable pub apply_config_with_restart : Course → List Inbound → Xray → Answer
  unfolding give_back restart_core_with_config check_status set_config
  apply_config_with_restart c candidate x =
      and_then
        (or_else_do
          (and_then (restart_core_with_config c.restart candidate x) (check_status c.status))
          (give_back c x.config))
        λ x1. done (set_config candidate x1)

  -- SyncUsers and UpdateUsersAndRestart: the users are changed in a copy of the configuration, and
  -- the core is restarted with it.
  module _ (remarshal : List Inbound → Option (List Inbound)) where
    unfoldable pub apply_changed :
        Course → (List Inbound → List Inbound) → Option (List Inbound) → Xray → Answer
    unfolding apply_config_with_restart
    apply_changed c change none x = fail x "marshal xray config clone"
    apply_changed c change (some candidate) x = apply_config_with_restart c (change candidate) x

    unfoldable pub change_config :
        Course → (List Inbound → List Inbound) → Option (List Inbound) → Xray → Answer
    unfolding apply_changed clone
    change_config c change none x = fail x "xray config is nil"
    change_config c change (some config) x = apply_changed c change (clone remarshal config) x

    unfoldable pub sync_users : Codecs → Course → List User → Xray → Answer
    unfolding change_config
    sync_users lib c us x = change_config c (sync_inbounds lib us) x.config x

    unfoldable pub update_users_and_restart : Codecs → Course → List User → Xray → Answer
    unfolding change_config
    update_users_and_restart lib c us x = change_config c (update_inbounds lib us) x.config x
