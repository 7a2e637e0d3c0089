-- ===== src/Xray/History.antt =====
-- backend/xray/user.go: any sequence of SyncUser and UpdateUsers between two restarts of the core.
use pasarguard_node.Prelude.{◌≡◌, List, [], ◌∷◌}
use pasarguard_node.Dict.{IsNodup}
use pasarguard_node.User.{User}
use pasarguard_node.Xray.Inbounds.{Codecs, Inbound}
use pasarguard_node.Xray.Users.{Call, Answers, Outcome, update_users, sync_user}
use pasarguard_node.Xray.Standing.{emails}

module _ (lib : Codecs) (answers : Answers) where
  -- SyncUser or UpdateUsers.
  pub data Event : Type 0 where
    synced : User → Event
    updated : List User → Event

  unfoldable pub step : Event → List Inbound → List Call → Outcome
  unfolding update_users sync_user
  step (synced u) is calls = sync_user lib answers u is calls []
  step (updated us) is calls = update_users lib answers us is calls []

  -- The emails of an update are distinct.
  abbrev pub IsDistinct : Event → Type 0
  IsDistinct (synced u) = Unit
  IsDistinct (updated us) = IsNodup (emails us)

  abbrev pub run : List Event → List Inbound → List Call → Outcome
  run [] is calls = record { inbounds = is; calls = calls; errors = [] }
  run (e ∷ events) is calls = run events (step e is calls).inbounds (step e is calls).calls

  -- Each event succeeds, from the state that those before it leave.
  abbrev pub AllSucceed : List Event → List Inbound → List Call → Type 0
  AllSucceed [] is calls = Unit
  AllSucceed (e ∷ events) is calls =
      IsDistinct e
      × ((step e is calls).errors ≡ [])
      × AllSucceed events (step e is calls).inbounds (step e is calls).calls
