-- ===== src/WireGuard/Sync.antt =====
-- backend/wireguard: user_full_sync.go, user_partial_sync.go, user.go, restartLocked, and the
-- samples of jobs.go. syncMu makes each operation one step; the time is an argument.
pub mod Outcome
pub mod Targets
pub mod Written
pub mod Invariant
pub mod Agreement
pub mod History
mod Examples
use pasarguard_node.Prelude.{
  ℕ, String, Bool, true, false, not, Option, none, some, List, [], ◌∷◌, ◌==◌, if◌then◌else◌, is_nil,
  is_some, contains, map,
}
use pasarguard_node.Dict
use pasarguard_node.Dict.{Dict}
use pasarguard_node.Sorting.{sort_strings, is_above}
use pasarguard_node.User.{User}
use pasarguard_node.Stats.Tracker.{Tracker, Sample, Time, update_stats_batch, remove_stats}
use pasarguard_node.WireGuard.Types.{WgTypes, PeerInfo}
use pasarguard_node.WireGuard.Users.{normalize_users, list_values}
use pasarguard_node.WireGuard.PeerStore.{
  PeerStore, key_of, apply_changes, replace_all, get_by_email, get_all, get_email_map,
}
use pasarguard_node.WireGuard.Desired
use pasarguard_node.WireGuard.Desired.{DesiredPeer, collect_desired_peers}
use pasarguard_node.WireGuard.Diff.{
  PeerConfig, SyncDiff, build_sync_diff, build_add_config, build_add_config_from_peer_info,
}
use pasarguard_node.WireGuard.Manager.{
  Kernel, Manager, DevicePeer, apply_config, apply_peers, apply_peers_replace_all, get_device,
}
use pasarguard_node.WireGuard.SyncParts.{
  SyncError, user_is_nil, not_started, no_manager, no_private_key, clash, apply_failed,
  no_allowed_ips, departing_samples, connected_samples, put_by_key, existing_by_key,
  existing_subset, target_configs, build_target_peer_configs, valid_targets, owner_clash,
  check_owners, insert_peer, order_peers, restart_configs, remove_all_stats,
}

pub record WireGuard {w : WgTypes} (k : Kernel w) : Type 0 where
  pub interface_name : String
  pub iface_nets : List w.Net
  pub private_key : Option w.Key
  pub psk : Option w.Key
  pub listen_port : ℕ
  pub running : Bool
  pub manager : Option (Manager k)
  pub peer_store : PeerStore w
  pub stats_tracker : Tracker

module _ {w : WgTypes} {k : Kernel w} where
  -- ensureRunningWithManagerLocked, and what is done with the manager.
  pub with_manager :
      WireGuard k → (Manager k → WireGuard k × Option SyncError) → WireGuard k × Option SyncError
  with_manager s f =
      if s.running
      then elim s.manager [ none ↦ (s, some no_manager) | some m ↦ f m ]
      else (s, some not_started)

  pub batch : WireGuard k → List Sample → Time → WireGuard k
  batch s samples now = record s { stats_tracker = update_stats_batch s.stats_tracker samples now }

  pub sample_departing_peers : Time → List String → WireGuard k → WireGuard k
  unfolding batch departing_samples
  sample_departing_peers now keys s = if is_nil keys then s else elim s.manager [
    | none ↦ s
    | some m ↦ elim (get_device m now) [
      | none ↦ s
      | some peers ↦ batch s (departing_samples keys (get_email_map s.peer_store) peers) now
    ]
  ]

  -- The log of a device that cannot be read is left out.
  pub update_connected_peers : Time → WireGuard k → WireGuard k
  unfolding batch connected_samples
  update_connected_peers now s = elim s.manager [
    | none ↦ s
    | some m ↦ elim (get_device m now) [
      | none ↦ s
      | some peers ↦ batch s (connected_samples (get_email_map s.peer_store) peers) now
    ]
  ]

  -- The new store and the keys that left it.
  pub settle_store : WireGuard k → PeerStore w × List String → WireGuard k
  unfolding remove_all_stats
  settle_store s (ps, removed) = record s {
    peer_store = ps;
    stats_tracker = remove_all_stats s.stats_tracker removed;
  }

  -- What follows on the kernel's answer.
  pub commit :
      WireGuard k
      → (PeerStore w → PeerStore w × List String)
      → Manager k × Option String
      → WireGuard k × Option SyncError
  unfolding settle_store
  commit s change (m, some e) = (record s { manager = some m }, some (apply_failed e))
  commit s change (m, none) =
      (settle_store (record s { manager = some m }) (change s.peer_store), none)

  -- A full sync from the samples on.
  pub replace_peers : Time → SyncDiff w → WireGuard k → WireGuard k × Option SyncError
  unfolding sample_departing_peers build_target_peer_configs with_manager commit valid_targets
  replace_peers now diff s =
      let s' = sample_departing_peers now diff.remove_keys s in
      let (configs, applied) = build_target_peer_configs diff.target_peers s.psk in
      let targets = valid_targets diff.target_peers applied (Dict.keys diff.target_peers) in
      with_manager s'
        λ m. commit s' (λ ps. replace_all ps targets) (apply_peers_replace_all configs m)

  pub apply_full : Time → SyncDiff w → WireGuard k → WireGuard k × Option SyncError
  unfolding replace_peers
  apply_full now diff s = if diff.changed then replace_peers now diff s else (s, none)

  pub sync_users_full : Time → List (Option User) → WireGuard k → WireGuard k × Option SyncError
  unfolding existing_by_key apply_full
  sync_users_full now users s =
      elim (collect_desired_peers w s.interface_name s.iface_nets (normalize_users users)) [
        | Desired.err e ↦ (s, some (clash e))
        | Desired.ok desired ↦
            apply_full now (build_sync_diff s.psk (existing_by_key s.peer_store) desired) s
      ]

  pub apply_partial : Time → SyncDiff w → WireGuard k → WireGuard k × Option SyncError
  unfolding sample_departing_peers with_manager commit settle_store
  apply_partial now diff s =
      let s' = sample_departing_peers now diff.remove_keys s in
      let change : PeerStore w → PeerStore w × List String =
        λ ps. apply_changes ps diff.remove_keys (map some diff.upsert_peers) in
      if is_nil diff.peer_configs
      then (settle_store s' (change s'.peer_store), none)
      else with_manager s' λ m. commit s' change (apply_peers diff.peer_configs m)

  -- The part of a partial sync after the wanted peers are collected.
  pub reconcile :
      Time → List String → Dict (DesiredPeer w) → WireGuard k → WireGuard k × Option SyncError
  unfolding check_owners existing_subset apply_partial
  reconcile now touched desired s =
      elim (check_owners touched (get_email_map s.peer_store) desired (Dict.keys desired)) [
        | some e ↦ (s, some e)
        | none ↦
            apply_partial now
              (build_sync_diff s.psk (existing_subset s.peer_store touched Dict.empty) desired) s
      ]

  pub sync_users_partial_reconcile :
      Time → List (Option User) → WireGuard k → WireGuard k × Option SyncError
  unfolding reconcile
  sync_users_partial_reconcile now users s =
      let normalized = normalize_users users in
      elim (collect_desired_peers w s.interface_name s.iface_nets normalized) [
        | Desired.err e ↦ (s, some (clash e))
        | Desired.ok desired ↦ reconcile now (map User.email normalized) desired s
      ]

  answer_of : WireGuard k → Manager k × Option String → WireGuard k × Option SyncError
  answer_of s (m, none) = (record s { manager = some m }, none)
  answer_of s (m, some e) = (record s { manager = some m }, some (apply_failed e))

  apply_restart :
      w.Key → List (PeerConfig w) × Option String → WireGuard k → WireGuard k × Option SyncError
  unfolding answer_of with_manager
  apply_restart key (configs, some email) s = (s, some (no_allowed_ips email))
  apply_restart key (configs, none) s = with_manager s λ m. answer_of s (
      apply_config
        (record {
          private_key = some key;
          listen_port = some s.listen_port;
          peers = configs;
          replace_peers = true;
        })
        m)

  pub restart : WireGuard k → WireGuard k × Option SyncError
  unfolding order_peers restart_configs apply_restart
  restart s = elim s.private_key [
    | none ↦ (s, some no_private_key)
    | some key ↦ apply_restart key (restart_configs s.psk (order_peers (get_all s.peer_store))) s
  ]

  pub sync_user : Time → Option User → WireGuard k → WireGuard k × Option SyncError
  unfolding sync_users_partial_reconcile
  sync_user now none s = (s, some user_is_nil)
  sync_user now (some u) s = sync_users_partial_reconcile now (some u ∷ []) s

  then_restart : WireGuard k × Option SyncError → WireGuard k × Option SyncError
  unfolding restart
  then_restart (s, some e) = (s, some e)
  then_restart (s, none) = restart s

  pub update_users_and_restart :
      Time → List (Option User) → WireGuard k → WireGuard k × Option SyncError
  unfolding sync_users_partial_reconcile then_restart
  update_users_and_restart now users s = then_restart (sync_users_partial_reconcile now users s)
