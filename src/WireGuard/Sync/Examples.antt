-- ===== src/WireGuard/Sync/Examples.antt =====
-- Syncs of a concrete interface, and the theorems about them.
use pasarguard_node.Prelude.{◌≡◌, refl, true, Option, none, some, List, [], ◌∷◌}
use pasarguard_node.Dict
use pasarguard_node.Dict.{Dict}
use pasarguard_node.Sorting.{sort_strings, insert_sorted}
use pasarguard_node.User.{User}
use pasarguard_node.WireGuard.TestData.{texts, user, wanted, quiet, manager}
use pasarguard_node.WireGuard.Users.{
  should_include_user_in_interface, is_complete, is_empty, collect_last, list_values,
  normalize_users,
}
use pasarguard_node.WireGuard.PeerStore.{new_peer_store, get_by_key, get_all, list_peers}
use pasarguard_node.WireGuard.PeerStore.OneToOne.{new_peer_store-IsOneToOne}
use pasarguard_node.WireGuard.Desired
use pasarguard_node.WireGuard.Desired.{
  DesiredPeer, collect_desired_peers, collect_users, collect_user, gather, claim, settle_user,
  other_holder, other_owner, peer_ip_allowed_on_interface, in_pools,
}
use pasarguard_node.WireGuard.Diff.{
  build_sync_diff, build_targets, build_target, gather_changes, finish_diff,
  build_remove_configs_for_peers, build_removals, compare_keys, compare_key, compare_found,
  compare_peers, add_keys, add_key, add_missing, build_add_config_from_peer_info,
}
use pasarguard_node.WireGuard.Diff.Cases.{targeted}
use pasarguard_node.WireGuard.Diff.Patch.{agree}
use pasarguard_node.WireGuard.Manager.{apply_peers_replace_all, configure}
use pasarguard_node.WireGuard.SyncParts.{
  user_is_nil, existing_by_key, put_by_key, target_configs, build_target_peer_configs,
}
use pasarguard_node.WireGuard.Sync.{
  WireGuard, with_manager, commit, sample_departing_peers, replace_peers, apply_full,
  sync_users_full, sync_user,
}
use pasarguard_node.WireGuard.Sync.Agreement.{sync_users_full_agrees}
use pasarguard_node.WireGuard.Sync.History.{synced, step, step_failed}

abbrev interface : WireGuard quiet
interface = record {
  interface_name = "wg0";
  iface_nets = [];
  private_key = some "private";
  psk = none;
  listen_port = 51820;
  running = true;
  manager = some manager;
  peer_store = new_peer_store;
  stats_tracker = Dict.empty;
}

abbrev sent : List (Option User)
sent = some (user "alice" "k1" "10.0.0.2/32") ∷ none ∷ []

abbrev desired : Dict (DesiredPeer texts)
desired = Dict.put Dict.empty "k1" (wanted "alice" "k1" "10.0.0.2/32")

collected : collect_desired_peers texts "wg0" [] (normalize_users sent) ≡ Desired.ok desired
unfolding normalize_users collect_last is_complete is_empty list_values collect_desired_peers
    collect_users collect_user gather claim settle_user other_holder other_owner
    peer_ip_allowed_on_interface should_include_user_in_interface Dict.put Dict.get Dict.empty
    Dict.keys
collected = refl

fine : (sync_users_full 0 sent interface).1 ≡ none
unfolding sync_users_full normalize_users collect_last is_complete is_empty list_values
    collect_desired_peers collect_users collect_user gather claim settle_user other_holder
    other_owner peer_ip_allowed_on_interface should_include_user_in_interface Dict.put Dict.get
    Dict.empty Dict.keys new_peer_store apply_full replace_peers sample_departing_peers with_manager
    commit existing_by_key put_by_key get_all list_peers build_target_peer_configs target_configs
    apply_peers_replace_all configure build_sync_diff build_targets build_target gather_changes
    finish_diff build_remove_configs_for_peers build_removals compare_keys compare_key compare_found
    compare_peers add_keys add_key add_missing build_add_config_from_peer_info sort_strings
    insert_sorted
fine = refl

sync_users_full_agrees_example :
    agree {w = texts}
      (get_by_key (sync_users_full 0 sent interface).0.peer_store "k1")
      (targeted (Dict.get desired "k1"))
    ≡ true
sync_users_full_agrees_example =
    sync_users_full_agrees 0 sent interface desired (λ key. refl) ((λ key e. cc), tt)
      new_peer_store-IsOneToOne collected fine "k1"

step_failed_example : (step 5 (synced none) interface).0.peer_store ≡ interface.peer_store
unfolding step sync_user
step_failed_example = step_failed 5 (synced none) interface user_is_nil refl refl
