-- ===== src/WireGuard/Diff/Examples.antt =====
-- A test: a configuration that is in force already gives a difference without changes.
use pasarguard_node.Prelude.{◌≡◌, refl, false, none}
use pasarguard_node.Dict
use pasarguard_node.Dict.{Dict, get-put, get-empty}
use pasarguard_node.Sorting.{sort_strings}
use pasarguard_node.WireGuard.Types.{PeerInfo}
use pasarguard_node.WireGuard.Users.{list_values}
use pasarguard_node.WireGuard.TestData.{texts, peer, wanted}
use pasarguard_node.WireGuard.Desired.{DesiredPeer}
use pasarguard_node.WireGuard.Diff.{
  build_sync_diff, build_targets, build_target, gather_changes, finish_diff,
  build_remove_configs_for_peers, build_removals, compare_keys, compare_key, compare_found,
  compare_peers, add_keys, add_key, add_missing,
}

-- The peers are those of the configuration already.
abbrev in_step : Dict (PeerInfo texts)
in_step = Dict.put Dict.empty "k1" (peer "alice" "k1")

abbrev desired : Dict (DesiredPeer texts)
desired = Dict.put Dict.empty "k1" (wanted "alice" "k1" "10.0.0.2/32")

nothing_changed : (build_sync_diff {w = texts} none in_step desired).changed ≡ false
unfolding build_sync_diff build_targets build_target gather_changes finish_diff
    build_remove_configs_for_peers build_removals compare_keys compare_key compare_found
    compare_peers add_keys add_key add_missing Dict.put Dict.get Dict.empty Dict.keys list_values
    sort_strings
nothing_changed = refl
