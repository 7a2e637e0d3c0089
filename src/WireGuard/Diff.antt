-- ===== src/WireGuard/Diff.antt =====
-- backend/wireguard/user_common.go: the changes that turn the existing peers into the desired ones.
pub mod Cases
pub mod Keys
pub mod Patch
mod Examples
use pasarguard_node.Prelude.{
  ℕ, String, Bool, true, false, not, ◌&&◌, ◌||◌, Option, none, some, List, [], ◌∷◌, ◌++◌, ◌==◌,
  if◌then◌else◌, is_nil,
}
use pasarguard_node.Dict
use pasarguard_node.Dict.{Dict}
use pasarguard_node.Sorting.{sort_strings}
use pasarguard_node.WireGuard.Types.{WgTypes, PeerInfo}
use pasarguard_node.WireGuard.Users.{list_values}
use pasarguard_node.WireGuard.Desired.{DesiredPeer}

-- wgtypes.PeerConfig, its keepalive in seconds
pub record PeerConfig (w : WgTypes) : Type 0 where
  pub public_key : w.Key
  pub remove : Bool
  pub preshared_key : Option w.Key
  pub persistent_keepalive : Option ℕ
  pub replace_allowed_ips : Bool
  pub allowed_ips : List w.Net

pub record SyncDiff (w : WgTypes) : Type 0 where
  pub remove_keys : List String
  pub upsert_peers : List (PeerInfo w)
  pub peer_configs : List (PeerConfig w)
  pub target_peers : Dict (PeerInfo w)
  pub changed : Bool

-- What the loops of buildSyncDiff have gathered.
pub record Changes (w : WgTypes) : Type 0 where
  pub remove_set : Dict (PeerInfo w)
  pub upsert_by_key : Dict (PeerInfo w)
  pub peer_configs : List (PeerConfig w)

module _ {w : WgTypes} where
  unfoldable pub build_add_config : w.Key → List w.Net → Option w.Key → PeerConfig w
  build_add_config public_key allowed_ips preshared_key = record {
    public_key = public_key;
    remove = false;
    preshared_key = preshared_key;
    persistent_keepalive = some 0;
    replace_allowed_ips = false;
    allowed_ips = allowed_ips;
  }

  pub build_remove_config : w.Key → PeerConfig w
  build_remove_config public_key = record {
    public_key = public_key;
    remove = true;
    preshared_key = none;
    persistent_keepalive = none;
    replace_allowed_ips = false;
    allowed_ips = [];
  }

  -- The error, a peer with no allowed IPs, is `none`.
  unfoldable pub build_add_config_from_peer_info : PeerInfo w → Option w.Key → Option (PeerConfig w)
  build_add_config_from_peer_info peer psk =
      if is_nil peer.allowed_ips
      then none
      else some (build_add_config peer.public_key peer.allowed_ips psk)

module _ (w : WgTypes) where
  abbrev pub same_nets : List w.Net → List w.Net → Bool
  same_nets [] [] = true
  same_nets (n ∷ ns) (m ∷ ms) = w.net_string n == w.net_string m && same_nets ns ms
  same_nets _ _ = false

module _ {w : WgTypes} where
  abbrev pub target_of : DesiredPeer w → PeerInfo w
  target_of d = record {
    email = d.email;
    public_key = d.parsed_key;
    allowed_ips = d.allowed_ip_nets;
  }

  unfoldable pub build_target :
      Dict (PeerInfo w) → String → Option (DesiredPeer w) → Dict (PeerInfo w)
  build_target targets key none = targets
  build_target targets key (some d) = Dict.put targets key (target_of d)

  unfoldable pub build_targets :
      Dict (DesiredPeer w) → List String → Dict (PeerInfo w) → Dict (PeerInfo w)
  build_targets desired [] targets = targets
  build_targets desired (key ∷ keys) targets =
      build_targets desired keys (build_target targets key (Dict.get desired key))

  -- A peer that is there and wanted.
  unfoldable pub compare_peers :
      Option w.Key → String → PeerInfo w → PeerInfo w → Changes w → Changes w
  unfolding build_add_config_from_peer_info
  compare_peers psk key existing target c =
      if same_nets w existing.allowed_ips target.allowed_ips
      then (if existing.email == target.email
          then c
          else record c { upsert_by_key = Dict.put c.upsert_by_key key target })
      else elim (build_add_config_from_peer_info target psk) [
        | none ↦ c
        | some config ↦ record c {
          upsert_by_key = Dict.put c.upsert_by_key key target;
          peer_configs = c.peer_configs ++ record config { replace_allowed_ips = true } ∷ [];
        }
      ]

  unfoldable pub compare_found :
      Option w.Key → String → Option (PeerInfo w) → Option (PeerInfo w) → Changes w → Changes w
  unfolding compare_peers
  compare_found psk key none target c = c
  compare_found psk key (some e) none c = record c { remove_set = Dict.put c.remove_set key e }
  compare_found psk key (some e) (some t) c = compare_peers psk key e t c

  unfoldable pub compare_key :
      Option w.Key → Dict (PeerInfo w) → Dict (PeerInfo w) → String → Changes w → Changes w
  compare_key psk existing targets key c =
      compare_found psk key (Dict.get existing key) (Dict.get targets key) c

  unfoldable pub compare_keys :
      Option w.Key → Dict (PeerInfo w) → Dict (PeerInfo w) → List String → Changes w → Changes w
  unfolding compare_key compare_found
  compare_keys psk existing targets [] c = c
  compare_keys psk existing targets (key ∷ keys) c =
      compare_keys psk existing targets keys (compare_key psk existing targets key c)

  unfoldable pub add_missing :
      Option w.Key → String → Option (PeerInfo w) → Option (PeerInfo w) → Changes w → Changes w
  unfolding build_add_config_from_peer_info
  add_missing psk key (some _) target c = c
  add_missing psk key none none c = c
  add_missing psk key none (some t) c = elim (build_add_config_from_peer_info t psk) [
    | none ↦ c
    | some config ↦ record c {
      upsert_by_key = Dict.put c.upsert_by_key key t;
      peer_configs = c.peer_configs ++ config ∷ [];
    }
  ]

  unfoldable pub add_key :
      Option w.Key → Dict (PeerInfo w) → Dict (PeerInfo w) → String → Changes w → Changes w
  add_key psk existing targets key c =
      add_missing psk key (Dict.get existing key) (Dict.get targets key) c

  unfoldable pub add_keys :
      Option w.Key → Dict (PeerInfo w) → Dict (PeerInfo w) → List String → Changes w → Changes w
  unfolding add_key add_missing
  add_keys psk existing targets [] c = c
  add_keys psk existing targets (key ∷ keys) c =
      add_keys psk existing targets keys (add_key psk existing targets key c)

  -- Keys that do not parse are left out.
  unfoldable pub build_removals : List String → List String × List (PeerConfig w)
  build_removals [] = ([], [])
  build_removals (key ∷ keys) =
      let (valid, configs) = build_removals keys in
      elim (w.parse_key key) [
        | none ↦ (valid, configs)
        | some public_key ↦ (key ∷ valid, build_remove_config public_key ∷ configs)
      ]

  unfoldable pub build_remove_configs_for_peers :
      Dict (PeerInfo w) → List String × List (PeerConfig w)
  unfolding build_removals
  build_remove_configs_for_peers remove_set = build_removals (sort_strings (Dict.keys remove_set))

  abbrev no_changes : Changes w
  no_changes = record { remove_set = Dict.empty; upsert_by_key = Dict.empty; peer_configs = [] }

  unfoldable pub gather_changes : Option w.Key → Dict (PeerInfo w) → Dict (PeerInfo w) → Changes w
  unfolding compare_keys add_keys
  gather_changes psk existing targets =
      add_keys psk existing targets (Dict.keys targets)
        (compare_keys psk existing targets (Dict.keys existing) no_changes)

  unfoldable pub finish_diff : Dict (PeerInfo w) → Changes w → SyncDiff w
  unfolding build_remove_configs_for_peers
  finish_diff targets c =
      let (remove_keys, remove_configs) = build_remove_configs_for_peers c.remove_set in
      let upserts = list_values c.upsert_by_key (sort_strings (Dict.keys c.upsert_by_key)) in
      record {
        remove_keys = remove_keys;
        upsert_peers = upserts;
        peer_configs = c.peer_configs ++ remove_configs;
        target_peers = targets;
        changed = not (is_nil remove_keys) || not (is_nil upserts);
      }

  unfoldable pub build_sync_diff :
      Option w.Key → Dict (PeerInfo w) → Dict (DesiredPeer w) → SyncDiff w
  unfolding build_targets gather_changes finish_diff
  build_sync_diff psk existing desired =
      let targets = build_targets desired (Dict.keys desired) Dict.empty in
      finish_diff targets (gather_changes psk existing targets)
