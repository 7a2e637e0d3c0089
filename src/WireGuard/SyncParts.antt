-- ===== src/WireGuard/SyncParts.antt =====
-- backend/wireguard: the lists and maps that a sync builds from the users, the store and the device.
use pasarguard_node.Prelude.{
  String, Option, none, some, List, [], ◌∷◌, ◌==◌, if◌then◌else◌, is_nil, contains,
}
use pasarguard_node.Dict
use pasarguard_node.Dict.{Dict}
use pasarguard_node.Sorting.{sort_strings, is_above}
use pasarguard_node.Stats.Tracker.{Tracker, Sample, remove_stats}
use pasarguard_node.WireGuard.Types.{WgTypes, PeerInfo}
use pasarguard_node.WireGuard.PeerStore.{PeerStore, key_of, get_by_email, get_all}
use pasarguard_node.WireGuard.Desired
use pasarguard_node.WireGuard.Desired.{DesiredPeer, collect_desired_peers}
use pasarguard_node.WireGuard.Diff.{PeerConfig, build_add_config, build_add_config_from_peer_info}
use pasarguard_node.WireGuard.Manager.{DevicePeer}

pub data SyncError : Type 0 where
  user_is_nil not_started no_manager no_private_key : SyncError
  clash : Desired.Error → SyncError
  -- the public key and its owner
  already_assigned : String → String → SyncError
  apply_failed : String → SyncError
  -- the email of a peer with no allowed IPs
  no_allowed_ips : String → SyncError

module _ {w : WgTypes} where
  -- The samples of the peers whose key is among the departing ones and has an email.
  unfoldable pub departing_samples : List String → Dict String → List (DevicePeer w) → List Sample
  departing_samples keys emails [] = []
  departing_samples keys emails (p ∷ peers) =
      let rest = departing_samples keys emails peers in
      let key = w.key_string p.public_key in
      if contains key keys
      then elim (Dict.get emails key) [
        | none ↦ rest
        | some email ↦
            record {
              public_key = key;
              email = email;
              rx = p.receive_bytes;
              tx = p.transmit_bytes;
              endpoint_ip = "";
            }
            ∷ rest
      ]
      else rest

  -- The samples of the peers that ever connected and have an email.
  unfoldable pub connected_samples : Dict String → List (DevicePeer w) → List Sample
  connected_samples emails [] = []
  connected_samples emails (p ∷ peers) =
      let rest = connected_samples emails peers in
      let key = w.key_string p.public_key in
      if p.ever_connected
      then elim (Dict.get emails key) [
        | none ↦ rest
        | some email ↦
            record {
              public_key = key;
              email = email;
              rx = p.receive_bytes;
              tx = p.transmit_bytes;
              endpoint_ip = p.endpoint_ip;
            }
            ∷ rest
      ]
      else rest

  -- The peers under the texts of their keys.
  unfoldable pub put_by_key : List (PeerInfo w) → Dict (PeerInfo w) → Dict (PeerInfo w)
  put_by_key [] result = result
  put_by_key (p ∷ peers) result = put_by_key peers (Dict.put result (key_of p) p)

  unfoldable pub existing_by_key : PeerStore w → Dict (PeerInfo w)
  unfolding put_by_key
  existing_by_key ps = put_by_key (get_all ps) Dict.empty

  unfoldable pub existing_subset : PeerStore w → List String → Dict (PeerInfo w) → Dict (PeerInfo w)
  existing_subset ps [] result = result
  existing_subset ps (email ∷ emails) result =
      existing_subset ps emails
        (elim (get_by_email ps email) [ none ↦ result | some p ↦ Dict.put result (key_of p) p ])

  -- The configurations and the keys that they stand for, for the keys in order.
  unfoldable pub target_configs :
      Option w.Key → Dict (PeerInfo w) → List String → List (PeerConfig w) × List String
  target_configs psk targets [] = ([], [])
  target_configs psk targets (key ∷ keys) =
      let (configs, applied) = target_configs psk targets keys in
      elim (Dict.get targets key) [
        | none ↦ (configs, applied)
        | some p ↦ elim (build_add_config_from_peer_info p psk) [
          | none ↦ (configs, applied)
          | some config ↦ (config ∷ configs, key ∷ applied)
        ]
      ]

  unfoldable pub build_target_peer_configs :
      Dict (PeerInfo w) → Option w.Key → List (PeerConfig w) × List String
  unfolding target_configs
  build_target_peer_configs targets psk =
      target_configs psk targets (sort_strings (Dict.keys targets))

  -- validTargetPeers: `range` visits the targets, in an order that Go leaves open.
  unfoldable pub valid_targets :
      Dict (PeerInfo w) → List String → List String → List (Option (PeerInfo w))
  valid_targets targets applied [] = []
  valid_targets targets applied (key ∷ keys) =
      let rest = valid_targets targets applied keys in
      elim (Dict.get targets key) [
        | none ↦ rest
        | some p ↦ if contains key applied then some p ∷ rest else rest
      ]

  -- A wanted key that a user has who is not among the touched ones.
  unfoldable pub owner_clash :
      List String → String → Option String → Option (DesiredPeer w) → Option SyncError
  owner_clash touched key none d = none
  owner_clash touched key (some owner) none = none
  owner_clash touched key (some owner) (some d) =
      if owner == d.email
      then none
      else if contains owner touched
      then none
      else some (already_assigned key owner)

  unfoldable pub check_owners :
      List String → Dict String → Dict (DesiredPeer w) → List String → Option SyncError
  unfolding owner_clash
  check_owners touched owners desired [] = none
  check_owners touched owners desired (key ∷ keys) =
      let rest = check_owners touched owners desired keys in
      elim (owner_clash touched key (Dict.get owners key) (Dict.get desired key)) [
        | none ↦ rest
        | some e ↦ some e
      ]

  unfoldable pub insert_peer : PeerInfo w → List (PeerInfo w) → List (PeerInfo w)
  insert_peer p [] = p ∷ []
  insert_peer p (q ∷ qs) =
      let rest = insert_peer p qs in if is_above (key_of p) (key_of q) then q ∷ rest else p ∷ q ∷ qs

  unfoldable pub order_peers : List (PeerInfo w) → List (PeerInfo w)
  unfolding insert_peer
  order_peers [] = []
  order_peers (p ∷ ps) = insert_peer p (order_peers ps)

  -- The configurations, or the email of a peer without allowed IPs.
  unfoldable pub restart_configs :
      Option w.Key → List (PeerInfo w) → List (PeerConfig w) × Option String
  restart_configs psk [] = ([], none)
  restart_configs psk (p ∷ ps) =
      let (configs, bad) = restart_configs psk ps in
      if is_nil p.allowed_ips
      then ([], some p.email)
      else (build_add_config p.public_key p.allowed_ips psk ∷ configs, bad)

unfoldable pub remove_all_stats : Tracker → List String → Tracker
remove_all_stats t [] = t
remove_all_stats t (key ∷ keys) = remove_all_stats (remove_stats t key) keys
