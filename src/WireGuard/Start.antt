-- ===== src/WireGuard/Start.antt =====
-- backend/wireguard/wireguard.go: newWithManagerFactory, up to the running interface, and the filter
-- of user_common.go that only it calls. The version, the host routing and the timers are left out.
pub mod Listed
pub mod Stored
pub mod Launched
mod Examples
use pasarguard_node.Prelude.{
  ℕ, String, Bool, true, false, Option, none, some, List, [], ◌∷◌, length, nat_beq, if◌then◌else◌,
  contains, map,
}
use pasarguard_node.Dict
use pasarguard_node.Dict.{Dict}
use pasarguard_node.User.{User}
use pasarguard_node.Stats.Tracker
use pasarguard_node.WireGuard.Types.{WgTypes, PeerInfo}
use pasarguard_node.WireGuard.Users.{normalize_users}
use pasarguard_node.WireGuard.PeerStore.{PeerStore, new_peer_store, key_of, init}
use pasarguard_node.WireGuard.Desired
use pasarguard_node.WireGuard.Desired.{DesiredPeer, collect_desired_peers}
use pasarguard_node.WireGuard.Diff.{SyncDiff, build_sync_diff}
use pasarguard_node.WireGuard.Manager.{Kernel, Manager}
use pasarguard_node.WireGuard.Interface.{Netlink, InitError, initialize_with_peers, close}
use pasarguard_node.WireGuard.SyncParts.{existing_by_key, build_target_peer_configs}
use pasarguard_node.WireGuard.Sync.{WireGuard}

-- The configuration that is read. A private key that does not parse is `none`.
pub record Settings (w : WgTypes) : Type 0 where
  pub interface_name : String
  pub iface_nets : List w.Net
  pub private_key : Option w.Key
  pub psk : Option w.Key
  pub listen_port : ℕ
  pub address : List String

pub data StartError : Type 0 where
  config_missing bad_private_key : StartError
  clash : Desired.Error → StartError
  no_manager : String → StartError
  not_initialized : InitError → StartError

-- What NewManager answers.
pub data Made {w : WgTypes} (k : Kernel w) : Type 0 where
  made : Manager k → Made k
  refused : String → Made k

pub data Started {w : WgTypes} (k : Kernel w) : Type 0 where
  running : WireGuard k → Started k
  failed : StartError → Started k

module _ {w : WgTypes} where
  pub keep_applied : List (PeerInfo w) → List String → List (PeerInfo w)
  keep_applied [] applied = []
  keep_applied (p ∷ peers) applied =
      let rest = keep_applied peers applied in
      if contains (key_of p) applied then p ∷ rest else rest

  unfoldable pub filter_upserts_by_applied_keys :
      List (PeerInfo w) → List String → List (PeerInfo w)
  unfolding keep_applied
  filter_upserts_by_applied_keys upserts applied =
      if nat_beq (length applied) (length upserts) then upserts else keep_applied upserts applied

  abbrev pub start_diff : Settings w → Dict (DesiredPeer w) → SyncDiff w
  start_diff c desired = build_sync_diff c.psk (existing_by_key new_peer_store) desired

  -- What Init puts in the store.
  unfoldable pub start_peers : Settings w → Dict (DesiredPeer w) → List (Option (PeerInfo w))
  unfolding filter_upserts_by_applied_keys build_target_peer_configs
  start_peers c desired =
      let diff = start_diff c desired in
      let (configs, applied) = build_target_peer_configs diff.target_peers c.psk in
      map some (filter_upserts_by_applied_keys diff.upsert_peers applied)

module _ (nl : Netlink) {w : WgTypes} {k : Kernel w} where
  initialized :
      Settings w
      → Dict (DesiredPeer w)
      → Option String
      → Manager k × nl.Host × Option InitError
      → nl.Host × Started k
  unfolding start_peers close
  initialized c desired answer (m, h, some e) =
      let (m', h', errs) = close nl c.interface_name answer m h in (h', failed (not_initialized e))
  initialized c desired answer (m, h, none) = (
    h,
    running (record {
      interface_name = c.interface_name;
      iface_nets = c.iface_nets;
      private_key = c.private_key;
      psk = c.psk;
      listen_port = c.listen_port;
      running = true;
      manager = some m;
      peer_store = init new_peer_store (start_peers c desired);
      stats_tracker = Tracker.new;
    }),
  )

  launch :
      Settings w
      → w.Key
      → Dict (DesiredPeer w)
      → Made k
      → Option String
      → nl.Host
      → nl.Host × Started k
  unfolding initialized initialize_with_peers build_target_peer_configs
  launch c key desired (refused e) answer h = (h, failed (no_manager e))
  launch c key desired (made m) answer h =
      let (configs, applied) =
        build_target_peer_configs (start_diff c desired).target_peers c.psk in
      initialized c desired answer
        (initialize_with_peers nl c.interface_name key c.listen_port c.address configs m h)

  with_key :
      Settings w
      → w.Key
      → List (Option User)
      → Made k
      → Option String
      → nl.Host
      → nl.Host × Started k
  unfolding launch
  with_key c key users manager answer h =
      elim (collect_desired_peers w c.interface_name c.iface_nets (normalize_users users)) [
        | Desired.err e ↦ (h, failed (clash e))
        | Desired.ok desired ↦ launch c key desired manager answer h
      ]

  with_config :
      Settings w → List (Option User) → Made k → Option String → nl.Host → nl.Host × Started k
  unfolding with_key
  with_config c users manager answer h = elim c.private_key [
    | none ↦ (h, failed bad_private_key)
    | some key ↦ with_key c key users manager answer h
  ]

  -- newWithManagerFactory, given what NewManager answers and what closing the client would.
  pub new_wireguard :
      Option (Settings w)
      → List (Option User)
      → Made k
      → Option String
      → nl.Host
      → nl.Host × Started k
  unfolding with_config
  new_wireguard none users manager answer h = (h, failed config_missing)
  new_wireguard (some c) users manager answer h = with_config c users manager answer h
