-- ===== src/WireGuard/Manager.antt =====
-- backend/wireguard/manager.go: the calls of the kernel through wgctrl. What the kernel does with a
-- configuration, and what it answers, is an argument.
use pasarguard_node.Prelude.{
  ℕ, String, Bool, true, false, Option, none, some, List, is_nil, if◌then◌else◌,
}
use pasarguard_node.Int64.{Int64}
use pasarguard_node.Stats.Tracker.{Time}
use pasarguard_node.WireGuard.Types.{WgTypes}
use pasarguard_node.WireGuard.Diff.{PeerConfig}

-- wgtypes.Config, as far as it is set
pub record WgConfig (w : WgTypes) : Type 0 where
  pub private_key : Option w.Key
  pub listen_port : Option ℕ
  pub peers : List (PeerConfig w)
  pub replace_peers : Bool

-- wgtypes.Peer, as far as it is read
pub record DevicePeer (w : WgTypes) : Type 0 where
  pub public_key : w.Key
  pub ever_connected : Bool
  pub endpoint_ip : String
  pub receive_bytes : Int64
  pub transmit_bytes : Int64

-- An error is its text.
pub record Kernel (w : WgTypes) : Type 1 where
  pub Device : Type 0
  pub configure_device : WgConfig w → Device → Device × Option String
  -- what the counters are at a time
  pub device : Device → Time → Option (List (DevicePeer w))

pub record Manager {w : WgTypes} (k : Kernel w) : Type 0 where
  pub client : Option k.Device

module _ {w : WgTypes} {k : Kernel w} where
  unfoldable pub configure : WgConfig w → Option k.Device → Manager k × Option String
  configure config none = (record { client = none }, some "wgctrl client is not initialized")
  configure config (some d) =
      let (d', answer) = k.configure_device config d in (record { client = some d' }, answer)

  pub apply_config : WgConfig w → Manager k → Manager k × Option String
  unfolding configure
  apply_config config m = configure config m.client

  pub apply_peers : List (PeerConfig w) → Manager k → Manager k × Option String
  unfolding configure
  apply_peers peers m =
      if is_nil peers
      then (m, none)
      else configure
          (record { private_key = none; listen_port = none; peers = peers; replace_peers = false })
          m.client

  unfoldable pub apply_peers_replace_all :
      List (PeerConfig w) → Manager k → Manager k × Option String
  unfolding configure
  apply_peers_replace_all peers m =
      configure
        (record { private_key = none; listen_port = none; peers = peers; replace_peers = true })
        m.client

  pub get_device : Manager k → Time → Option (List (DevicePeer w))
  get_device m now = elim m.client [ none ↦ none | some d ↦ k.device d now ]
