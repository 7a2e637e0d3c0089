-- ===== src/WireGuard/Types.antt =====
-- backend/wireguard: what the code takes from golang.zx2c4.com/wireguard/wgctrl/wgtypes and from
-- Go's package net, and the record of a peer (config.go).
use pasarguard_node.Prelude.{ℕ, String, Bool, Option, List}

pub record WgTypes : Type 1 where
  pub Key : Type 0
  pub Net : Type 0
  -- Key.String and ParseKey
  pub key_string : Key → String
  pub parse_key : String → Option Key
  -- IPNet.String, and the network that ParseCIDR returns
  pub net_string : Net → String
  pub parse_cidr : String → Option Net
  -- len(n.IP), the ones of n.Mask.Size(), and p.Contains(n.IP)
  pub ip_len : Net → ℕ
  pub mask_ones : Net → ℕ
  pub net_contains : Net → Net → Bool

pub record PeerInfo (w : WgTypes) : Type 0 where
  pub email : String
  pub public_key : w.Key
  pub allowed_ips : List w.Net
