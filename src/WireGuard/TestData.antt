-- ===== src/WireGuard/TestData.antt =====
-- Concrete keys, networks, users and peers for the tests. Keys and networks are texts here, and
-- every network contains every address.
use pasarguard_node.Prelude.{String, true, none, some, List, [], ◌∷◌}
use pasarguard_node.Dict
use pasarguard_node.Dict.{Dict}
use pasarguard_node.User.{no_proxy, User}
use pasarguard_node.WireGuard.Types.{WgTypes, PeerInfo}
use pasarguard_node.WireGuard.Desired.{DesiredPeer}
use pasarguard_node.WireGuard.Manager.{Kernel, Manager, DevicePeer}

abbrev pub texts : WgTypes
texts = record {
  Key = String;
  Net = String;
  key_string = λ key. key;
  parse_key = λ text. some text;
  net_string = λ net. net;
  parse_cidr = λ text. some text;
  ip_len = λ net. 4;
  mask_ones = λ net. 32;
  net_contains = λ pool net. true;
}

abbrev pub peer : String → String → PeerInfo texts
peer email key = record { email = email; public_key = key; allowed_ips = "10.0.0.2/32" ∷ [] }

abbrev pub user : String → String → String → User
user email key ip = record {
  email = email;
  proxies =
      some (record no_proxy { wireguard = some (record { public_key = key; peer_ips = ip ∷ [] }) });
  inbounds = "wg0" ∷ [];
}

abbrev pub wanted : String → String → String → DesiredPeer texts
wanted email key ip = record {
  email = email;
  public_key = key;
  parsed_key = key;
  allowed_ip_nets = ip ∷ [];
}

abbrev pub desired : Dict (DesiredPeer texts)
desired =
    Dict.put (Dict.put Dict.empty "k1" (wanted "alice" "k1" "10.0.0.2/32")) "k2"
      (wanted "bob" "k2" "10.0.0.3/32")

-- A kernel that accepts every configuration and has no counters.
abbrev pub quiet : Kernel texts
quiet = record {
  Device = List (DevicePeer texts);
  configure_device = λ config d. (d, none);
  device = λ d now. some d;
}

abbrev pub manager : Manager quiet
manager = record { client = some [] }
