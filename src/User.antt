-- ===== src/User.antt =====
-- common/service.proto: the users that the panel sends, as far as the modelled backends read them.
-- A getter on a message that is absent gives the empty value.
use pasarguard_node.Prelude.{String, Option, none, some, List, []}

pub record WireguardProxy : Type 0 where
  pub public_key : String
  pub peer_ips : List String

pub record OpenvpnProxy : Type 0 where
  pub serial : String
  pub fingerprint : String

pub record Ikev2Proxy : Type 0 where
  pub username : String
  pub password : String

pub record Vmess : Type 0 where
  pub id : String

pub record Vless : Type 0 where
  pub id : String
  pub flow : String

pub record Trojan : Type 0 where
  pub password : String

pub record Shadowsocks : Type 0 where
  pub password : String
  pub method : String

pub record Hysteria : Type 0 where
  pub auth : String

pub record Proxy : Type 0 where
  pub vmess : Option Vmess
  pub vless : Option Vless
  pub trojan : Option Trojan
  pub shadowsocks : Option Shadowsocks
  pub wireguard : Option WireguardProxy
  pub hysteria : Option Hysteria
  pub openvpn : Option OpenvpnProxy
  pub ikev2 : Option Ikev2Proxy

pub record User : Type 0 where
  pub email : String
  pub proxies : Option Proxy
  pub inbounds : List String

-- user.GetProxies().GetWireguard(), and so for the others
abbrev pub get_wireguard : User → Option WireguardProxy
get_wireguard u = elim u.proxies [ none ↦ none | some p ↦ p.wireguard ]

abbrev pub get_openvpn : User → Option OpenvpnProxy
get_openvpn u = elim u.proxies [ none ↦ none | some p ↦ p.openvpn ]

abbrev pub get_ikev2 : User → Option Ikev2Proxy
get_ikev2 u = elim u.proxies [ none ↦ none | some p ↦ p.ikev2 ]

abbrev pub get_public_key : Option WireguardProxy → String
get_public_key none = ""
get_public_key (some p) = p.public_key

abbrev pub get_peer_ips : Option WireguardProxy → List String
get_peer_ips none = []
get_peer_ips (some p) = p.peer_ips

-- A message with none of the proxies, as the zero value is.
abbrev pub no_proxy : Proxy
no_proxy = record {
  vmess = none;
  vless = none;
  trojan = none;
  shadowsocks = none;
  wireguard = none;
  hysteria = none;
  openvpn = none;
  ikev2 = none;
}

-- user.GetProxies(): its getters read an absent message as an empty one.
abbrev pub get_proxies : Option Proxy → Proxy
get_proxies none = no_proxy
get_proxies (some p) = p
