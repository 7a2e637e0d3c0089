-- ===== src/Openvpn/Config.antt =====
-- backend/openvpn/config.go: the configuration of an OpenVPN core. What JSON the text holds,
-- TrimSpace and ToLower are arguments.
pub mod Valid
use pasarguard_node.Prelude.{
  String, Bool, true, false, not, ◌&&◌, ◌||◌, Option, none, some, List, [], ◌∷◌, nat_beq, ◌==◌,
  if◌then◌else◌, is_nil,
}
use pasarguard_node.Int64.{Int64, slt}

pub record Listener : Type 0 where
  pub port : Int64
  pub proto : String

pub record Config : Type 0 where
  pub inbound_tag : String
  pub port : Int64
  pub proto : String
  pub device : String
  pub server_subnet : String
  pub dns : List String
  pub cipher : String
  pub data_ciphers : List String
  pub auth : String
  pub keepalive : String
  pub max_clients : Int64
  pub duplicate_cn : Bool
  pub push : List String
  pub extra_server_directives : List String
  pub ca_cert : String
  pub server_cert : String
  pub server_key : String
  pub tls_crypt_key : String
  pub listeners : List Listener
  pub work_dir : String

pub data Error : Type 0 where
  empty_config invalid_json no_inbound_tag bad_port no_server_subnet no_certificates : Error
  bad_listener_port : Int64 → Error
  bad_listener_proto : String → Error
  duplicate_listener : Listener → Error

pub data Result {ℓ} (A : Type ℓ) : Type ℓ where
  ok : A → Result A
  err : Error → Result A

-- port <= 0 || port > 65535
unfoldable pub out_of_range : Int64 → Bool
out_of_range port = not (slt 0 port) || slt 65535 port

unfoldable pub known_proto : String → Bool
known_proto proto =
    proto == "udp"
    || proto == "tcp"
    || proto == "udp4"
    || proto == "udp6"
    || proto == "tcp4"
    || proto == "tcp6"

-- The texts "proto/port" of two listeners are equal exactly if both parts are.
unfoldable pub same_endpoint : Listener → Listener → Bool
same_endpoint a b = a.proto == b.proto && nat_beq a.port b.port

unfoldable pub is_seen : Listener → List Listener → Bool
unfolding same_endpoint
is_seen l [] = false
is_seen l (s ∷ seen) = same_endpoint s l || is_seen l seen

unfoldable pub or_default : String → String → String
or_default text default = if text == "" then default else text

unfoldable pub with_defaults : Config → Config
unfolding or_default
with_defaults c = record c {
  proto = or_default c.proto "udp";
  device = or_default c.device "tun";
  cipher = or_default c.cipher "AES-256-GCM";
  auth = or_default c.auth "SHA256";
  keepalive = or_default c.keepalive "10 60";
  max_clients = if slt 0 c.max_clients then c.max_clients else 1024;
}

-- Port and Proto are those of the first listener.
unfoldable pub with_first : Config → List Listener → Config
with_first c [] = c
with_first c (l ∷ ls) = record c { port = l.port; proto = l.proto; listeners = l ∷ ls }

module _ (trim_space to_lower : String → String) where
  unfoldable pub normalize_listener : Config → Listener → Result Listener
  unfolding out_of_range known_proto or_default
  normalize_listener c l =
      let port = if nat_beq l.port 0 then c.port else l.port in
      let proto = or_default (to_lower (trim_space l.proto)) c.proto in
      if out_of_range port
      then err (bad_listener_port port)
      else if known_proto proto
      then ok (record { port = port; proto = proto })
      else err (bad_listener_proto proto)

  -- The loop over the listeners, with those that are seen.
  unfoldable pub normalize_each : Config → List Listener → List Listener → Result (List Listener)
  unfolding normalize_listener is_seen
  normalize_each c [] seen = ok []
  normalize_each c (l ∷ ls) seen = elim (normalize_listener c l) [
    | err e ↦ err e
    | ok l' ↦
        if is_seen l' seen
        then err (duplicate_listener l')
        else elim (normalize_each c ls (l' ∷ seen)) [ err e ↦ err e | ok ls' ↦ ok (l' ∷ ls') ]
  ]

  unfoldable pub normalize_listeners : Config → Result Config
  unfolding normalize_each with_first
  normalize_listeners c =
      if is_nil c.listeners
      then ok (record c { listeners = record { port = c.port; proto = c.proto } ∷ [] })
      else elim (normalize_each c c.listeners []) [ err e ↦ err e | ok ls ↦ ok (with_first c ls) ]

  unfoldable pub check_config : Config → Result Config
  unfolding out_of_range with_defaults
  check_config c =
      if c.inbound_tag == ""
      then err no_inbound_tag
      else if out_of_range c.port
      then err bad_port
      else if c.server_subnet == ""
      then err no_server_subnet
      else if c.ca_cert == "" || c.server_cert == "" || c.server_key == ""
      then err no_certificates
      else normalize_listeners (with_defaults c)

  unfoldable pub new_config : (String → Option Config) → String → Result Config
  unfolding check_config
  new_config parse text =
      if trim_space text == ""
      then err empty_config
      else elim (parse text) [ none ↦ err invalid_json | some c ↦ check_config c ]
