-- ===== src/Openvpn/Listeners/Examples.antt =====
-- A configuration and a subnet for two listeners, and the theorems about them.
use pasarguard_node.Prelude.{
  ℕ, ◌+◌, ◌-◌, ◌^◌, ◌≤◌, ◌≡◌, refl, true, false, some, [], ◌∷◌, arith, String, nat_beq,
  if◌then◌else◌,
}
use pasarguard_node.Openvpn.Config.{
  Config, Listener, out_of_range, known_proto, same_endpoint, is_seen, or_default, with_defaults,
  with_first, normalize_listener, normalize_each, normalize_listeners, check_config, new_config,
}
use pasarguard_node.Openvpn.Config.Valid.{AreEndpoints, IsFirst, new_config_endpoints}
use pasarguard_node.Openvpn.Listeners.{
  Addr4, Prefix, split_subnet, print_block, len_from, bit_len, bits_needed, to_number, to_bytes,
  split_prefix,
}
use pasarguard_node.Openvpn.Listeners.Blocks.{IsInSpace}
use pasarguard_node.Openvpn.Group.{
  Launched, up, refused, failed, not_started, derive, shutdown_all, start_each, new_backend,
}
use pasarguard_node.Openvpn.Group.Servers.{IsGroup, new_backend-IsGroup, derive_apart}

abbrev parsed : Config
parsed = record {
  inbound_tag = "ovpn";
  port = 1194;
  proto = "";
  device = "";
  server_subnet = "10.8.0.0/16";
  dns = [];
  cipher = "";
  data_ciphers = [];
  auth = "";
  keepalive = "";
  max_clients = 0;
  duplicate_cn = false;
  push = [];
  extra_server_directives = [];
  ca_cert = "ca";
  server_cert = "cert";
  server_key = "key";
  tls_crypt_key = "";
  listeners = record { port = 0; proto = "tcp" } ∷ record { port = 443; proto = "tcp" } ∷ [];
  work_dir = "";
}

abbrev accepted : Config
accepted = record parsed {
  port = 1194;
  proto = "tcp";
  device = "tun";
  cipher = "AES-256-GCM";
  auth = "SHA256";
  keepalive = "10 60";
  max_clients = 1024;
  listeners = record { port = 1194; proto = "tcp" } ∷ record { port = 443; proto = "tcp" } ∷ [];
}

new_config_endpoints_example :
    AreEndpoints accepted.listeners × IsFirst accepted.port accepted.proto accepted.listeners
unfolding new_config check_config normalize_listeners normalize_each normalize_listener with_first
    with_defaults or_default out_of_range known_proto is_seen same_endpoint
new_config_endpoints_example =
    new_config_endpoints (λ text. text) (λ text. text) (λ text. some parsed) "{}" accepted refl

abbrev subnet : Prefix
subnet = record { masked = record { b0 = 10; b1 = 8; b2 = 0; b3 = 0 }; bits = 16; is4 = true }

abbrev first : Addr4
first = record { b0 = 10; b1 = 8; b2 = 0; b3 = 0 }

abbrev second : Addr4
second = record { b0 = 10; b1 = 8; b2 = 128; b3 = 0 }

subnet-IsInSpace : IsInSpace subnet
unfolding to_number
subnet-IsInSpace = record { length = omega arith; space = omega arith }

-- The two halves in text.
abbrev text_of : Addr4 × ℕ → String
text_of (a, n) = if nat_beq a.b2 0 then "10.8.0.0/17" else "10.8.128.0/17"

-- Where the servers work in the tests.
abbrev path_of : Config → Listener → String
path_of c l = l.proto

abbrev derived : String → Listener → Config
derived sub l = record accepted {
  port = l.port;
  proto = l.proto;
  server_subnet = sub;
  listeners = l ∷ [];
  work_dir = l.proto;
}

abbrev at_1194 : Listener
at_1194 = record { port = 1194; proto = "tcp" }

abbrev at_443 : Listener
at_443 = record { port = 443; proto = "tcp" }

derive_apart_example :
    (a : Addr4) × (b : Addr4) × (n : ℕ) × (n ≤ 24)
    × ("10.8.0.0/17" ≡ text_of (a, n))
    × ("10.8.128.0/17" ≡ text_of (b, n))
    × (to_number subnet.masked ≤ to_number a)
    × (to_number a + 2 ^ (32 - n) ≤ to_number b)
    × (to_number b + 2 ^ (32 - n) ≤ to_number subnet.masked + 2 ^ (32 - subnet.bits))
unfolding derive split_subnet print_block split_prefix bits_needed bit_len len_from to_number
    to_bytes
derive_apart_example =
    derive_apart (λ text. some subnet) text_of path_of accepted (derived "10.8.0.0/17" at_1194)
      (derived "10.8.128.0/17" at_443) subnet at_1194 at_443 0 1 2 refl subnet-IsInSpace
      (omega arith) (omega arith) refl refl

-- A server that comes up with any port but 443.
abbrev new : Config → Launched String
new c = if nat_beq c.port 443 then refused "in use" else up c.server_subnet

new_backend-IsGroup_example :
    IsGroup
      (λ text. some subnet)
      text_of
      path_of
      new
      (λ b. b)
      accepted
      (new_backend (λ text. some subnet) text_of path_of new (λ b. b) accepted)
new_backend-IsGroup_example =
    new_backend-IsGroup (λ text. some subnet) text_of path_of new (λ b. b) accepted

-- The second server does not come up, and the first is shut down.
second_refused :
    new_backend (λ text. some subnet) text_of path_of new (λ b. "down") accepted
    ≡ failed (not_started at_443 "in use") ("down" ∷ [])
unfolding new_backend start_each shutdown_all derive split_subnet print_block split_prefix
    bits_needed bit_len len_from to_number to_bytes
second_refused = refl
