-- ===== src/Singbox/Config.antt =====
-- backend/singbox/config.go: the parts of a sing-box configuration that the node reads. What JSON
-- the text holds and TrimSpace are arguments.
pub mod Valid
use pasarguard_node.Prelude.{
  String, Bool, true, false, ◌||◌, Option, none, some, List, [], ◌∷◌, ◌==◌, if◌then◌else◌, is_nil,
}

-- Which of a user's secrets an inbound authenticates with.
pub data CredentialKind : Type 0 where
  hysteria2 vless vmess trojan shadowsocks : CredentialKind

pub record ManagedInbound : Type 0 where
  pub tag : String
  pub kind : CredentialKind

pub record Config : Type 0 where
  pub raw : String
  pub clash_api_address : String
  pub clash_api_secret : String
  pub stats_address : String
  pub inbounds : List ManagedInbound

-- An inbound of the parsed configuration.
pub record Inbound : Type 0 where
  pub kind : String
  pub tag : String

pub record Parsed : Type 0 where
  pub external_controller : String
  pub secret : String
  pub listen : String
  pub stats_enabled : Bool
  pub stats_users : List String
  pub inbounds : List Inbound

pub data Error : Type 0 where
  empty_config invalid_json no_controller no_listen stats_disabled no_wildcard no_inbound : Error

pub data Result {ℓ} (A : Type ℓ) : Type ℓ where
  ok : A → Result A
  err : Error → Result A

unfoldable pub supported_inbounds : String → Option CredentialKind
supported_inbounds kind =
    if kind == "hysteria2"
    then some hysteria2
    else if kind == "vless"
    then some vless
    else if kind == "vmess"
    then some vmess
    else if kind == "trojan"
    then some trojan
    else if kind == "shadowsocks"
    then some shadowsocks
    else none

module _ (trim_space : String → String) where
  unfoldable pub contains_wildcard : List String → Bool
  contains_wildcard [] = false
  contains_wildcard (u ∷ us) = trim_space u == "*" || contains_wildcard us

  -- The tag and the kind, if the tag is not empty and the type is supported.
  unfoldable pub add_inbound :
      String → Option CredentialKind → List ManagedInbound → List ManagedInbound
  add_inbound tag none rest = rest
  add_inbound tag (some kind) rest =
      if tag == "" then rest else record { tag = tag; kind = kind } ∷ rest

  unfoldable pub managed_inbounds : List Inbound → List ManagedInbound
  unfolding add_inbound supported_inbounds
  managed_inbounds [] = []
  managed_inbounds (inbound ∷ inbounds) =
      add_inbound (trim_space inbound.tag) (supported_inbounds inbound.kind)
        (managed_inbounds inbounds)

  unfoldable pub finish_config : String → Parsed → List ManagedInbound → Result Config
  finish_config raw parsed inbounds =
      if trim_space parsed.external_controller == ""
      then err no_controller
      else if trim_space parsed.listen == ""
      then err no_listen
      else if parsed.stats_enabled
      then (if contains_wildcard parsed.stats_users
          then (if is_nil inbounds
              then err no_inbound
              else ok (record {
                raw = raw;
                clash_api_address = trim_space parsed.external_controller;
                clash_api_secret = parsed.secret;
                stats_address = trim_space parsed.listen;
                inbounds = inbounds;
              }))
          else err no_wildcard)
      else err stats_disabled

  unfoldable pub read_config : String → Option Parsed → Result Config
  unfolding finish_config contains_wildcard
  read_config raw none = err invalid_json
  read_config raw (some parsed) = finish_config raw parsed (managed_inbounds parsed.inbounds)

  unfoldable pub new_config : (String → Option Parsed) → String → Result Config
  unfolding read_config managed_inbounds
  new_config parse raw =
      if trim_space raw == "" then err empty_config else read_config raw (parse raw)

pub first_tag : List ManagedInbound → String
first_tag [] = ""
first_tag (inbound ∷ _) = inbound.tag

pub instance_id : Config → String
unfolding first_tag
instance_id c = first_tag c.inbounds
