-- ===== src/Singbox/Users.antt =====
-- backend/singbox/singbox.go: the users of the core, and the secrets that they authenticate with.
pub mod Updates
use pasarguard_node.Prelude.{
  String, Bool, true, false, ◌&&◌, ◌||◌, Option, none, some, List, [], ◌∷◌, ◌==◌, if◌then◌else◌,
}
use pasarguard_node.Dict
use pasarguard_node.Dict.{Dict}
use pasarguard_node.User.{User, Proxy, Vmess, Vless, Trojan, Shadowsocks, Hysteria, get_proxies}
use pasarguard_node.Singbox.Config.{
  CredentialKind, hysteria2, vless, vmess, trojan, shadowsocks, ManagedInbound,
}

pub record UserCredentials : Type 0 where
  pub hysteria2 : String
  pub vless_uuid : String
  pub vmess_uuid : String
  pub trojan_pass : String
  pub shadowsocks : String

-- Of an absent user in the map, every secret is empty.
abbrev pub no_credentials : UserCredentials
no_credentials = record {
  hysteria2 = "";
  vless_uuid = "";
  vmess_uuid = "";
  trojan_pass = "";
  shadowsocks = "";
}

unfoldable pub secret : UserCredentials → CredentialKind → String
secret c CredentialKind.hysteria2 = c.hysteria2
secret c CredentialKind.vless = c.vless_uuid
secret c CredentialKind.vmess = c.vmess_uuid
secret c CredentialKind.trojan = c.trojan_pass
secret c CredentialKind.shadowsocks = c.shadowsocks

unfoldable pub is_empty : UserCredentials → Bool
is_empty c =
    c.hysteria2 == ""
    && c.vless_uuid == ""
    && c.vmess_uuid == ""
    && c.trojan_pass == ""
    && c.shadowsocks == ""

unfoldable pub has_tag : String → List ManagedInbound → Bool
has_tag tag [] = false
has_tag tag (own ∷ inbounds) = tag == own.tag || has_tag tag inbounds

unfoldable pub serves_any_of : List ManagedInbound → List String → Bool
unfolding has_tag
serves_any_of inbounds [] = false
serves_any_of inbounds (tag ∷ tags) = has_tag tag inbounds || serves_any_of inbounds tags

-- The getters of absent messages.
unfoldable pub auth_of : Option Hysteria → String
auth_of none = ""
auth_of (some p) = p.auth

unfoldable pub vless_id : Option Vless → String
vless_id none = ""
vless_id (some p) = p.id

unfoldable pub vmess_id : Option Vmess → String
vmess_id none = ""
vmess_id (some p) = p.id

unfoldable pub trojan_password : Option Trojan → String
trojan_password none = ""
trojan_password (some p) = p.password

unfoldable pub shadowsocks_password : Option Shadowsocks → String
shadowsocks_password none = ""
shadowsocks_password (some p) = p.password

module _ (trim_space : String → String) where
  unfoldable pub secrets_of : Proxy → UserCredentials
  unfolding auth_of vless_id vmess_id trojan_password shadowsocks_password
  secrets_of p = record {
    hysteria2 = trim_space (auth_of p.hysteria);
    vless_uuid = trim_space (vless_id p.vless);
    vmess_uuid = trim_space (vmess_id p.vmess);
    trojan_pass = trim_space (trojan_password p.trojan);
    shadowsocks = trim_space (shadowsocks_password p.shadowsocks);
  }

  -- The email and the secrets of a user who belongs on this core.
  unfoldable pub credentials : List ManagedInbound → User → Option (String × UserCredentials)
  unfolding serves_any_of is_empty secrets_of
  credentials inbounds u =
      if trim_space u.email == ""
      then none
      else if serves_any_of inbounds u.inbounds
      then (if is_empty (secrets_of (get_proxies u.proxies))
          then none
          else some (trim_space u.email, secrets_of (get_proxies u.proxies)))
      else none

  -- What becomes of the users: the credentials are put, or the name is deleted.
  settle_user :
      String → Option (String × UserCredentials) → Dict UserCredentials → Dict UserCredentials
  settle_user gone none users = Dict.remove users gone
  settle_user gone (some (email, creds)) users = Dict.put users email creds

  -- SyncUser deletes the email as it is given, without TrimSpace.
  pub sync_one : List ManagedInbound → User → Dict UserCredentials → Dict UserCredentials
  unfolding settle_user credentials
  sync_one inbounds u users = settle_user u.email (credentials inbounds u) users

  -- The loop of mergeUsers.
  pub merge : List ManagedInbound → List (Option User) → Dict UserCredentials → Dict UserCredentials
  unfolding settle_user credentials
  merge inbounds [] users = users
  merge inbounds (none ∷ us) users = merge inbounds us users
  merge inbounds (some u ∷ us) users =
      merge inbounds us (settle_user (trim_space u.email) (credentials inbounds u) users)

  add_user : Option (String × UserCredentials) → Dict UserCredentials → Dict UserCredentials
  add_user none next = next
  add_user (some (email, creds)) next = Dict.put next email creds

  -- The loop of replaceUsers.
  pub collect_users :
      List ManagedInbound → List (Option User) → Dict UserCredentials → Dict UserCredentials
  unfolding add_user credentials
  collect_users inbounds [] next = next
  collect_users inbounds (none ∷ us) next = collect_users inbounds us next
  collect_users inbounds (some u ∷ us) next =
      collect_users inbounds us (add_user (credentials inbounds u) next)
