-- ===== src/Xray/Accounts.antt =====
-- backend/xray/api/account.go, backend/xray/user.go and common/helper.go: a user's accounts, one for
-- each protocol. uuid.Parse, base64 and SHA-256 are arguments.
use pasarguard_node.Prelude.{ℕ, String, ◌||◌, Option, none, some, ◌==◌, if◌then◌else◌, is_some}
use pasarguard_node.User.{User, Proxy, Vmess, Vless, Trojan, Shadowsocks, Hysteria, get_proxies}

pub record BaseAccount : Type 0 where
  pub email : String
  pub level : ℕ

pub record VmessAccount : Type 0 where
  pub base : BaseAccount
  pub id : String

pub record VlessAccount : Type 0 where
  pub base : BaseAccount
  pub id : String
  pub flow : String

pub record TrojanAccount : Type 0 where
  pub base : BaseAccount
  pub password : String

pub record ShadowsocksAccount : Type 0 where
  pub base : BaseAccount
  pub password : String

pub record ShadowsocksTcpAccount : Type 0 where
  pub account : ShadowsocksAccount
  pub method : String

pub record HysteriaAccount : Type 0 where
  pub base : BaseAccount
  pub auth : String

-- The types that the interface Account stands for.
pub data Account : Type 0 where
  vmess_account : VmessAccount → Account
  vless_account : VlessAccount → Account
  trojan_account : TrojanAccount → Account
  shadowsocks_account : ShadowsocksAccount → Account
  shadowsocks_tcp_account : ShadowsocksTcpAccount → Account
  hysteria_account : HysteriaAccount → Account

unfoldable pub get_email : Account → String
get_email (vmess_account a) = a.base.email
get_email (vless_account a) = a.base.email
get_email (trojan_account a) = a.base.email
get_email (shadowsocks_account a) = a.base.email
get_email (shadowsocks_tcp_account a) = a.account.base.email
get_email (hysteria_account a) = a.base.email

unfoldable pub base_of : User → BaseAccount
base_of u = record { email = u.email; level = 0 }

-- CipherType_value
unfoldable pub cipher_value : String → Option ℕ
cipher_value method =
    if method == "aes-128-gcm"
    then some 5
    else if method == "aes-256-gcm"
    then some 6
    else if method == "chacha20-poly1305" || method == "chacha20-ietf-poly1305"
    then some 7
    else if method == "xchacha20-poly1305" || method == "xchacha20-ietf-poly1305"
    then some 8
    else if method == "none"
    then some 9
    else none

-- An absent key of the map reads as 0.
unfoldable pub number_or_zero : Option ℕ → ℕ
number_or_zero none = 0
number_or_zero (some n) = n

-- What Message puts for the account into the message to the core.
pub data Message : Type 0 where
  vmess_message : String → Message
  vless_message : String → String → Message
  trojan_message : String → Message
  shadowsocks_message : String → ℕ → Message
  shadowsocks_2022_message : String → Message
  hysteria_message : String → Message

unfoldable pub message : Account → Message
unfolding cipher_value number_or_zero
message (vmess_account a) = vmess_message a.id
message (vless_account a) = vless_message a.id a.flow
message (trojan_account a) = trojan_message a.password
message (shadowsocks_account a) = shadowsocks_2022_message a.password
message (shadowsocks_tcp_account a) =
    shadowsocks_message a.account.password (number_or_zero (cipher_value a.method))
message (hysteria_account a) = hysteria_message a.auth

-- The map of a pointer that err == nil sets.
abbrev pub map_option {ℓ κ} : {A : Type ℓ} {B : Type κ} → (A → B) → Option A → Option B
map_option f none = none
map_option f (some a) = some (f a)

unfoldable pub new_trojan_account : User → Trojan → TrojanAccount
unfolding base_of
new_trojan_account u p = record { base = base_of u; password = p.password }

unfoldable pub new_shadowsocks_account : User → Shadowsocks → ShadowsocksAccount
unfolding base_of
new_shadowsocks_account u p = record { base = base_of u; password = p.password }

unfoldable pub new_shadowsocks_tcp_account : User → Shadowsocks → ShadowsocksTcpAccount
unfolding new_shadowsocks_account cipher_value
new_shadowsocks_tcp_account u p = record {
  account = new_shadowsocks_account u p;
  method = if is_some (cipher_value p.method) then p.method else "none";
}

unfoldable pub new_hysteria_account : User → Hysteria → HysteriaAccount
unfolding base_of
new_hysteria_account u p = record { base = base_of u; auth = p.auth }

pub record ProxySettings : Type 0 where
  pub vmess : Option VmessAccount
  pub vless : Option VlessAccount
  pub trojan : Option TrojanAccount
  pub shadowsocks : Option ShadowsocksTcpAccount
  pub shadowsocks2022 : Option ShadowsocksAccount
  pub hysteria : Option HysteriaAccount

module _ (parse_uuid : String → Option String) where
  unfoldable pub new_vmess_account : User → Vmess → Option VmessAccount
  unfolding base_of
  new_vmess_account u p =
      map_option (λ (id : String). record { base = base_of u; id = id }) (parse_uuid p.id)

  unfoldable pub new_vless_account : User → Vless → Option VlessAccount
  unfolding base_of
  new_vless_account u p =
      map_option (λ (id : String). record { base = base_of u; id = id; flow = p.flow })
        (parse_uuid p.id)

  -- A pointer that stays nil if the proxy is absent or its account is refused.
  unfoldable pub setup_of : User → Proxy → ProxySettings
  unfolding new_vmess_account new_vless_account new_trojan_account new_shadowsocks_tcp_account
      new_shadowsocks_account new_hysteria_account
  setup_of u p = record {
    vmess = elim p.vmess [ none ↦ none | some v ↦ new_vmess_account u v ];
    vless = elim p.vless [ none ↦ none | some v ↦ new_vless_account u v ];
    trojan = map_option (new_trojan_account u) p.trojan;
    shadowsocks = map_option (new_shadowsocks_tcp_account u) p.shadowsocks;
    shadowsocks2022 = map_option (new_shadowsocks_account u) p.shadowsocks;
    hysteria = map_option (new_hysteria_account u) p.hysteria;
  }

  unfoldable pub setup_user_account : User → ProxySettings
  unfolding setup_of
  setup_user_account u = setup_of u (get_proxies u.proxies)
