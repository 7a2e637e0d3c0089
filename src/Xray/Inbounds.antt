-- ===== src/Xray/Inbounds.antt =====
-- backend/xray/config.go and backend/xray/user.go: the clients of an inbound. A nil map of clients is
-- the empty one. Of Settings an inbound has the method and the flow, where they are texts.
use text.Mathlib.Text.{starts_with}
use pasarguard_node.Prelude.{
  ℕ, String, Bool, Option, none, some, List, [], ◌∷◌, ◌==◌, if◌then◌else◌, contains,
}
use pasarguard_node.Dict
use pasarguard_node.Dict.{Dict}
use pasarguard_node.User.{User, Proxy, get_proxies}
use pasarguard_node.Xray.Accounts.{
  Account, vmess_account, vless_account, trojan_account, shadowsocks_account,
  shadowsocks_tcp_account, hysteria_account, ProxySettings, get_email, map_option,
  new_vmess_account, new_vless_account, new_trojan_account, new_shadowsocks_account,
  new_shadowsocks_tcp_account, new_hysteria_account,
}
use pasarguard_node.Xray.Passwords.{check_shadowsocks_2022}

-- uuid.Parse, base64's DecodeString and EncodeToString, and sha256.Sum256
pub record Codecs : Type 0 where
  pub parse_uuid : String → Option String
  pub decode : String → Option (List ℕ)
  pub encode : List ℕ → String
  pub sha256 : String → List ℕ

pub record Inbound : Type 0 where
  pub tag : String
  pub listen : String
  pub protocol : String
  pub method : Option String
  pub flow : Option String
  pub exclude : Bool
  pub clients : Dict Account

-- The cases of `switch i.Protocol`, the test of the method included.
pub data Family : Type 0 where
  vmess vless trojan shadowsocks hysteria other : Family
  shadowsocks_2022 : String → Family

unfoldable pub shadowsocks_family : Option String → Family
shadowsocks_family none = shadowsocks
shadowsocks_family (some method) =
    if starts_with method "2022-blake3" then shadowsocks_2022 method else shadowsocks

unfoldable pub family_of : Inbound → Family
unfolding shadowsocks_family
family_of i =
    if i.protocol == "vmess"
    then vmess
    else if i.protocol == "vless"
    then vless
    else if i.protocol == "trojan"
    then trojan
    else if i.protocol == "shadowsocks"
    then shadowsocks_family i.method
    else if i.protocol == "hysteria"
    then hysteria
    else other

unfoldable pub inbound_flow : Option String → String
inbound_flow none = ""
inbound_flow (some flow) = flow

unfoldable pub account_for_api : Inbound → Account → Account
unfolding inbound_flow
account_for_api i (vless_account a) =
    if inbound_flow i.flow == ""
    then vless_account a
    else vless_account (record a { flow = inbound_flow i.flow })
account_for_api i a = a

unfoldable pub put_account : String → Option Account → Dict Account → Dict Account
put_account email none clients = clients
put_account email (some account) clients = Dict.put clients email account

unfoldable pub remove_accounts : List String → Dict Account → Dict Account
remove_accounts [] clients = clients
remove_accounts (email ∷ emails) clients = remove_accounts emails (Dict.remove clients email)

-- Inbound.removeUser
unfoldable pub remove_account : String → Inbound → Inbound
remove_account email i = record i { clients = Dict.remove i.clients email }

-- `if proxy == nil { continue }; if slices.Contains(user.Inbounds, i.Tag) { ... }`
unfoldable pub if_served {ℓ} :
    {A : Type ℓ} → Bool → Option A → (A → Option Account) → Option Account
if_served served none f = none
if_served served (some p) f = if served then f p else none

module _ (lib : Codecs) where
  unfoldable pub check : String → Account → Account
  unfolding check_shadowsocks_2022
  check method (shadowsocks_account a) =
      shadowsocks_account (check_shadowsocks_2022 lib.decode lib.encode lib.sha256 method a)
  check method a = a

  -- Which accounts the loops of updateUsers take: those of the inbound's own type.
  unfoldable pub taken_as : Family → Account → Option Account
  unfolding check
  taken_as Family.vmess (vmess_account a) = some (vmess_account a)
  taken_as Family.vless (vless_account a) = some (vless_account a)
  taken_as Family.trojan (trojan_account a) = some (trojan_account a)
  taken_as Family.shadowsocks (shadowsocks_tcp_account a) = some (shadowsocks_tcp_account a)
  taken_as Family.hysteria (hysteria_account a) = some (hysteria_account a)
  taken_as (Family.shadowsocks_2022 method) (shadowsocks_account a) =
      some (check method (shadowsocks_account a))
  taken_as _ _ = none

  unfoldable pub add_accounts : Family → List Account → Dict Account → Dict Account
  unfolding put_account taken_as
  add_accounts family [] clients = clients
  add_accounts family (a ∷ rest) clients =
      add_accounts family rest (put_account (get_email a) (taken_as family a) clients)

  -- Inbound.updateUsers
  unfoldable pub update_accounts : List Account → List String → Inbound → Inbound
  unfolding add_accounts remove_accounts family_of
  update_accounts accounts remove_emails i = record i {
    clients = remove_accounts remove_emails (add_accounts (family_of i) accounts i.clients);
  }

  unfoldable pub checked_by : Option String → Account → Account
  unfolding check
  checked_by none account = account
  checked_by (some method) account = check method account

  -- Inbound.updateUser
  unfoldable pub update_account : Account → Inbound → Inbound
  unfolding checked_by
  update_account account i = record i {
    clients = Dict.put i.clients (get_email account) (checked_by i.method account);
  }

  unfoldable pub settings_for : Family → ProxySettings → Option Account
  unfolding check
  settings_for Family.vmess s = map_option vmess_account s.vmess
  settings_for Family.vless s = map_option vless_account s.vless
  settings_for Family.trojan s = map_option trojan_account s.trojan
  settings_for (Family.shadowsocks_2022 method) s =
      map_option (λ a. check method (shadowsocks_account a)) s.shadowsocks2022
  settings_for Family.shadowsocks s = map_option shadowsocks_tcp_account s.shadowsocks
  settings_for Family.hysteria s = map_option hysteria_account s.hysteria
  settings_for Family.other s = none

  unfoldable pub is_active_inbound : Inbound → List String → ProxySettings → Option Account
  unfolding settings_for family_of
  is_active_inbound i inbounds s =
      if contains i.tag inbounds then settings_for (family_of i) s else none

  -- What the loop of syncUsers puts for a user.
  unfoldable pub sync_account : Family → Bool → User → Proxy → Option Account
  unfolding if_served check
  sync_account Family.vmess served u p =
      if_served served p.vmess
        (λ v. map_option vmess_account (new_vmess_account lib.parse_uuid u v))
  sync_account Family.vless served u p =
      if_served served p.vless
        (λ v. map_option vless_account (new_vless_account lib.parse_uuid u v))
  sync_account Family.trojan served u p =
      if_served served p.trojan (λ v. some (trojan_account (new_trojan_account u v)))
  sync_account (Family.shadowsocks_2022 method) served u p =
      if_served served p.shadowsocks
        (λ v. some (check method (shadowsocks_account (new_shadowsocks_account u v))))
  sync_account Family.shadowsocks served u p =
      if_served served p.shadowsocks
        (λ v. some (shadowsocks_tcp_account (new_shadowsocks_tcp_account u v)))
  sync_account Family.hysteria served u p =
      if_served served p.hysteria (λ v. some (hysteria_account (new_hysteria_account u v)))
  sync_account Family.other served u p = none

  unfoldable pub sync_each : Inbound → List User → Dict Account → Dict Account
  unfolding put_account sync_account family_of
  sync_each i [] clients = clients
  sync_each i (u ∷ us) clients = sync_each i us (
      put_account u.email
        (sync_account (family_of i) (contains i.tag u.inbounds) u (get_proxies u.proxies)) clients)

  -- Inbound.syncUsers
  unfoldable pub sync_clients : List User → Inbound → Inbound
  unfolding sync_each
  sync_clients us i = record i { clients = sync_each i us Dict.empty }
