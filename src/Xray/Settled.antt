-- ===== src/Xray/Settled.antt =====
-- backend/xray/config.go and backend/xray/user.go: the clients that an inbound has after an update,
-- and after a full synchronisation.
use pasarguard_node.Prelude.{
  ℕ, String, ◌≡◌, refl, ◌∙◌, sym, Bool, true, false, ◌&&◌, ◌||◌, not, Option, none, some, List, [],
  ◌∷◌, arith, ◌==◌, eq_iff, if◌then◌else◌, contains, is_some, some_or, inl, inr, Bool-cases,
  Option-cases, length,
}
use pasarguard_node.Dict
use pasarguard_node.Dict.{Dict, get-put, get-remove, get-empty}
use pasarguard_node.User.{User, Proxy, get_proxies}
use pasarguard_node.Xray.Accounts.{
  Account, get_email, setup_user_account, setup_of, base_of, new_vmess_account, new_vless_account,
  new_trojan_account, new_shadowsocks_account, new_shadowsocks_tcp_account, new_hysteria_account,
}
use pasarguard_node.Xray.Passwords.{is_aes_128, is_256, check_shadowsocks_2022}
use pasarguard_node.Xray.Inbounds.{
  Codecs, Inbound, Family, family_of, is_active_inbound, settings_for, sync_account, sync_each,
  sync_clients, if_served, put_account, remove_accounts, check,
}
use pasarguard_node.Xray.Users.{build_inbound_update, note_account, add_once}

-- What is documented of base64 and SHA-256.
pub record IsLawful (lib : Codecs) : Type 0 where
  pub decode_encode : (bytes : List ℕ) → lib.decode (lib.encode bytes) ≡ some bytes
  pub length_sha256 : (s : String) → length (lib.sha256 s) ≡ 32

-- A method of Shadowsocks 2022 names one of the ciphers whose key lengths are known.
unfoldable pub names_cipher : Family → Bool
names_cipher (Family.shadowsocks_2022 method) = is_aes_128 method || is_256 method
names_cipher _ = true

module _ (lib : Codecs) where
  -- The account of a user for an inbound, as UpdateUsers and SyncUser find it.
  abbrev pub account_of : Inbound → User → Option Account
  account_of i u = is_active_inbound lib i u.inbounds (setup_user_account lib.parse_uuid u)

  -- The account of the last user with the email who belongs to the inbound.
  unfoldable pub last_account : Inbound → List User → String → Option Account
  last_account i [] e = none
  last_account i (u ∷ us) e =
      some_or (last_account i us e) (if u.email == e then account_of i u else none)

  -- Some user with the email does not belong to the inbound.
  unfoldable pub is_removed : Inbound → List User → String → Bool
  is_removed i [] e = false
  is_removed i (u ∷ us) e = u.email == e && not (is_some (account_of i u)) || is_removed i us e

  pub settings_for-setup :
      (f : Family) (u : User) (p : Proxy)
      → settings_for lib f (setup_of lib.parse_uuid u p) ≡ sync_account lib f true u p
  unfolding settings_for setup_of sync_account if_served
  settings_for-setup Family.vmess u p = ground arith
  settings_for-setup Family.vless u p = ground arith
  settings_for-setup Family.trojan u p = ground arith
  settings_for-setup Family.shadowsocks u p = ground arith
  settings_for-setup (Family.shadowsocks_2022 method) u p = ground arith
  settings_for-setup Family.hysteria u p = ground arith
  settings_for-setup Family.other u p = refl

  sync_account-unserved : (f : Family) (u : User) (p : Proxy) → sync_account lib f false u p ≡ none
  unfolding sync_account if_served
  sync_account-unserved Family.vmess u p = ground arith
  sync_account-unserved Family.vless u p = ground arith
  sync_account-unserved Family.trojan u p = ground arith
  sync_account-unserved Family.shadowsocks u p = ground arith
  sync_account-unserved (Family.shadowsocks_2022 method) u p = ground arith
  sync_account-unserved Family.hysteria u p = ground arith
  sync_account-unserved Family.other u p = refl

  -- The account that a full synchronisation puts for a user is the one that an update puts.
  pub sync_account-eq-account_of :
      (i : Inbound) (u : User)
      → sync_account lib (family_of i) (contains i.tag u.inbounds) u (get_proxies u.proxies)
        ≡ account_of i u
  unfolding is_active_inbound setup_user_account
  sync_account-eq-account_of i u = elim (Bool-cases (contains i.tag u.inbounds)) [
    | inl e ↦ rw e (sym (settings_for-setup (family_of i) u (get_proxies u.proxies)))
    | inr e ↦ rw e (sync_account-unserved (family_of i) u (get_proxies u.proxies))
  ]

  pub get-put_account :
      (clients : Dict Account) (email e : String) (a : Option Account)
      → Dict.get (put_account email a clients) e
        ≡ some_or (if email == e then a else none) (Dict.get clients e)
  unfolding put_account
  get-put_account clients email e none = ground arith
  get-put_account clients email e (some a) = get-put clients email e a ∙ ground arith

  get-sync_each :
      (i : Inbound) (us : List User) (clients : Dict Account) (e : String)
      → Dict.get (sync_each lib i us clients) e ≡ some_or (last_account i us e) (Dict.get clients e)
  unfolding sync_each last_account
  get-sync_each i [] clients e = refl
  get-sync_each i (u ∷ us) clients e =
      let next =
        put_account u.email
          (sync_account lib (family_of i) (contains i.tag u.inbounds) u (get_proxies u.proxies))
          clients in
      get-sync_each i us next e
      ∙ ground (
        arith,
        sync_account-eq-account_of i u,
        get-put_account clients u.email e
            (sync_account lib (family_of i) (contains i.tag u.inbounds) u (get_proxies u.proxies)),
      )

  -- After a full synchronisation an inbound has, of each email, the account of the last user with
  -- the email who belongs to it, and no other client.
  pub get-sync_clients :
      (i : Inbound) (us : List User) (e : String)
      → Dict.get (sync_clients lib us i).clients e ≡ last_account i us e
  unfolding sync_clients
  get-sync_clients i us e =
      get-sync_each i us Dict.empty e ∙ ground (arith, get-empty {V = Account} e)

  pub get-remove_accounts :
      (emails : List String) (clients : Dict Account) (e : String)
      → Dict.get (remove_accounts emails clients) e
        ≡ (if contains e emails then none else Dict.get clients e)
  unfolding remove_accounts
  get-remove_accounts [] clients e = refl
  get-remove_accounts (email ∷ emails) clients e =
      get-remove_accounts emails (Dict.remove clients email) e
      ∙ ground (arith, get-remove clients email e)

  pub contains-remove_emails :
      (i : Inbound) (us : List User) (e : String)
      → contains e (build_inbound_update lib i us).remove_emails ≡ is_removed i us e
  unfolding build_inbound_update is_removed note_account add_once
  contains-remove_emails i [] e = refl
  contains-remove_emails i (u ∷ us) e = elim (Option-cases (account_of i u)) [
    | inl n ↦ rw (n, note_account) (ground (arith, contains-remove_emails i us e, eq_iff u.email e))
    | inr (a, s) ↦ rw (s, note_account) (ground (arith, contains-remove_emails i us e))
  ]

  settings_for-email :
      (f : Family) (u : User) (p : Proxy) (a : Account)
      → settings_for lib f (setup_of lib.parse_uuid u p) ≡ some a
      → get_email a ≡ u.email
  unfolding settings_for setup_of check check_shadowsocks_2022 get_email base_of new_vmess_account
      new_vless_account new_trojan_account new_shadowsocks_account new_shadowsocks_tcp_account
      new_hysteria_account
  settings_for-email Family.vmess u p a h = ground arith
  settings_for-email Family.vless u p a h = ground arith
  settings_for-email Family.trojan u p a h = ground arith
  settings_for-email Family.shadowsocks u p a h = ground arith
  settings_for-email (Family.shadowsocks_2022 method) u p a h = ground arith
  settings_for-email Family.hysteria u p a h = ground arith
  settings_for-email Family.other u p a h = cc h

  pub account_of-email :
      (i : Inbound) (u : User) (a : Account) → account_of i u ≡ some a → get_email a ≡ u.email
  unfolding is_active_inbound setup_user_account
  account_of-email i u a h = elim (Bool-cases (contains i.tag u.inbounds)) [
    | inl e ↦ settings_for-email (family_of i) u (get_proxies u.proxies) a (rw e at h)
    | inr e ↦ cc (rw e at h)
  ]
