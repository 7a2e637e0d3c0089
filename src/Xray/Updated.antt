-- ===== src/Xray/Updated.antt =====
-- backend/xray/config.go: the clients that an inbound has after updateUsers, against those after
-- syncUsers.
use pasarguard_node.Prelude.{
  String, ◌≡◌, refl, ◌∙◌, ap, true, ◌||◌, none, some, List, [], ◌∷◌, arith, if◌then◌else◌, contains,
  some_or, inl, inr, Bool-cases, Option-cases,
}
use pasarguard_node.Dict
use pasarguard_node.Dict.{Dict, IsNodup}
use pasarguard_node.User.{User}
use pasarguard_node.Xray.Accounts.{
  Account, vmess_account, vless_account, trojan_account, shadowsocks_account,
  shadowsocks_tcp_account, hysteria_account, ProxySettings, get_email, map_option,
  setup_user_account,
}
use pasarguard_node.Xray.Passwords.{
  is_aes_128, is_256, check_shadowsocks_2022, ensure_base64_password_idempotent,
}
use pasarguard_node.Xray.Inbounds.{
  Codecs, Inbound, Family, family_of, is_active_inbound, settings_for, put_account, taken_as,
  add_accounts, update_accounts, check,
}
use pasarguard_node.Xray.Users.{build_inbound_update, note_account, update_inbound}
use pasarguard_node.Xray.Settled.{
  IsLawful, names_cipher, account_of, last_account, is_removed, account_of-email, get-put_account,
  get-remove_accounts, contains-remove_emails,
}

module _ (lib : Codecs) (lawful : IsLawful lib) where
  pub check-check :
      (method : String) (a : Account)
      → (is_aes_128 method || is_256 method) ≡ true
      → check lib method (check lib method a) ≡ check lib method a
  unfolding check check_shadowsocks_2022
  check-check method (shadowsocks_account a) known =
      ap (λ p. shadowsocks_account (record a { password = p }))
        (ensure_base64_password_idempotent lib.decode lib.encode lib.sha256 lawful.decode_encode
          lawful.length_sha256 method a.password known)
  check-check method (vmess_account a) known = refl
  check-check method (vless_account a) known = refl
  check-check method (trojan_account a) known = refl
  check-check method (shadowsocks_tcp_account a) known = refl
  check-check method (hysteria_account a) known = refl

  taken_as-settings_for :
      (f : Family) (s : ProxySettings) (a : Account)
      → names_cipher f ≡ true
      → settings_for lib f s ≡ some a
      → taken_as lib f a ≡ some a
  unfolding settings_for names_cipher taken_as check
  taken_as-settings_for Family.vmess s a known h = ground arith
  taken_as-settings_for Family.vless s a known h = ground arith
  taken_as-settings_for Family.trojan s a known h = ground arith
  taken_as-settings_for Family.shadowsocks s a known h = ground arith
  taken_as-settings_for (Family.shadowsocks_2022 method) s a known h =
      elim (Option-cases s.shadowsocks2022) [
        | inl n ↦ cc (rw (n, map_option) at h)
        | inr (x, e) ↦
            ground
              (arith, rw (e, map_option) at h, check-check method (shadowsocks_account x) known)
      ]
  taken_as-settings_for Family.hysteria s a known h = ground arith
  taken_as-settings_for Family.other s a known h = cc h

  -- What an update has for an inbound, updateUsers takes as it is.
  pub taken_as-account_of :
      (i : Inbound) (u : User) (a : Account)
      → names_cipher (family_of i) ≡ true
      → account_of lib i u ≡ some a
      → taken_as lib (family_of i) a ≡ some a
  unfolding is_active_inbound
  taken_as-account_of i u a known h = elim (Bool-cases (contains i.tag u.inbounds)) [
    | inl e ↦
        taken_as-settings_for (family_of i) (setup_user_account lib.parse_uuid u) a known
          (rw e at h)
    | inr e ↦ cc (rw e at h)
  ]

  module _ (i : Inbound) (known : names_cipher (family_of i) ≡ true) where
    get-add_accounts :
        (us : List User) (clients : Dict Account) (e : String)
        → Dict.get
            (add_accounts lib (family_of i) (build_inbound_update lib i us).accounts clients)
            e
          ≡ some_or (last_account lib i us e) (Dict.get clients e)
    unfolding build_inbound_update add_accounts last_account
    get-add_accounts [] clients e = refl
    get-add_accounts (u ∷ us) clients e = elim (Option-cases (account_of lib i u)) [
      | inl n ↦ rw (n, note_account) (get-add_accounts us clients e ∙ ground arith)
      | inr (a, s) ↦
          rw (s, note_account)
            (get-add_accounts us (put_account (get_email a) (taken_as lib (family_of i) a) clients)
                e
              ∙ ground (
                arith,
                taken_as-account_of i u a known s,
                account_of-email lib i u a s,
                get-put_account lib clients (get_email a) e (taken_as lib (family_of i) a),
              ))
    ]

    -- After updateUsers an inbound has no client of an email that some user of the update has who
    -- does not belong to it; of another email it has the account of the last user of the update with
    -- the email, or else what it had. A method of Shadowsocks 2022 names a known cipher.
    pub get-update_inbound :
        (us : List User) (e : String)
        → Dict.get (update_inbound lib us i).clients e ≡ (
            if is_removed lib i us e
            then none
            else some_or (last_account lib i us e) (Dict.get i.clients e))
    unfolding update_inbound update_accounts
    get-update_inbound us e =
        get-remove_accounts lib (build_inbound_update lib i us).remove_emails
          (add_accounts lib (family_of i) (build_inbound_update lib i us).accounts i.clients) e
        ∙ ground (arith, contains-remove_emails lib i us e, get-add_accounts us i.clients e)
