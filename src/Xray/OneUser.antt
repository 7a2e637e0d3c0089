-- ===== src/Xray/OneUser.antt =====
-- backend/xray/user.go: after SyncUser the running core and the configuration agree.
use pasarguard_node.Prelude.{
  String, ◌≡◌, refl, ◌∙◌, true, none, some, List, [], ◌∷◌, arith, eq_refl, inl, inr, Option-cases,
}
use pasarguard_node.Dict
use pasarguard_node.Dict.{Dict, IsNodup, get-put, get-remove}
use pasarguard_node.User.{User}
use pasarguard_node.Xray.Accounts.{
  Account, vmess_account, vless_account, trojan_account, shadowsocks_account,
  shadowsocks_tcp_account, hysteria_account, get_email,
}
use pasarguard_node.Xray.Inbounds.{
  Codecs, Inbound, Family, family_of, shadowsocks_family, account_for_api, update_account,
  remove_account, checked_by, taken_as, check,
}
use pasarguard_node.Xray.Users.{Call, Answers, removed, sync_turn, sync_account_turn, sync_user}
use pasarguard_node.Xray.Settled.{IsLawful, names_cipher, account_of, account_of-email}
use pasarguard_node.Xray.Updated.{taken_as-account_of}
use pasarguard_node.Xray.Running.{held, add_inbound_user-taken, get_email-account_for_api}
use pasarguard_node.Xray.Agreement.{tags, Start, AllAgree, IsGood, visit-AllAgree}
use pasarguard_node.Xray.InStep.{AllKnown, account_for_api-clients}

family_of-method :
    (i : Inbound) (method : String)
    → family_of i ≡ Family.shadowsocks_2022 method
    → i.method ≡ some method
unfolding family_of shadowsocks_family
family_of-method i method h = ground arith

module _ (lib : Codecs) (lawful : IsLawful lib) where
  taken_as-2022 :
      (f : Family) (a : _)
      → taken_as lib f (shadowsocks_account a) ≡ some (shadowsocks_account a)
      → (method : String) × (f ≡ Family.shadowsocks_2022 method)
        × (check lib method (shadowsocks_account a) ≡ shadowsocks_account a)
  unfolding taken_as
  taken_as-2022 (Family.shadowsocks_2022 method) a h = (method, refl, ground arith)
  taken_as-2022 Family.vmess a h = cc h
  taken_as-2022 Family.vless a h = cc h
  taken_as-2022 Family.trojan a h = cc h
  taken_as-2022 Family.shadowsocks a h = cc h
  taken_as-2022 Family.hysteria a h = cc h
  taken_as-2022 Family.other a h = cc h

  checked_by-taken :
      (i : Inbound) (a : Account)
      → taken_as lib (family_of i) a ≡ some a
      → checked_by lib i.method a ≡ a
  unfolding checked_by check
  checked_by-taken i (shadowsocks_account a) h =
      let t = taken_as-2022 (family_of i) a h in rw (family_of-method i t.0 t.1) t.2
  checked_by-taken i (vmess_account a) h = ground arith
  checked_by-taken i (vless_account a) h = ground arith
  checked_by-taken i (trojan_account a) h = ground arith
  checked_by-taken i (shadowsocks_tcp_account a) h = ground arith
  checked_by-taken i (hysteria_account a) h = ground arith

  module _ (answers : Answers) (start : Start) (u : User) where
    sync_account_turn-removed :
        (i : Inbound) (calls : List Call) (errors : List String)
        → IsGood start i calls errors
            (sync_account_turn lib answers u i none (removed i.tag u.email ∷ calls) errors)
    unfolding sync_account_turn remove_account held
    sync_account_turn-removed i calls errors = record {
      none_before = λ h. h;
      same_tag = refl;
      same_exclude = refl;
      frame = λ h t e d. rw d refl;
      agrees = λ h x a e.
          rw
            (
              eq_refl i.tag,
              a e,
              account_for_api-clients i (Dict.remove i.clients u.email),
              get-remove i.clients u.email e,
            )
            (ground arith);
    }

    sync_account_turn-added :
        (i : Inbound) (account : Account) (calls : List Call) (errors : List String)
        → names_cipher (family_of i) ≡ true
        → account_of lib i u ≡ some account
        → IsGood start i calls errors (
            sync_account_turn lib answers u i (some account) (removed i.tag u.email ∷ calls) errors)
    unfolding sync_account_turn update_account held
    sync_account_turn-added i account calls errors known s =
        let asked = removed i.tag u.email ∷ calls in
        let taken = add_inbound_user-taken answers i.tag (account_for_api i account) asked errors in
        let mail = get_email-account_for_api i account ∙ account_of-email lib i u account s in
        let same =
          checked_by-taken i account (taken_as-account_of lib lawful i u account known s) in
        record {
          none_before = λ h. (taken h).0;
          same_tag = refl;
          same_exclude = refl;
          frame = λ h t e d. rw ((taken h).1, d) refl;
          agrees = λ h x a e.
              rw
                (
                  (taken h).1,
                  eq_refl i.tag,
                  mail,
                  a e,
                  account_for_api-clients i
                      (Dict.put i.clients (get_email account) (checked_by lib i.method account)),
                  get-put i.clients (get_email account) e (checked_by lib i.method account),
                  same,
                  account_of-email lib i u account s,
                )
                (ground arith);
        }

    sync_turn-IsGood :
        (i : Inbound) (calls : List Call) (errors : List String)
        → names_cipher (family_of i) ≡ true
        → IsGood start i calls errors (sync_turn lib answers u i calls errors)
    unfolding sync_turn
    sync_turn-IsGood i calls errors known = elim (Option-cases (account_of lib i u)) [
      | inl n ↦ rw n (sync_account_turn-removed i calls errors)
      | inr (a, s) ↦ rw s (sync_account_turn-added i a calls errors known s)
    ]

    -- If SyncUser succeeds, the tags of the inbounds are distinct, and each method of Shadowsocks
    -- 2022 names a known cipher, then the running core and the configuration agree on the inbounds
    -- that are not excluded, if they did before.
    pub sync_user-AllAgree :
        (is : List Inbound) (calls : List Call) (errors : List String)
        → AllKnown is
        → IsNodup (tags is)
        → (sync_user lib answers u is calls errors).errors ≡ []
        → AllAgree start calls is
        → AllAgree start
            (sync_user lib answers u is calls errors).calls
            (sync_user lib answers u is calls errors).inbounds
    unfolding sync_user
    sync_user-AllAgree is calls errors known distinct h a =
        visit-AllAgree start (λ i later. i.exclude) (sync_turn lib answers u)
          (λ i. names_cipher (family_of i) ≡ true) sync_turn-IsGood is calls errors known distinct h
          a
