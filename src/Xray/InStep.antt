-- ===== src/Xray/InStep.antt =====
-- backend/xray/user.go: after SyncUser and UpdateUsers the running core and the configuration agree.
use pasarguard_node.Prelude.{String, ◌≡◌, refl, ◌∙◌, true, Option, none, some, List, [], eq_refl}
use pasarguard_node.Dict
use pasarguard_node.Dict.{Dict, get-put, get-remove}
use pasarguard_node.User.{User}
use pasarguard_node.Xray.Accounts.{
  Account, vmess_account, vless_account, trojan_account, shadowsocks_account,
  shadowsocks_tcp_account, hysteria_account, map_option,
}
use pasarguard_node.Xray.Inbounds.{Codecs, Inbound, family_of, account_for_api, update_accounts}
use pasarguard_node.Xray.Users.{Call, Answers, update_turn, update_inbound}
use pasarguard_node.Xray.Settled.{IsLawful, names_cipher, last_account, is_removed}
use pasarguard_node.Xray.Updated.{get-update_inbound}
use pasarguard_node.Xray.Running.{held, held-update_turn}
use pasarguard_node.Xray.Agreement.{Start, AllFit}

-- Every method of Shadowsocks 2022 names a known cipher.
abbrev pub AllKnown : List Inbound → Type 0
AllKnown = AllFit (λ i. names_cipher (family_of i) ≡ true)

pub account_for_api-clients :
    (i : Inbound) (clients : Dict Account) (o : Option Account)
    → map_option (account_for_api (record i { clients = clients })) o
      ≡ map_option (account_for_api i) o
unfolding account_for_api
account_for_api-clients i clients none = refl
account_for_api-clients i clients (some (vmess_account a)) = refl
account_for_api-clients i clients (some (vless_account a)) = refl
account_for_api-clients i clients (some (trojan_account a)) = refl
account_for_api-clients i clients (some (shadowsocks_account a)) = refl
account_for_api-clients i clients (some (shadowsocks_tcp_account a)) = refl
account_for_api-clients i clients (some (hysteria_account a)) = refl

module _ (lib : Codecs) (lawful : IsLawful lib) (answers : Answers) where
  update_turn-clients :
      (us : List User) (i : Inbound) (calls : List Call) (errors : List String)
      → (update_turn lib answers us i calls errors).inbound
        ≡ record i { clients = (update_inbound lib us i).clients }
  unfolding update_turn update_inbound update_accounts
  update_turn-clients us i calls errors = refl

  module _ (start : Start) where
    -- An email that an update names twice, once with a user who does not belong to the inbound any
    -- more and once with one who does, has no client in the configuration after UpdateUsers, and
    -- the account of the last who does in the running core, if UpdateUsers succeeds for the inbound
    -- and a method of Shadowsocks 2022 names a known cipher.
    pub update_turn-named_twice :
        (us : List User) (i : Inbound) (calls : List Call) (errors : List String) (e : String)
        (a : Account)
        → names_cipher (family_of i) ≡ true
        → (update_turn lib answers us i calls errors).errors ≡ []
        → is_removed lib i us e ≡ true
        → last_account lib i us e ≡ some a
        → (Dict.get (update_turn lib answers us i calls errors).inbound.clients e ≡ none)
          × (held (update_turn lib answers us i calls errors).calls i.tag e (start i.tag e)
              ≡ some (account_for_api i a))
    update_turn-named_twice us i calls errors e a known h gone last = (
      rw (update_turn-clients us i calls errors, get-update_inbound lib lawful i known us e, gone)
          refl,
      (held-update_turn answers lib i us calls errors h).1 i.tag e (start i.tag e)
          ∙ rw (eq_refl i.tag, last) refl,
    )
