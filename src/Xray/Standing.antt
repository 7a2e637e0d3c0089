-- ===== src/Xray/Standing.antt =====
-- backend/xray/config.go: the standing of an email in an update whose emails are distinct, and
-- updateUsers against syncUsers.
use pasarguard_node.Prelude.{
  String, ◌≡◌, refl, true, false, not, none, List, [], ◌∷◌, arith, ◌==◌, eq_iff, contains, is_some,
  inl, inr, Bool-cases,
}
use pasarguard_node.Dict
use pasarguard_node.Dict.{Dict, IsNodup}
use pasarguard_node.User.{User}
use pasarguard_node.Xray.Inbounds.{Codecs, Inbound, family_of, sync_clients}
use pasarguard_node.Xray.Users.{update_inbound}
use pasarguard_node.Xray.Settled.{
  IsLawful, names_cipher, last_account, is_removed, get-sync_clients,
}
use pasarguard_node.Xray.Updated.{get-update_inbound}

abbrev pub emails : List User → List String
emails [] = []
emails (u ∷ us) = u.email ∷ emails us

module _ (lib : Codecs) (i : Inbound) where
  pub last_account-unnamed :
      (us : List User) (e : String)
      → contains e (emails us) ≡ false
      → (last_account lib i us e ≡ none) × (is_removed lib i us e ≡ false)
  unfolding last_account is_removed
  last_account-unnamed [] e h = (refl, refl)
  last_account-unnamed (u ∷ us) e h = ground (arith, last_account-unnamed us e)

  -- An email that stands once in the update is removed, or has an account, and not both.
  pub is_removed-last_account :
      (us : List User) (e : String)
      → IsNodup (emails us)
      → contains e (emails us) ≡ true
      → is_removed lib i us e ≡ not (is_some (last_account lib i us e))
  unfolding last_account is_removed
  is_removed-last_account [] e d h = cc h
  is_removed-last_account (u ∷ us) e d h = elim (Bool-cases (u.email == e)) [
    | inl q ↦
        let gone = last_account-unnamed us e (ground (arith, d.0, eq_iff u.email e)) in
        rw (q, gone.0, gone.1) (ground arith)
    | inr q ↦ rw q (ground (arith, is_removed-last_account us e d.1))
  ]

  -- If the emails of an update are distinct, updateUsers leaves the same client of an email that it
  -- names as a full synchronisation with the users of the update. A method of Shadowsocks 2022 names
  -- a known cipher.
  pub update_inbound-eq-sync_clients :
      IsLawful lib
      → names_cipher (family_of i) ≡ true
      → (us : List User) → IsNodup (emails us)
      → (e : String) → contains e (emails us) ≡ true
      → Dict.get (update_inbound lib us i).clients e ≡ Dict.get (sync_clients lib us i).clients e
  update_inbound-eq-sync_clients lawful known us distinct e named = ground (
    arith,
    get-update_inbound lib lawful i known us e,
    get-sync_clients lib i us e,
    is_removed-last_account us e distinct named,
  )
