-- ===== src/Singbox/Slots/Payload.antt =====
-- backend/singbox/singbox.go: whose secrets a push hands to an inbound.
use pasarguard_node.Prelude.{
  ℕ, suc, String, ◌≡◌, refl, ◌∙◌, Bool, false, not, ◌&&◌, Option, none, some, List, [], ◌∷◌, arith,
  ◌==◌, eq_iff, eq_refl, if◌then◌else◌, is_some, contains, ap, Bool-cases, inl, inr,
}
use pasarguard_node.Dict
use pasarguard_node.Dict.{Dict}
use pasarguard_node.Singbox.Config.{CredentialKind}
use pasarguard_node.Singbox.Users.{UserCredentials, secret, no_credentials}
use pasarguard_node.Singbox.Slots.{
  SingBox, ClashUser, push_users, slot_user, payload_from, payload_for, new_clash_user, uses_uuid,
  credentials_or_none, free_slot_name, reconcile_slots,
}
use pasarguard_node.Singbox.Slots.Stable.{Event, run}
use pasarguard_node.Singbox.Slots.Exact.{
  IsOnce, contains-reconcile_slots, reconcile_slots-IsOnce, run-IsOnce,
}

-- The entries of a payload with a name.
abbrev pub entries_of : String → List ClashUser → List ClashUser
entries_of e [] = []
entries_of e (u ∷ us) = let rest = entries_of e us in if u.name == e then u ∷ rest else rest

-- The secret of a user for each protocol.
abbrev pub secret_for : UserCredentials → CredentialKind → String
secret_for c CredentialKind.hysteria2 = c.hysteria2
secret_for c CredentialKind.vless = c.vless_uuid
secret_for c CredentialKind.vmess = c.vmess_uuid
secret_for c CredentialKind.trojan = c.trojan_pass
secret_for c CredentialKind.shadowsocks = c.shadowsocks

-- An entry with a secret, which is a UUID for VLESS and VMess and a password for the others.
abbrev pub entry_with : CredentialKind → String → String → ClashUser
entry_with CredentialKind.hysteria2 e sec = record { name = e; password = sec; uuid = "" }
entry_with CredentialKind.vless e sec = record { name = e; password = ""; uuid = sec }
entry_with CredentialKind.vmess e sec = record { name = e; password = ""; uuid = sec }
entry_with CredentialKind.trojan e sec = record { name = e; password = sec; uuid = "" }
entry_with CredentialKind.shadowsocks e sec = record { name = e; password = sec; uuid = "" }

-- What a payload holds of an email: nothing of who is no user or has no secret, else one entry.
abbrev pub own_entries : Option UserCredentials → CredentialKind → String → List ClashUser
own_entries none kind e = []
own_entries (some c) kind e =
    if secret_for c kind == "" then [] else entry_with kind e (secret_for c kind) ∷ []

-- The secret of an email, empty if it is no user's.
abbrev secret_of : Dict UserCredentials → CredentialKind → String → String
secret_of users kind e = secret (credentials_or_none (Dict.get users e)) kind

-- An entry with the secret, if there is one.
abbrev entry_if : Bool → CredentialKind → String → String → List ClashUser
entry_if there kind e sec = if there && not (sec == "") then new_clash_user e kind sec ∷ [] else []

new_clash_user-name :
    (e : String) (kind : CredentialKind) (sec : String) → (new_clash_user e kind sec).name ≡ e
unfolding new_clash_user
new_clash_user-name e kind sec = ground arith

secret-secret_for :
    (c : UserCredentials) (kind : CredentialKind) → secret c kind ≡ secret_for c kind
unfolding secret
secret-secret_for c CredentialKind.hysteria2 = refl
secret-secret_for c CredentialKind.vless = refl
secret-secret_for c CredentialKind.vmess = refl
secret-secret_for c CredentialKind.trojan = refl
secret-secret_for c CredentialKind.shadowsocks = refl

new_clash_user-entry_with :
    (e : String) (kind : CredentialKind) (sec : String)
    → new_clash_user e kind sec ≡ entry_with kind e sec
unfolding new_clash_user uses_uuid
new_clash_user-entry_with e CredentialKind.hysteria2 sec = refl
new_clash_user-entry_with e CredentialKind.vless sec = refl
new_clash_user-entry_with e CredentialKind.vmess sec = refl
new_clash_user-entry_with e CredentialKind.trojan sec = refl
new_clash_user-entry_with e CredentialKind.shadowsocks sec = refl

entry_if-own_entries :
    (u : Option UserCredentials) (kind : CredentialKind) (e : String)
    → entry_if (is_some u) kind e (secret (credentials_or_none u) kind) ≡ own_entries u kind e
unfolding credentials_or_none
entry_if-own_entries none kind e = refl
entry_if-own_entries (some c) kind e =
    ground (arith, secret-secret_for c kind, new_clash_user-entry_with e kind (secret_for c kind))

secret_none : (kind : CredentialKind) → secret no_credentials kind ≡ ""
unfolding secret
secret_none CredentialKind.hysteria2 = refl
secret_none CredentialKind.vless = refl
secret_none CredentialKind.vmess = refl
secret_none CredentialKind.trojan = refl
secret_none CredentialKind.shadowsocks = refl

module _ (trim_space : String → String) (free_slot_secret : CredentialKind → ℕ → String) where
  -- A slot names its email if it has a secret, and nobody otherwise.
  entries-slot_user :
      (kind : CredentialKind) (index : ℕ) (d sec e : String) (us : List ClashUser)
      → (e == free_slot_name) ≡ false
      → entries_of e (slot_user trim_space free_slot_secret kind index d sec ∷ us) ≡ (
          if d == e && not (sec == "")
          then new_clash_user d kind sec ∷ entries_of e us
          else entries_of e us)
  unfolding slot_user
  entries-slot_user kind index d sec e us h = ground (
    arith,
    new_clash_user-name free_slot_name kind (free_slot_secret kind index),
    new_clash_user-name d kind sec,
    eq_iff e free_slot_name,
    eq_iff free_slot_name e,
  )

  entries-payload_from :
      (users : Dict UserCredentials) (kind : CredentialKind) (index : ℕ) (slots : List String)
      (e : String)
      → (e == "") ≡ false
      → (e == free_slot_name) ≡ false
      → IsOnce slots
      → entries_of e (payload_from trim_space free_slot_secret users kind index slots)
        ≡ entry_if (contains e slots) kind e (secret_of users kind e)
  unfolding payload_from
  entries-payload_from users kind index [] e named real h = refl
  entries-payload_from users kind index (d ∷ slots) e named real (p, h) =
      let sec = if d == "" then "" else secret_of users kind d in
      let us = payload_from trim_space free_slot_secret users kind (suc index) slots in
      let ih = entries-payload_from users kind (suc index) slots e named real h in
      entries-slot_user kind index d sec e us real ∙ elim (Bool-cases (d == e)) [
        | inl same ↦
            let q : d ≡ e = (eq_iff d e).0 same in
            let out = rw q at p in rw q (ground (arith, ih, out, named, eq_refl e))
        | inr other ↦ ground (arith, ih, other)
      ]

  -- From a start of the process on, after any events and a push, a user whose email is neither
  -- empty nor the name of free slots stands in the payload for each protocol exactly once with
  -- their secret for it, a UUID for VLESS and VMess and a password for the others, or not at all if
  -- they have no such secret or are no user of the core.
  pub entries-push_users :
      (answer : String → List ClashUser → Option String) (s : SingBox) (es : List Event)
      (kind : CredentialKind) (e : String)
      → IsOnce s.slots
      → (e == "") ≡ false
      → (e == free_slot_name) ≡ false
      → let s' =
          (push_users trim_space free_slot_secret answer
            (run trim_space free_slot_secret s es)).0 in
        entries_of e (payload_for trim_space free_slot_secret s' kind)
        ≡ own_entries (Dict.get s'.users e) kind e
  unfolding push_users payload_for
  entries-push_users answer s es kind e h named real =
      let now = run trim_space free_slot_secret s es in
      let slots = reconcile_slots now.users now.slots in
      let once =
        reconcile_slots-IsOnce now.users now.slots
          (run-IsOnce trim_space free_slot_secret s es h) in
      entries-payload_from now.users kind 0 slots e named real once
      ∙ ap (λ b. entry_if b kind e (secret_of now.users kind e))
          (contains-reconcile_slots now.users now.slots e named)
      ∙ entry_if-own_entries (Dict.get now.users e) kind e
