-- ===== src/Singbox/Users/Updates.antt =====
-- backend/singbox/singbox.go: what an update does to the users that it names, and to the others.
use pasarguard_node.Prelude.{
  some_or, String, ◌≡◌, refl, ◌∙◌, false, Option, none, some, List, [], ◌∷◌, arith, ◌==◌,
  if◌then◌else◌, inl, inr, ◌⊎◌, Bool-cases,
}
use pasarguard_node.Dict
use pasarguard_node.Dict.{Dict, get-put, get-remove, get-empty}
use pasarguard_node.User.{User, get_proxies}
use pasarguard_node.Singbox.Config.{ManagedInbound}
use pasarguard_node.Singbox.Users.{
  UserCredentials, credentials, settle_user, sync_one, merge, is_empty, serves_any_of, secrets_of,
}

abbrev pub creds_in : Option (String × UserCredentials) → Option UserCredentials
creds_in none = none
creds_in (some (email, creds)) = some creds

abbrev pub or_else {ℓ} : {A : Type ℓ} → Option A → A → A
or_else none a = a
or_else (some b) a = b

module _ (trim_space : String → String) where
  -- What an update says of an email: nothing, or the credentials, which may be none.
  pub last_said :
      List ManagedInbound → List (Option User) → String → Option (Option UserCredentials)
  last_said inbounds [] e = none
  last_said inbounds (none ∷ us) e = last_said inbounds us e
  last_said inbounds (some u ∷ us) e = some_or (last_said inbounds us e) (
      if trim_space u.email == e then some (creds_in (credentials trim_space inbounds u)) else none)

  credentials-email :
      (inbounds : List ManagedInbound) (u : User)
      → (credentials trim_space inbounds u ≡ none)
        ⊎ ((c : UserCredentials) × (credentials trim_space inbounds u
              ≡ some (trim_space u.email, c)))
  unfolding credentials
  credentials-email inbounds u = elim (Bool-cases (trim_space u.email == "")) [
    | inl e ↦ inl (rw (e, credentials) refl)
    | inr e ↦ elim (Bool-cases (serves_any_of inbounds u.inbounds)) [
      | inr s ↦ inl (rw (e, s, credentials) refl)
      | inl s ↦ elim (Bool-cases (is_empty (secrets_of trim_space (get_proxies u.proxies)))) [
        | inl m ↦ inl (rw (e, s, m, credentials) refl)
        | inr m ↦
            inr (secrets_of trim_space (get_proxies u.proxies), rw (e, s, m, credentials) refl)
      ]
    ]
  ]

  get-settle_user :
      (inbounds : List ManagedInbound) (u : User) (users : Dict UserCredentials) (e : String)
      → Dict.get
          (settle_user trim_space (trim_space u.email) (credentials trim_space inbounds u) users)
          e
        ≡ (if trim_space u.email == e
            then creds_in (credentials trim_space inbounds u)
            else Dict.get users e)
  unfolding settle_user
  get-settle_user inbounds u users e = elim (credentials-email inbounds u) [
    | inl c ↦ rw (c, settle_user) (get-remove users (trim_space u.email) e)
    | inr (creds, c) ↦ rw (c, settle_user) (get-put users (trim_space u.email) e creds)
  ]

  -- After UpdateUsers the core has, of each email that it names, the credentials of the last
  -- user with that email, or none if that user does not belong to the core any more, and of
  -- every other email what it had.
  pub get-merge :
      (inbounds : List ManagedInbound) (us : List (Option User)) (users : Dict UserCredentials)
      (e : String)
      → Dict.get (merge trim_space inbounds us users) e
        ≡ or_else (last_said inbounds us e) (Dict.get users e)
  unfolding merge last_said
  get-merge inbounds [] users e = refl
  get-merge inbounds (none ∷ us) users e = get-merge inbounds us users e
  get-merge inbounds (some u ∷ us) users e =
      let next =
        settle_user trim_space (trim_space u.email) (credentials trim_space inbounds u) users in
      get-merge inbounds us next e ∙ ground (arith, get-settle_user inbounds u users e)

  -- SyncUser with a user who does not belong to the core any more, and whose email is not what
  -- TrimSpace makes of it, leaves the entry that the user has.
  pub sync_one_untrimmed :
      (inbounds : List ManagedInbound) (u : User) (users : Dict UserCredentials)
      → credentials trim_space inbounds u ≡ none
      → (u.email == trim_space u.email) ≡ false
      → Dict.get (sync_one trim_space inbounds u users) (trim_space u.email)
        ≡ Dict.get users (trim_space u.email)
  unfolding sync_one
  sync_one_untrimmed inbounds u users gone padded =
      rw (gone, settle_user) (get-remove users u.email (trim_space u.email) ∙ rw padded refl)
