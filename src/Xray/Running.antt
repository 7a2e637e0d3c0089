-- ===== src/Xray/Running.antt =====
-- backend/xray/user.go: what the running core holds after the calls of its handler, if it does what
-- the calls that it took ask.
use pasarguard_node.Prelude.{
  String, ◌≡◌, refl, ◌∙◌, ap, ◌&&◌, Option, none, some, List, [], ◌∷◌, arith, ◌==◌, if◌then◌else◌,
  contains, some_or, inl, inr, Option-cases,
}
use pasarguard_node.User.{User}
use pasarguard_node.Xray.Accounts.{
  Account, vmess_account, vless_account, trojan_account, shadowsocks_account,
  shadowsocks_tcp_account, hysteria_account, get_email, map_option,
}
use pasarguard_node.Xray.Inbounds.{Codecs, Inbound, account_for_api}
use pasarguard_node.Xray.Users.{
  Call, removed, added, refused, Answers, note_answer, add_inbound_user, add_calls, remove_calls,
  update_turn, build_inbound_update, note_account,
}
use pasarguard_node.Xray.Settled.{
  account_of, last_account, is_removed, account_of-email, contains-remove_emails,
}

-- The account under a tag and an email after the calls.
unfoldable pub held : List Call → String → String → Option Account → Option Account
held [] tag e before = before
held (removed t email ∷ calls) tag e before =
    let rest = held calls tag e before in if t == tag && (email == e) then none else rest
held (added t a ∷ calls) tag e before =
    let rest = held calls tag e before in if t == tag && (get_email a == e) then some a else rest
held (refused t a ∷ calls) tag e before = held calls tag e before

pub get_email-account_for_api :
    (i : Inbound) (a : Account) → get_email (account_for_api i a) ≡ get_email a
unfolding account_for_api get_email
get_email-account_for_api i (vmess_account a) = refl
get_email-account_for_api i (vless_account a) = ground arith
get_email-account_for_api i (trojan_account a) = refl
get_email-account_for_api i (shadowsocks_account a) = refl
get_email-account_for_api i (shadowsocks_tcp_account a) = refl
get_email-account_for_api i (hysteria_account a) = refl

held-remove_calls :
    (tag : String) (emails : List String) (calls : List Call) (t e : String) (b : Option Account)
    → held (remove_calls tag emails calls) t e b
      ≡ (if tag == t && contains e emails then none else held calls t e b)
unfolding remove_calls held
held-remove_calls tag [] calls t e b = ground arith
held-remove_calls tag (email ∷ emails) calls t e b =
    held-remove_calls tag emails (removed tag email ∷ calls) t e b ∙ ground arith

module _ (answers : Answers) where
  -- A call that adds no error was taken.
  pub add_inbound_user-taken :
      (tag : String) (a : Account) (calls : List Call) (errors : List String)
      → (add_inbound_user answers tag a calls errors).errors ≡ []
      → (errors ≡ []) × ((add_inbound_user answers tag a calls errors).calls ≡ added tag a ∷ calls)
  unfolding add_inbound_user
  add_inbound_user-taken tag a calls errors h = elim (Option-cases (answers calls tag a)) [
    | inl n ↦ rw (n, note_answer) (rw (n, note_answer) at h, refl)
    | inr (e, s) ↦ cc (rw (s, note_answer) at h)
  ]

module _ (answers : Answers) (lib : Codecs) (i : Inbound) where
  held-added :
      (us : List User) (a : Account) (u : User) (calls : List Call) (t e : String)
      (b : Option Account)
      → get_email a ≡ u.email
      → some_or
          (if i.tag == t then map_option (account_for_api i) (last_account lib i us e) else none)
          (held (added i.tag (account_for_api i a) ∷ removed i.tag (get_email a) ∷ calls) t e b)
        ≡ some_or
            (if i.tag == t
              then map_option
                  (account_for_api i)
                  (some_or (last_account lib i us e) (if u.email == e then some a else none))
              else none)
            (held calls t e b)
  unfolding held
  held-added us a u calls t e b m = rw (get_email-account_for_api i a, m) (ground arith)

  -- The account of the last user with the email, as the handler gives it to the core.
  held-add_calls :
      (us : List User) (calls : List Call) (errors : List String)
      → (add_calls lib answers i (build_inbound_update lib i us).accounts calls errors).errors ≡ []
      → (errors ≡ [])
        × ((t e : String) (b : Option Account)
            → held
                (add_calls lib answers i
                  (build_inbound_update lib i us).accounts
                  calls
                  errors).calls
                t
                e
                b
              ≡ some_or
                  (if i.tag == t
                    then map_option (account_for_api i) (last_account lib i us e)
                    else none)
                  (held calls t e b))
  unfolding add_calls build_inbound_update last_account
  held-add_calls [] calls errors h = (h, λ t e b. ground arith)
  held-add_calls (u ∷ us) calls errors h = elim (Option-cases (account_of lib i u)) [
    | inl n ↦
        let ih = held-add_calls us calls errors (rw (n, note_account) at h) in
        rw (n, note_account) (ih.0, λ t e b. ih.1 t e b ∙ ground arith)
    | inr (a, s) ↦
        let asked = removed i.tag (get_email a) ∷ calls in
        let next = add_inbound_user answers i.tag (account_for_api i a) asked errors in
        let ih = held-add_calls us next.calls next.errors (rw (s, note_account) at h) in
        let taken = add_inbound_user-taken answers i.tag (account_for_api i a) asked errors ih.0 in
        rw (s, note_account)
          (
            taken.0,
            λ t e b.
                ih.1 t e b
                ∙ ap
                    (some_or (
                      if i.tag == t
                      then map_option (account_for_api i) (last_account lib i us e)
                      else none))
                    (ap (λ c. held c t e b) taken.1)
                ∙ held-added us a u calls t e b (account_of-email lib i u a s),
          )
  ]

  -- After an inbound's turn in UpdateUsers, if the core took every account: under another tag it
  -- holds what it held, and under this one the account of the last user with the email, or none if
  -- some user with the email was removed.
  pub held-update_turn :
      (us : List User) (calls : List Call) (errors : List String)
      → (update_turn lib answers us i calls errors).errors ≡ []
      → (errors ≡ [])
        × ((t e : String) (b : Option Account)
            → held (update_turn lib answers us i calls errors).calls t e b ≡ (
                if i.tag == t
                then some_or
                    (map_option (account_for_api i) (last_account lib i us e))
                    (if is_removed lib i us e then none else held calls t e b)
                else held calls t e b))
  unfolding update_turn
  held-update_turn us calls errors h =
      let update = build_inbound_update lib i us in
      let first = remove_calls i.tag update.remove_emails calls in
      let adds = held-add_calls us first errors h in
      (
        adds.0,
        λ t e b.
            adds.1 t e b
            ∙ ground (
              arith,
              held-remove_calls i.tag update.remove_emails calls t e b,
              contains-remove_emails lib i us e,
            ),
      )
