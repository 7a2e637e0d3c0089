-- ===== src/L2tp/Examples.antt =====
-- Tests of the L2TP users, and the theorems about them at concrete inputs.
use pasarguard_node.Prelude.{
  ◌≡◌, ◌&&◌, not, none, some, [], ◌∷◌, is_some, contains, if◌then◌else◌, ◌==◌,
}
use pasarguard_node.Dict
use pasarguard_node.User.{no_proxy, User}
use pasarguard_node.L2tp.UserStore.{UserStore, new_user_store, replace_all, apply_user, snapshot}
use pasarguard_node.L2tp.UserStore.Passwords.{
  login, given, or_else, last_given, apply_user_passwords, replace_all_passwords,
}

abbrev alice : User
alice = record {
  email = "1.alice";
  proxies =
      some (record no_proxy { ikev2 = some (record { username = "alice"; password = "pw" }) });
  inbounds = "l2tp" ∷ [];
}

-- The same user, after the inbound was taken away.
abbrev revoked : User
revoked = record alice { inbounds = [] }

abbrev one_user : UserStore
one_user = (replace_all (new_user_store "l2tp") (alice ∷ [])).0

apply_user_passwords_example : Dict.get (snapshot (apply_user one_user revoked).0) "alice" ≡ (
    if is_some (login "l2tp" revoked)
    then or_else (given (login "l2tp" revoked) "alice") (Dict.get one_user.users "alice")
    else if not (revoked.email == "") && revoked.email == "alice"
    then none
    else Dict.get one_user.users "alice")
apply_user_passwords_example = apply_user_passwords one_user revoked "alice"

replace_all_passwords_example :
    let r = replace_all one_user (alice ∷ revoked ∷ []) in
    (Dict.get (snapshot r.0) "alice" ≡ last_given one_user (alice ∷ revoked ∷ []) "alice")
    × (contains "alice" r.1 ≡ (
        is_some (Dict.get one_user.users "alice")
        && not (is_some (Dict.get (snapshot r.0) "alice"))))
replace_all_passwords_example = replace_all_passwords one_user (alice ∷ revoked ∷ []) "alice"
