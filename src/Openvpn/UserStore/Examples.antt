-- ===== src/Openvpn/UserStore/Examples.antt =====
-- Updates of the OpenVPN users, and the sessions that they end.
use pasarguard_node.Prelude.{◌≡◌, refl, false, some, [], ◌∷◌, contains}
use pasarguard_node.Dict
use pasarguard_node.User.{no_proxy, User}
use pasarguard_node.Openvpn.UserStore.{
  UserStore, new_user_store, replace_all, apply_user, wants_interface,
}
use pasarguard_node.Openvpn.UserStore.Kills.{IsKept, apply_users, sync_users, apply_users-IsKept}

abbrev alice : User
alice = record {
  email = "alice";
  proxies = some (record no_proxy { openvpn = some (record { serial = "01"; fingerprint = "f" }) });
  inbounds = "ovpn" ∷ [];
}

-- The user of alice with a new certificate.
abbrev reissued : User
reissued = record alice {
  proxies = some (record no_proxy { openvpn = some (record { serial = "02"; fingerprint = "g" }) });
}

abbrev bob : User
bob = record reissued { email = "bob" }

abbrev one_user : UserStore
one_user = (replace_all (new_user_store "ovpn") (alice ∷ [])).0

not_killed : contains "alice" (apply_users (alice ∷ bob ∷ []) one_user []).killed ≡ false
unfolding apply_users apply_user replace_all new_user_store wants_interface Dict.get Dict.put
    Dict.empty
not_killed = refl

apply_users-IsKept_example :
    (contains "alice" [] ≡ false)
    × IsKept one_user (apply_users (alice ∷ bob ∷ []) one_user []).store "alice"
apply_users-IsKept_example = apply_users-IsKept (alice ∷ bob ∷ []) one_user [] "alice" not_killed

-- A new certificate ends the session in UpdateUsers, and does not in SyncUsers.
apply_users_kills : (apply_users (reissued ∷ []) one_user []).killed ≡ "alice" ∷ []
unfolding apply_users apply_user replace_all new_user_store wants_interface Dict.get Dict.put
    Dict.empty
apply_users_kills = refl

sync_users_kills_nobody : (sync_users (reissued ∷ []) one_user).killed ≡ []
unfolding sync_users replace_all new_user_store wants_interface Dict.keys Dict.get Dict.put
    Dict.empty
sync_users_kills_nobody = refl
