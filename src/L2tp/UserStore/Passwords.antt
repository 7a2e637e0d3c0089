-- ===== src/L2tp/UserStore/Passwords.antt =====
-- backend/l2tp/users.go: which password a username has after a change.
use pasarguard_node.Prelude.{
  String, ◌≡◌, refl, sym, not, ◌&&◌, Option, none, some, List, [], ◌∷◌, arith, ◌==◌, eq_iff,
  if◌then◌else◌, contains, is_some, Bool,
}
use pasarguard_node.Dict
use pasarguard_node.Dict.{Dict, get-put, get-remove, get-empty, contains-keys}
use pasarguard_node.User.{User, Ikev2Proxy}
use pasarguard_node.L2tp.UserStore.{
  UserEntry, UserStore, credentials, creds_for, wants_interface, wanted, add_user, collect_users,
  missing, replace_all, apply_wanted, apply_user, snapshot,
}

-- Who may log in with which password: a username with a password, neither of them empty, of a user
-- who has the inbound.
abbrev pub login_by : Bool → Option Ikev2Proxy → Option (String × String)
login_by has_inbound none = none
login_by has_inbound (some ik) =
    if has_inbound && not (ik.username == "") && not (ik.password == "")
    then some (ik.username, ik.password)
    else none

abbrev pub login : String → User → Option (String × String)
login tag u = elim u.proxies [ none ↦ none | some p ↦ login_by (contains tag u.inbounds) p.ikev2 ]

wanted-login : (s : UserStore) (u : User) → wanted s u ≡ login s.inbound_tag u
unfolding wanted wants_interface creds_for credentials
wanted-login s u = ground arith

-- The entry that the credentials give a username.
abbrev pub given : Option (String × String) → String → Option UserEntry
given none name = none
given (some (username, password)) name =
    if username == name then some (record { password = password }) else none

abbrev pub or_else {ℓ} : {A : Type ℓ} → Option A → Option A → Option A
or_else none b = b
or_else (some a) b = some a

-- The entry that the last user who may log in with a username gives it.
pub last_given : UserStore → List User → String → Option UserEntry
last_given s [] name = none
last_given s (u ∷ us) name = or_else (last_given s us name) (given (login s.inbound_tag u) name)

get-add_user :
    (next : Dict UserEntry) (c : Option (String × String)) (name : String)
    → Dict.get (add_user next c) name ≡ or_else (given c name) (Dict.get next name)
unfolding add_user
get-add_user next none name = refl
get-add_user next (some (username, password)) name =
    ground
      (arith, get-put next username name (record { password = password }), eq_iff username name)

or_else_assoc : {A : Type 0} (a b c : Option A) → or_else a (or_else b c) ≡ or_else (or_else a b) c
or_else_assoc none b c = refl
or_else_assoc (some a) b c = refl

get-collect_users :
    (s : UserStore) (us : List User) (next : Dict UserEntry) (name : String)
    → Dict.get (collect_users s us next) name ≡ or_else (last_given s us name) (Dict.get next name)
unfolding collect_users last_given
get-collect_users s [] next name = refl
get-collect_users s (u ∷ us) next name =
    rw
      (
        get-collect_users s us (add_user next (wanted s u)) name,
        get-add_user next (wanted s u) name,
        wanted-login s u,
      )
      (or_else_assoc (last_given s us name) (given (login s.inbound_tag u) name)
        (Dict.get next name))

or_else-none : {A : Type 0} (a : Option A) → or_else a none ≡ a
or_else-none none = refl
or_else-none (some a) = refl

contains-missing :
    (next : Dict UserEntry) (names : List String) (name : String)
    → contains name (missing next names)
      ≡ (contains name names && not (is_some (Dict.get next name)))
unfolding missing
contains-missing next [] name = refl
contains-missing next (n ∷ names) name =
    ground (arith, contains-missing next names name, eq_iff n name, eq_iff name n)

-- Of the users who have the inbound and neither an empty username nor an empty password, the last
-- with a username gives it its password, and no other username has an entry after replaceAll,
-- and exactly the usernames that had an entry before and have none after are reported as removed.
pub replace_all_passwords :
    (s : UserStore) (us : List User) (name : String)
    → let r = replace_all s us in
      (Dict.get (snapshot r.0) name ≡ last_given s us name)
      × (contains name r.1
          ≡ (is_some (Dict.get s.users name) && not (is_some (Dict.get (snapshot r.0) name))))
unfolding replace_all snapshot
replace_all_passwords s us name =
    let e = get-collect_users s us Dict.empty name in
    (
      rw (e, get-empty {V = UserEntry} name) (or_else-none (last_given s us name)),
      rw (contains-missing, contains-keys) refl,
    )

apply_wanted_lem :
    (s : UserStore) (email : String) (c : Option (String × String)) (name : String)
    → Dict.get (apply_wanted s email c).0.users name ≡ (
        if is_some c
        then or_else (given c name) (Dict.get s.users name)
        else if not (email == "") && email == name
        then none
        else Dict.get s.users name)
unfolding apply_wanted
apply_wanted_lem s email none name =
    ground (arith, get-remove s.users email name, eq_iff email name)
apply_wanted_lem s email (some (username, password)) name =
    ground
      (arith, get-put s.users username name (record { password = password }), eq_iff username name)

-- After applyUser, the username of a user who has the inbound and neither an empty username nor an
-- empty password has the user's password and every other username what it had; for any other user
-- the email has no entry, if it is not empty, and every other username has what it had.
pub apply_user_passwords :
    (s : UserStore) (u : User) (name : String)
    → Dict.get (snapshot (apply_user s u).0) name ≡ (
        if is_some (login s.inbound_tag u)
        then or_else (given (login s.inbound_tag u) name) (Dict.get s.users name)
        else if not (u.email == "") && u.email == name
        then none
        else Dict.get s.users name)
unfolding apply_user snapshot
apply_user_passwords s u name =
    rw (sym (wanted-login s u)) (apply_wanted_lem s u.email (wanted s u) name)
