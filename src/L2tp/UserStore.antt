-- ===== src/L2tp/UserStore.antt =====
-- backend/l2tp/users.go: who may log in, by username. The lock makes each method one step.
pub mod Passwords
use pasarguard_node.Prelude.{
  String, Bool, true, false, not, ◌||◌, Option, none, some, List, [], ◌∷◌, ◌==◌, if◌then◌else◌,
  contains, is_some,
}
use pasarguard_node.Dict
use pasarguard_node.Dict.{Dict}
use pasarguard_node.User.{User, Ikev2Proxy, get_ikev2}

pub record UserEntry : Type 0 where
  pub password : String

pub record UserStore : Type 0 where
  pub inbound_tag : String
  pub users : Dict UserEntry

pub new_user_store : String → UserStore
new_user_store inbound_tag = record { inbound_tag = inbound_tag; users = Dict.empty }

pub credentials : Option Ikev2Proxy → Option (String × String)
credentials none = none
credentials (some ik) =
    if ik.username == "" || ik.password == "" then none else some (ik.username, ik.password)

-- credsFor
pub creds_for : User → Option (String × String)
unfolding credentials
creds_for u = credentials (get_ikev2 u)

pub wants_interface : UserStore → User → Bool
wants_interface s u = if is_some (creds_for u) then contains s.inbound_tag u.inbounds else false

-- The credentials of a user whom the store wants.
pub wanted : UserStore → User → Option (String × String)
unfolding wants_interface
wanted s u = if wants_interface s u then creds_for u else none

pub add_user : Dict UserEntry → Option (String × String) → Dict UserEntry
add_user next none = next
add_user next (some (username, password)) = Dict.put next username (record { password = password })

pub collect_users : UserStore → List User → Dict UserEntry → Dict UserEntry
unfolding add_user wanted
collect_users s [] next = next
collect_users s (u ∷ us) next = collect_users s us (add_user next (wanted s u))

missing : Dict UserEntry → List String → List String
missing next [] = []
missing next (username ∷ rest) =
    let removed = missing next rest in
    if is_some (Dict.get next username) then removed else username ∷ removed

pub replace_all : UserStore → List User → UserStore × List String
unfolding collect_users missing
replace_all s us =
    let next = collect_users s us Dict.empty in
    (record s { users = next }, missing next (Dict.keys s.users))

-- !existed || prev != entry
differs : Option UserEntry → String → Bool
differs none password = true
differs (some prev) password = not (prev.password == password)

apply_wanted : UserStore → String → Option (String × String) → UserStore × (String × Bool × Bool)
unfolding differs
apply_wanted s email none = if email == "" then (s, ("", false, false)) else (
  record s { users = Dict.remove s.users email },
  (email, false, is_some (Dict.get s.users email)),
)
apply_wanted s email (some (username, password)) = (
  record s { users = Dict.put s.users username (record { password = password }) },
  (username, differs (Dict.get s.users username) password, false),
)

-- The new store with the username, whether its entry changed and whether a user was removed.
pub apply_user : UserStore → User → UserStore × (String × Bool × Bool)
unfolding apply_wanted
apply_user s u = apply_wanted s u.email (wanted s u)

-- The copied map is the map.
pub snapshot : UserStore → Dict UserEntry
snapshot s = s.users
