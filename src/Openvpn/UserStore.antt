-- ===== src/Openvpn/UserStore.antt =====
-- backend/openvpn/users.go: the users that may connect, and the sessions that are live. The lock
-- makes each method one step; a set of client ids is a map to units.
pub mod Sessions
pub mod Allowlist
pub mod Kills
mod Examples
use pasarguard_node.Prelude.{
  String, Bool, true, false, not, ◌&&◌, ◌||◌, Option, none, some, List, [], ◌∷◌, ◌==◌,
  if◌then◌else◌, contains, is_some,
}
use pasarguard_node.Dict
use pasarguard_node.Dict.{Dict}
use pasarguard_node.User.{User, OpenvpnProxy, get_openvpn}

pub record UserEntry : Type 0 where
  pub serial : String
  pub fingerprint : String

abbrev pub Sessions : Type 0
Sessions = Dict (Dict (Unit {0}))

pub record UserStore : Type 0 where
  pub inbound_tag : String
  pub users : Dict UserEntry
  pub sessions : Sessions

pub new_user_store : String → UserStore
new_user_store inbound_tag = record {
  inbound_tag = inbound_tag;
  users = Dict.empty;
  sessions = Dict.empty;
}

-- authorizedLocked
pub authorize : UserStore → String → String → Bool
authorize s common_name serial = elim (Dict.get s.users common_name) [
  | none ↦ false
  | some entry ↦ if not (entry.serial == "") && not (entry.serial == serial) then false else true
]

-- set, made when it is nil
pub session_set : Option (Dict (Unit {0})) → Dict (Unit {0})
session_set none = Dict.empty
session_set (some set) = set

pub try_connect : UserStore → String → String → String → UserStore × (Bool × String)
unfolding session_set
try_connect s common_name serial client_id =
    if authorize s common_name serial
    then (
      record s {
        sessions =
            Dict.put s.sessions common_name
              (Dict.put (session_set (Dict.get s.sessions common_name)) client_id tt);
      },
      (true, ""),
    )
    else (s, (false, "unauthorized"))

is_nil : List String → Bool
is_nil [] = true
is_nil (_ ∷ _) = false

-- len(set) == 0
pub is_empty_set : Dict (Unit {0}) → Bool
unfolding is_nil
is_empty_set set = is_nil (Dict.keys set)

pub release_session : UserStore → String → String → UserStore
release_session s common_name client_id = elim (Dict.get s.sessions common_name) [
  | none ↦ s
  | some set ↦
      let set' = Dict.remove set client_id in
      if is_empty_set set'
      then record s { sessions = Dict.remove s.sessions common_name }
      else record s { sessions = Dict.put s.sessions common_name set' }
]

pub wants_interface : UserStore → User → Bool
wants_interface s u = elim (get_openvpn u) [
  | none ↦ false
  | some _ ↦ contains s.inbound_tag u.inbounds
]

pub entry_of : Option OpenvpnProxy → UserEntry
entry_of none = record { serial = ""; fingerprint = "" }
entry_of (some ov) = record { serial = ov.serial; fingerprint = ov.fingerprint }

drop_user : UserStore → String → UserStore
drop_user s cn = record s { users = Dict.remove s.users cn; sessions = Dict.remove s.sessions cn }

serial_changed : Option UserEntry → UserEntry → Bool
serial_changed none entry = false
serial_changed (some prev) entry = not (prev.serial == entry.serial)

-- The new store with the common name, whether the serial changed and whether a user was removed.
pub apply_user : UserStore → User → UserStore × (String × Bool × Bool)
unfolding drop_user serial_changed entry_of
apply_user s u =
    if u.email == ""
    then (s, ("", false, false))
    else if wants_interface s u
    then (
      record s { users = Dict.put s.users u.email (entry_of (get_openvpn u)) },
      (u.email, serial_changed (Dict.get s.users u.email) (entry_of (get_openvpn u)), false),
    )
    else (drop_user s u.email, (u.email, false, is_some (Dict.get s.users u.email)))

pub collect_users : UserStore → List User → Dict UserEntry → Dict UserEntry
unfolding entry_of
collect_users s [] next = next
collect_users s (u ∷ us) next = collect_users s us (
    if not (wants_interface s u) || u.email == ""
    then next
    else Dict.put next u.email (entry_of (get_openvpn u)))

-- The names that are gone, and the sessions without them.
pub drop_missing : Dict UserEntry → List String → Sessions → Sessions × List String
drop_missing next [] sessions = (sessions, [])
drop_missing next (cn ∷ cns) sessions =
    let (kept, removed) =
      drop_missing next cns
        (if is_some (Dict.get next cn) then sessions else Dict.remove sessions cn) in
    (kept, if is_some (Dict.get next cn) then removed else cn ∷ removed)

pub replace_all : UserStore → List User → UserStore × List String
unfolding collect_users drop_missing
replace_all s us =
    let next = collect_users s us Dict.empty in
    let (kept, removed) = drop_missing next (Dict.keys s.users) s.sessions in
    (record s { users = next; sessions = kept }, removed)

pub common_names : UserStore → List String
common_names s = Dict.keys s.users

pub has : UserStore → String → Bool
has s common_name = is_some (Dict.get s.users common_name)
