-- ===== src/Openvpn/UserStore/Allowlist.antt =====
-- backend/openvpn/users.go: who may connect.
use pasarguard_node.Prelude.{
  String, ◌≡◌, refl, Bool, false, not, ◌&&◌, ◌||◌, Option, none, some, List, [], ◌∷◌, arith, ◌==◌,
  eq_iff, if◌then◌else◌, contains, is_some, false,
}
use pasarguard_node.Dict
use pasarguard_node.Dict.{Dict, get-put, get-remove, get-empty, contains-keys}
use pasarguard_node.User.{User, get_openvpn}
use pasarguard_node.Openvpn.UserStore.{
  UserStore, UserEntry, authorize, wants_interface, entry_of, apply_user, collect_users,
  replace_all, has,
}
use pasarguard_node.Openvpn.UserStore.Sessions.{contains-drop_missing}

-- The last user of a list that has a name and belongs to the core's inbound.
pub last_wanted : UserStore → List User → String → Option UserEntry
last_wanted s [] cn = none
last_wanted s (u ∷ us) cn =
    let later = last_wanted s us cn in
    if is_some later
    then later
    else if wants_interface s u && not (u.email == "") && u.email == cn
    then some (entry_of (get_openvpn u))
    else none

get-collect_users :
    (s : UserStore) (us : List User) (next : Dict UserEntry) (cn : String)
    → Dict.get (collect_users s us next) cn
      ≡ (if is_some (last_wanted s us cn) then last_wanted s us cn else Dict.get next cn)
unfolding collect_users last_wanted
get-collect_users s [] next cn = refl
get-collect_users s (u ∷ us) next cn = ground (
  arith,
  get-collect_users s us
      (if not (wants_interface s u) || u.email == ""
        then next
        else Dict.put next u.email (entry_of (get_openvpn u)))
      cn,
  get-put next u.email cn (entry_of (get_openvpn u)),
)

-- Whether an entry lets a certificate in: a pinned serial must match.
abbrev pub admits : Option UserEntry → String → Bool
admits none serial = false
admits (some entry) serial = entry.serial == "" || entry.serial == serial

-- After ReplaceAll a certificate is let in exactly by the last user of the list that has its common
-- name and belongs to the inbound, at the pinned serial, and the names that are returned are
-- exactly those that were allowed before and are not any more.
pub replace_all_allowlist :
    (s : UserStore) (us : List User) (cn serial : String)
    → (authorize (replace_all s us).0 cn serial ≡ admits (last_wanted s us cn) serial)
      × (contains cn (replace_all s us).1 ≡ (has s cn && not (has (replace_all s us).0 cn)))
unfolding replace_all authorize has
replace_all_allowlist s us cn serial =
    let next = collect_users s us Dict.empty in
    (
      ground (arith, get-collect_users s us Dict.empty cn, get-empty {V = UserEntry} cn),
      rw (contains-drop_missing, contains-keys),
    )

-- Applying a user lets in exactly its own certificates, if it belongs to the inbound, and none of
-- its certificates otherwise; every other common name is as it was. A user with no email changes
-- nothing.
pub apply_user_allowlist :
    (s : UserStore) (u : User) (cn serial : String)
    → authorize (apply_user s u).0 cn serial ≡ (
        if not (u.email == "") && u.email == cn
        then wants_interface s u && admits (some (entry_of (get_openvpn u))) serial
        else authorize s cn serial)
unfolding apply_user authorize
apply_user_allowlist s u cn serial = ground (
  arith,
  get-put s.users u.email cn (entry_of (get_openvpn u)),
  get-remove s.users u.email cn,
  eq_iff u.email cn,
)
