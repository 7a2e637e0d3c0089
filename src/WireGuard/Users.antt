-- ===== src/WireGuard/Users.antt =====
-- backend/wireguard/user_common.go: which of the users that the panel sent are looked at.
pub mod Normal
use pasarguard_node.Prelude.{
  String, Bool, true, false, ◌||◌, Option, none, some, List, [], ◌∷◌, ◌==◌, if◌then◌else◌, contains,
}
use pasarguard_node.Dict
use pasarguard_node.Dict.{Dict}
use pasarguard_node.User.{User, get_wireguard}

unfoldable pub should_include_user_in_interface : User → String → Bool
should_include_user_in_interface user interface_name = contains interface_name user.inbounds

unfoldable pub is_empty : List String → Bool
is_empty [] = true
is_empty (_ ∷ _) = false

-- A user with all that a WireGuard peer needs.
unfoldable pub is_complete : User → Bool
unfolding is_empty
is_complete user = if user.email == "" then false else elim (get_wireguard user) [
  | none ↦ false
  | some wg ↦ if wg.public_key == "" || is_empty wg.peer_ips then false else true
]

-- lastByEmail
unfoldable pub collect_last : List (Option User) → Dict User → Dict User
collect_last [] last = last
collect_last (none ∷ users) last = collect_last users last
collect_last (some user ∷ users) last =
    collect_last users (if is_complete user then Dict.put last user.email user else last)

unfoldable pub list_values {ℓ} : {V : Type ℓ} → Dict V → List String → List V
list_values d [] = []
list_values d (key ∷ keys) =
    let rest = list_values d keys in elim (Dict.get d key) [ none ↦ rest | some v ↦ v ∷ rest ]

-- The order of the result is that of Go's `range`, which is open.
unfoldable pub normalize_users : List (Option User) → List User
unfolding collect_last list_values
normalize_users users =
    let last = collect_last users Dict.empty in list_values last (Dict.keys last)
