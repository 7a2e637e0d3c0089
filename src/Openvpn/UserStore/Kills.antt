-- ===== src/Openvpn/UserStore/Kills.antt =====
-- backend/openvpn/openvpn.go: the users that an update or a full synchronisation disconnects. The
-- killed names stand newest first.
use pasarguard_node.Prelude.{
  String, ◌≡◌, Bool, false, Option, none, some, List, [], ◌∷◌, arith, ◌==◌, eq_iff, eq_refl,
  if◌then◌else◌, contains, is_some, inl, inr, Bool-cases, Option-cases,
}
use pasarguard_node.Dict
use pasarguard_node.Dict.{Dict, get-put, get-remove}
use pasarguard_node.User.{User, get_openvpn}
use pasarguard_node.Openvpn.UserStore.{
  UserEntry, UserStore, apply_user, replace_all, drop_user, serial_changed, entry_of,
  wants_interface,
}

pub record Applied : Type 0 where
  pub store : UserStore
  pub killed : List String

-- The body of the loop of applyUsers.
unfoldable pub apply_one : UserStore × (String × Bool × Bool) → List String → Applied
apply_one (store, (cn, changed, removed)) killed = record {
  store = store;
  killed =
      if cn == ""
      then killed
      else if removed
      then cn ∷ killed
      else if changed
      then cn ∷ killed
      else killed;
}

unfoldable pub apply_users : List User → UserStore → List String → Applied
unfolding apply_one
apply_users [] store killed = record { store = store; killed = killed }
apply_users (u ∷ us) store killed =
    let next = apply_one (apply_user store u) killed in apply_users us next.store next.killed

unfoldable pub kill_all : List String → List String → List String
kill_all [] killed = killed
kill_all (cn ∷ cns) killed = kill_all cns (cn ∷ killed)

-- SyncUsers
unfoldable pub sync_users : List User → UserStore → Applied
unfolding kill_all
sync_users us store =
    let replaced = replace_all store us in
    record { store = replaced.0; killed = kill_all replaced.1 [] }

-- The serial with which the store lets the name in, if it does.
abbrev pub serial_of : UserStore → String → Option String
serial_of s e = elim (Dict.get s.users e) [ none ↦ none | some entry ↦ some entry.serial ]

-- A name with a serial keeps it.
abbrev pub IsKept : UserStore → UserStore → String → Type 0
IsKept before later e =
    (serial : String) → serial_of before e ≡ some serial → serial_of later e ≡ some serial

module _ (s : UserStore) (cn e : String) where
  -- A user who is put, and not killed, has the serial that they had.
  put-IsKept :
      (entry : UserEntry) (killed : List String)
      → contains e (if serial_changed (Dict.get s.users cn) entry then cn ∷ killed else killed)
        ≡ false
      → (contains e killed ≡ false) × IsKept s (record s { users = Dict.put s.users cn entry }) e
  unfolding serial_changed
  put-IsKept entry killed h = elim (Option-cases (Dict.get s.users cn)) [
    | inl g ↦ (
      ground (arith, h, g),
      λ serial k. ground (arith, k, h, g, eq_iff cn e, get-put s.users cn e entry),
    )
    | inr (prev, g) ↦ (
      ground (arith, h, g),
      λ serial k. ground (
        arith,
        k,
        h,
        g,
        eq_iff cn e,
        eq_iff prev.serial entry.serial,
        eq_refl cn,
        get-put s.users cn e entry,
      ),
    )
  ]

  drop_user-IsKept :
      (killed : List String)
      → contains e (if is_some (Dict.get s.users cn) then cn ∷ killed else killed) ≡ false
      → (contains e killed ≡ false) × IsKept s (drop_user s cn) e
  unfolding drop_user
  drop_user-IsKept killed h =
      (ground (arith, h), λ serial k. ground (arith, k, h, eq_iff cn e, get-remove s.users cn e))

apply_one-keeps :
    (s : UserStore) (u : User) (killed : List String) (e : String)
    → contains e (apply_one (apply_user s u) killed).killed ≡ false
    → (contains e killed ≡ false) × IsKept s (apply_one (apply_user s u) killed).store e
unfolding apply_one apply_user drop_user serial_changed
apply_one-keeps s u killed e h = elim (Bool-cases (u.email == "")) [
  | inl n ↦ rw n (rw n at h, λ serial k. k)
  | inr n ↦ elim (Bool-cases (wants_interface s u)) [
    | inl w ↦
        rw (n, w) (put-IsKept s u.email e (entry_of (get_openvpn u)) killed (rw (n, w, n) at h))
    | inr w ↦ rw (n, w) (drop_user-IsKept s u.email e killed (rw (n, w, n) at h))
  ]
]

-- Whoever UpdateUsers does not disconnect keeps the serial with which they may connect, if there
-- is one.
pub apply_users-IsKept :
    (us : List User) (s : UserStore) (killed : List String) (e : String)
    → contains e (apply_users us s killed).killed ≡ false
    → (contains e killed ≡ false) × IsKept s (apply_users us s killed).store e
unfolding apply_users
apply_users-IsKept [] s killed e h = (h, λ serial k. k)
apply_users-IsKept (u ∷ us) s killed e h =
    let next = apply_one (apply_user s u) killed in
    let rest = apply_users-IsKept us next.store next.killed e h in
    let first = apply_one-keeps s u killed e rest.0 in
    (first.0, λ serial k. rest.1 serial (first.1 serial k))
