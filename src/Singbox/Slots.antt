-- ===== src/Singbox/Slots.antt =====
-- backend/singbox/singbox.go: which position of the pushed list belongs to which user. usersMu makes
-- each operation one step; between an update and its push it is let go, and the two count as one
-- step here. What sing-box answers to a push is an argument, and so are TrimSpace and
-- freeSlotSecret, a hash of the index with random bytes.
pub mod Stable
pub mod Layout
pub mod Exact
pub mod Payload
use Prim.Native.String.{◌++◌ as concat}
use pasarguard_node.Prelude.{
  ℕ, zero, suc, String, Bool, true, false, Option, none, some, List, [], ◌∷◌, ◌++◌, ◌==◌,
  if◌then◌else◌, is_some, is_nil, length,
}
use pasarguard_node.Dict
use pasarguard_node.Dict.{Dict}
use pasarguard_node.User.{User}
use pasarguard_node.Singbox.Config.{CredentialKind, ManagedInbound}
use pasarguard_node.Singbox.Users.{
  UserCredentials, no_credentials, secret, sync_one, merge, collect_users,
}

-- The users, the slots, and whether the push timer runs.
pub record SingBox : Type 0 where
  pub inbounds : List ManagedInbound
  pub users : Dict UserCredentials
  pub push_timer : Bool
  pub slots : List String

pub record ClashUser : Type 0 where
  pub name : String
  pub password : String
  pub uuid : String

pub uses_uuid : CredentialKind → Bool
uses_uuid CredentialKind.vless = true
uses_uuid CredentialKind.vmess = true
uses_uuid CredentialKind.hysteria2 = false
uses_uuid CredentialKind.trojan = false
uses_uuid CredentialKind.shadowsocks = false

pub new_clash_user : String → CredentialKind → String → ClashUser
unfolding uses_uuid
new_clash_user name kind sec =
    if uses_uuid kind
    then record { name = name; password = ""; uuid = sec }
    else record { name = name; password = sec; uuid = "" }

abbrev pub free_slot_name : String
free_slot_name = "-"

-- The first loop: the slots with those of departed users emptied, and where the others stand.
pub hold : Dict UserCredentials → ℕ → List String → Dict ℕ → List String × Dict ℕ
hold users index [] placed = ([], placed)
hold users index (email ∷ slots) placed =
    let still = if email == "" then false else is_some (Dict.get users email) in
    let (rest, placed') =
      hold users (suc index) slots (if still then Dict.put placed email index else placed) in
    ((if still then email else "") ∷ rest, placed')

-- The second loop: users without a place extend the list.
pub extend : List String → List String → Dict ℕ → List String
extend [] slots placed = slots
extend (email ∷ emails) slots placed =
    let old = is_some (Dict.get placed email) in
    extend emails (if old then slots else slots ++ email ∷ [])
      (if old then placed else Dict.put placed email (length slots))

pub reconcile_slots : Dict UserCredentials → List String → List String
unfolding hold extend
reconcile_slots users slots =
    let (held, placed) = hold users 0 slots Dict.empty in extend (Dict.keys users) held placed

-- s.users[email]
pub credentials_or_none : Option UserCredentials → UserCredentials
credentials_or_none none = no_credentials
credentials_or_none (some c) = c

module _ (trim_space : String → String) (free_slot_secret : CredentialKind → ℕ → String) where
  pub slot_user : CredentialKind → ℕ → String → String → ClashUser
  unfolding new_clash_user
  slot_user kind index email sec =
      if sec == ""
      then new_clash_user free_slot_name kind (free_slot_secret kind index)
      else new_clash_user email kind sec

  -- The payload from an index on.
  pub payload_from : Dict UserCredentials → CredentialKind → ℕ → List String → List ClashUser
  unfolding slot_user credentials_or_none
  payload_from users kind index [] = []
  payload_from users kind index (email ∷ slots) =
      slot_user kind index email
        (if email == "" then "" else secret (credentials_or_none (Dict.get users email)) kind)
      ∷ payload_from users kind (suc index) slots

  pub payload_for : SingBox → CredentialKind → List ClashUser
  unfolding payload_from
  payload_for s kind = payload_from s.users kind 0 s.slots

  join_failures : List String → String
  join_failures [] = ""
  join_failures (f ∷ []) = f
  join_failures (f ∷ g ∷ fs) = concat f (concat "; " (join_failures (g ∷ fs)))

  failure_of : String → Option String → List String → List String
  failure_of tag none rest = rest
  failure_of tag (some e) rest = concat tag (concat ": " e) ∷ rest

  -- What sing-box answers to the users of each inbound.
  push_inbounds :
      (String → List ClashUser → Option String) → SingBox → List ManagedInbound → List String
  unfolding failure_of payload_for
  push_inbounds replace_users s [] = []
  push_inbounds replace_users s (i ∷ inbounds) =
      failure_of i.tag (replace_users i.tag (payload_for s i.kind))
        (push_inbounds replace_users s inbounds)

  -- pushUsers: the slots are laid out, and each inbound gets its payload.
  pub push_users : (String → List ClashUser → Option String) → SingBox → SingBox × Option String
  unfolding reconcile_slots push_inbounds join_failures
  push_users replace_users s =
      let s' = record s { slots = reconcile_slots s.users s.slots } in
      let failures = push_inbounds replace_users s' s'.inbounds in
      (s', if is_nil failures then none else some (join_failures failures))

  -- SyncUser; it only starts or restarts the timer.
  pub sync_user : Option User → SingBox → SingBox × Option String
  sync_user none s = (s, some "singbox: user is nil")
  sync_user (some u) s =
      (record s { users = sync_one trim_space s.inbounds u s.users; push_timer = true }, none)

  -- UpdateUsers and UpdateUsersAndRestart
  pub merge_users :
      (String → List ClashUser → Option String)
      → List (Option User)
      → SingBox
      → SingBox × Option String
  unfolding push_users
  merge_users replace_users us s =
      push_users replace_users
        (record s { users = merge trim_space s.inbounds us s.users; push_timer = false })

  -- SyncUsers
  pub replace_all :
      (String → List ClashUser → Option String)
      → List (Option User)
      → SingBox
      → SingBox × Option String
  unfolding push_users
  replace_all replace_users us s =
      push_users replace_users
        (record s { users = collect_users trim_space s.inbounds us Dict.empty; push_timer = false })

  -- The timer of pushSoon; its failure is only logged.
  pub timer_fires : (String → List ClashUser → Option String) → SingBox → SingBox
  unfolding push_users
  timer_fires replace_users s = (push_users replace_users (record s { push_timer = false })).0

  -- The end of start: a process that just came up has no sessions.
  pub clear_slots : SingBox → SingBox
  clear_slots s = record s { slots = [] }
