-- ===== src/Controller/UsersChunk.antt =====
-- controller/users_chunk.go: a user list that arrives in numbered pieces, in any order.
pub mod Order
use pasarguard_node.Prelude.{
  ℕ, zero, suc, ◌+◌, ◌-◌, ◌%◌, ◌^◌, Bool, true, false, Option, none, some, List, [], ◌∷◌, ◌++◌, leb,
  if◌then◌else◌, is_nil,
}
use pasarguard_node.User.{User}
use pasarguard_node.Backend.{Backend, Action}

pub data Error : Type 0 where
  missing_final : Error
  missing_index : ℕ → Error
  no_users : Error
  -- The loop ran out of fuel.
  endless : Error

pub data Result {ℓ} (A : Type ℓ) : Type ℓ where
  ok : A → Result A
  err : Error → Result A

-- The map of the pieces, by index.
abbrev pub Chunks : Type 0
Chunks = ℕ → Option (List User)

-- The loop from index i on, a uint64 that wraps around after i++.
pub collect : ℕ → Chunks → ℕ → ℕ → List User → Result (List User)
collect zero chunks last_index i users = err endless
collect (suc fuel) chunks last_index i users = elim (chunks i) [
  | none ↦ if leb i last_index then err (missing_index i) else ok users
  | some chunk_users ↦
      let rest = collect fuel chunks last_index ((i + 1) % 2 ^ 64) (users ++ chunk_users) in
      if leb i last_index then rest else ok users
]

-- len(users) == 0
pub some_users : Result (List User) → Result (List User)
some_users (err e) = err e
some_users (ok users) = if is_nil users then err no_users else ok users

pub build_users_from_chunks : ℕ → Chunks → ℕ → Bool → Result (List User)
unfolding collect some_users
build_users_from_chunks fuel chunks last_index saw_last =
    if saw_last then some_users (collect fuel chunks last_index 0 []) else err missing_final

pub apply_chunked_user_update : {B : Type 0} → Backend B → List User → Action B
apply_chunked_user_update back users = back.update_users users
