-- ===== src/Backend/Composite/Fanout.antt =====
-- backend/composite.go: the calls that go to every backend.
use pasarguard_node.Prelude.{String, ◌≡◌, refl, Option, none, some, List, [], ◌∷◌, map, arith}
use pasarguard_node.User.{User}
use pasarguard_node.Backend.{Action, Backend}
use pasarguard_node.Backend.Composite.{
  keep_first, for_each, restart, sync_user, sync_users, update_users, update_users_and_restart,
}

-- The first error of a list of results.
abbrev pub first_of : List (Option String) → Option String
first_of [] = none
first_of (none ∷ es) = first_of es
first_of (some e ∷ es) = some e

module _ {B : Type 0} where
  for_each_lem :
      (act : Action B) (bs : List B) (e : Option String)
      → for_each act bs e
        ≡ (map (λ b. (act b).0) bs, keep_first e (first_of (map (λ b. (act b).1) bs)))
  unfolding for_each
  for_each_lem act [] none = refl
  for_each_lem act [] (some e) = refl
  for_each_lem act (b ∷ bs) e = ground (arith, for_each_lem act bs (keep_first e (act b).1))

  -- Every backend is called once, in order, also after one has failed, and the error that is
  -- returned is the first.
  abbrev pub everyone : Action B → List B → List B × Option String
  everyone act bs = (map (λ b. (act b).0) bs, first_of (map (λ b. (act b).1) bs))

  -- Restart and the four user calls reach every backend once, in order, whether or not one before
  -- it failed, and return the first error.
  pub user_calls_reach_everyone :
      (ops : Backend B) (user : User) (users : List User) (bs : List B)
      → (restart ops bs ≡ everyone ops.restart bs)
        × (sync_user ops user bs ≡ everyone (ops.sync_user user) bs)
        × (sync_users ops users bs ≡ everyone (ops.sync_users users) bs)
        × (update_users ops users bs ≡ everyone (ops.update_users users) bs)
        × (update_users_and_restart ops users bs ≡ everyone (ops.update_users_and_restart users) bs)
  unfolding restart sync_user sync_users update_users update_users_and_restart
  user_calls_reach_everyone ops user users bs = (
    for_each_lem _ bs none,
    for_each_lem _ bs none,
    for_each_lem _ bs none,
    for_each_lem _ bs none,
    for_each_lem _ bs none,
  )
