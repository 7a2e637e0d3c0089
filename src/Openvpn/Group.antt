-- ===== src/Openvpn/Group.antt =====
-- backend/openvpn: group.go and derive of listeners.go, one server for each listener of a core. What
-- New makes of a configuration, the text of a prefix and the working directory are arguments.
pub mod Servers
pub mod Started
use pasarguard_node.Prelude.{
  ℕ, suc, String, Bool, true, false, Option, none, some, List, [], ◌∷◌, ◌++◌, length, ltb, leb,
  if◌then◌else◌,
}
use pasarguard_node.Backend.Composite.{new_composite}
use pasarguard_node.Openvpn.Config.{Config, Listener}
use pasarguard_node.Openvpn.Listeners
use pasarguard_node.Openvpn.Listeners.{Addr4, Prefix, SplitError, split_subnet}

-- What New answers.
pub data Launched (B : Type 0) : Type 0 where
  up : B → Launched B
  refused : String → Launched B

pub data GroupError : Type 0 where
  not_derived : SplitError → GroupError
  not_started : Listener → String → GroupError
  not_launched : String → GroupError

-- The one server, the composite of several, or an error and the servers that were up, shut down.
pub data Group (B : Type 0) : Type 0 where
  alone : B → Group B
  several : Option (List B) → Group B
  failed : GroupError → List B → Group B

unfoldable pub shutdown_all : {B : Type 0} → (B → B) → List B → List B
shutdown_all shutdown [] = []
shutdown_all shutdown (b ∷ bs) = shutdown b ∷ shutdown_all shutdown bs

module _ (parse_prefix : String → Option Prefix) (prefix_string : Addr4 × ℕ → String)
    (work_path : Config → Listener → String) where
  unfoldable pub derive : Config → Listener → ℕ → ℕ → Listeners.Result Config
  derive c l index total =
      elim (split_subnet parse_prefix prefix_string c.server_subnet index total) [
        | Listeners.err e ↦ Listeners.err e
        | Listeners.ok sub ↦ Listeners.ok (record c {
          port = l.port;
          proto = l.proto;
          server_subnet = sub;
          listeners = l ∷ [];
          work_dir = if ltb 1 total then work_path c l else c.work_dir;
        })
      ]

  module _ {B : Type 0} (new : Config → Launched B) (shutdown : B → B) where
    -- The loop over the listeners, from an index on.
    unfoldable pub start_each : Config → List Listener → ℕ → ℕ → List B → Group B
    unfolding shutdown_all
    start_each c [] index total started = several (new_composite started)
    start_each c (l ∷ ls) index total started = elim (derive c l index total) [
      | Listeners.err e ↦ failed (not_derived e) (shutdown_all shutdown started)
      | Listeners.ok derived ↦ elim (new derived) [
        | refused e ↦ failed (not_started l e) (shutdown_all shutdown started)
        | up b ↦ start_each c ls (suc index) total (started ++ b ∷ [])
      ]
    ]

    only : Launched B → Group B
    only (up b) = alone b
    only (refused e) = failed (not_launched e) []

    unfoldable pub new_backend : Config → Group B
    unfolding start_each only
    new_backend c =
        let total = length c.listeners in
        if leb total 1 then only (new c) else start_each c c.listeners 0 total []
