-- ===== src/Openvpn/Group/Started.antt =====
-- backend/openvpn/group.go: which servers the loop over a core's listeners has started.
use mathlib.Core.List.{append_assoc, append-nil}
use pasarguard_node.Prelude.{
  ℕ, suc, ◌≡◌, ◌⊎◌, refl, ◌∙◌, sym, ap, String, Option, List, [], ◌∷◌, ◌++◌, inl, inr, true, false,
}
use pasarguard_node.Backend.Composite.{new_composite}
use pasarguard_node.Openvpn.Config.{Config, Listener}
use pasarguard_node.Openvpn.Listeners
use pasarguard_node.Openvpn.Listeners.{
  Addr4, Prefix, SplitError, to_number, split_prefix, split_subnet,
}
use pasarguard_node.Openvpn.Group.{
  Launched, up, refused, GroupError, not_derived, not_started, Group, several, failed, derive,
  shutdown_all, start_each,
}

pub Result-cases {ℓ} :
    {A : Type ℓ} (r : Listeners.Result A)
    → ((a : A) × (r ≡ Listeners.ok a)) ⊎ ((e : SplitError) × (r ≡ Listeners.err e))
Result-cases (Listeners.ok a) = inl (a, refl)
Result-cases (Listeners.err e) = inr (e, refl)

pub Launched-cases :
    {B : Type 0} (r : Launched B) → ((b : B) × (r ≡ up b)) ⊎ ((e : String) × (r ≡ refused e))
Launched-cases (up b) = inl (b, refl)
Launched-cases (refused e) = inr (e, refl)

module _ (parse_prefix : String → Option Prefix) (prefix_string : Addr4 × ℕ → String)
    (work_path : Config → Listener → String) where
  module _ {B : Type 0} (new : Config → Launched B) (shutdown : B → B) (c : Config)
      (total : ℕ) where
    -- The listener at an index came up as the instance, with the configuration derived for it.
    abbrev pub IsServer : Listener → ℕ → B → Type 0
    IsServer l i b =
        (d : Config) × (derive parse_prefix prefix_string work_path c l i total ≡ Listeners.ok d)
        × (new d ≡ up b)

    -- The listener at an index did not come up, for the error.
    abbrev pub IsRefused : Listener → ℕ → GroupError → Type 0
    IsRefused l i e =
        ((x : SplitError) × (derive parse_prefix prefix_string work_path c l i total
            ≡ Listeners.err x)
          × (e ≡ not_derived x))
        ⊎ ((d : Config) × (x : String) × (derive parse_prefix prefix_string work_path c l i total
              ≡ Listeners.ok d)
            × (new d ≡ refused x)
            × (e ≡ not_started l x))

    -- The instances are those of the listeners, one for each in order, from an index on.
    abbrev pub AreServers : List Listener → ℕ → List B → Type 0
    AreServers [] i [] = Unit
    AreServers (l ∷ ls) i (b ∷ bs) = IsServer l i b × AreServers ls (suc i) bs
    AreServers _ _ _ = false ≡ true

    -- The instances are those of all listeners before one, and that one did not come up.
    abbrev pub AreServersUpTo : List Listener → ℕ → List B → GroupError → Type 0
    AreServersUpTo [] i bs e = false ≡ true
    AreServersUpTo (l ∷ ls) i [] e = IsRefused l i e
    AreServersUpTo (l ∷ ls) i (b ∷ bs) e = IsServer l i b × AreServersUpTo ls (suc i) bs e

    -- Each instance after its Shutdown.
    abbrev pub each_down : List B → List B
    each_down [] = []
    each_down (b ∷ bs) = shutdown b ∷ each_down bs

    pub shutdown_all-each_down : (bs : List B) → shutdown_all shutdown bs ≡ each_down bs
    unfolding shutdown_all
    shutdown_all-each_down [] = refl
    shutdown_all-each_down (b ∷ bs) = ap (λ rest. shutdown b ∷ rest) (shutdown_all-each_down bs)

    abbrev pub started_from : List Listener → ℕ → List B → Group B
    started_from ls i started =
        start_each parse_prefix prefix_string work_path new shutdown c ls i total started

    abbrev pub IsStarted : List Listener → ℕ → List B → Group B → Type 0
    IsStarted ls i started r =
        ((more : List B) × (r ≡ several (new_composite (started ++ more))) × AreServers ls i more)
        ⊎ ((more : List B) × (e : GroupError) × (r
              ≡ failed e (shutdown_all shutdown (started ++ more)))
            × AreServersUpTo ls i more e)

    pub start_each_lem :
        (ls : List Listener) (i : ℕ) (started : List B)
        → IsStarted ls i started (started_from ls i started)
    unfolding start_each
    start_each_lem [] i started =
        inl ([], ap (λ bs. several (new_composite bs)) (sym (append-nil started)), tt)
    start_each_lem (l ∷ ls) i started =
        elim (Result-cases (derive parse_prefix prefix_string work_path c l i total)) [
          | inr (x, bad) ↦
              rw (bad, start_each)
                (inr ([], not_derived x, none_more (not_derived x), inl (x, bad, refl)))
          | inl (d, good) ↦ elim (Launched-cases (new d)) [
            | inr (x, bad) ↦
                rw (good, start_each, bad)
                  (inr
                    ([], not_started l x, none_more (not_started l x), inr (d, x, good, bad, refl)))
            | inl (b, runs) ↦
                rw (good, start_each, runs)
                  (elim (start_each_lem ls (suc i) (started ++ b ∷ [])) [
                    | inl (more, same, servers) ↦ inl (
                      b ∷ more,
                      same
                          ∙ ap (λ bs. several (new_composite bs))
                              (append_assoc started (b ∷ []) more),
                      ((d, good, runs), servers),
                    )
                    | inr (more, e, same, servers) ↦ inr (
                      b ∷ more,
                      e,
                      same
                          ∙ ap (λ bs. failed e (shutdown_all shutdown bs))
                              (append_assoc started (b ∷ []) more),
                      ((d, good, runs), servers),
                    )
                  ])
          ]
        ]
      where
        none_more :
            (e : GroupError)
            → failed e (shutdown_all shutdown started)
              ≡ failed e (shutdown_all shutdown (started ++ []))
        none_more e = ap (λ bs. failed e (shutdown_all shutdown bs)) (sym (append-nil started))
