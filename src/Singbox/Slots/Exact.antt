-- ===== src/Singbox/Slots/Exact.antt =====
-- backend/singbox/singbox.go: every user stands once in what is pushed.
use pasarguard_node.Prelude.{
  ℕ, String, ◌≡◌, refl, sym, subst, Bool, true, false, not, ◌&&◌, ◌||◌, none, some, List, [], ◌∷◌,
  ◌++◌, arith, ◌==◌, eq_iff, eq_refl, if◌then◌else◌, is_some, contains, Bool-cases, inl, inr,
}
use pasarguard_node.Dict
use pasarguard_node.Dict.{Dict, contains-keys, keys-IsNodup, IsNodup}
use pasarguard_node.Singbox.Config.{CredentialKind}
use pasarguard_node.Singbox.Users.{UserCredentials}
use pasarguard_node.Singbox.Slots.{
  SingBox, push_users, reconcile_slots, sync_user, merge_users, replace_all, timer_fires,
}
use pasarguard_node.Singbox.Slots.Layout.{kept_all, fresh, places, reconcile_slots_lem, has_place}
use pasarguard_node.Singbox.Slots.Stable.{Event, synced, replaced, merged, timer_fired, step, run}

-- No email has two slots.
abbrev pub IsOnce : List String → Type 0
IsOnce [] = Unit
IsOnce (e ∷ es) = ((e == "" || not (contains e es)) ≡ true) × IsOnce es

contains-append :
    (e : String) (xs ys : List String) → contains e (xs ++ ys) ≡ (contains e xs || contains e ys)
contains-append e [] ys = refl
contains-append e (x ∷ xs) ys = ground (arith, contains-append e xs ys)

contains-kept_all :
    (users : Dict UserCredentials) (slots : List String) (e : String)
    → (e == "") ≡ false
    → contains e (kept_all users slots) ≡ (contains e slots && is_some (Dict.get users e))
contains-kept_all users [] e h = ground arith
contains-kept_all users (d ∷ slots) e h =
    ground (arith, contains-kept_all users slots e, eq_iff d e, eq_iff "" e, eq_iff e "")

contains-fresh :
    (placed : Dict ℕ) (es : List String) (e : String)
    → contains e (fresh placed es) ≡ (contains e es && not (is_some (Dict.get placed e)))
contains-fresh placed [] e = refl
contains-fresh placed (d ∷ es) e = ground (arith, contains-fresh placed es e, eq_iff d e)

pub contains-reconcile_slots :
    (users : Dict UserCredentials) (slots : List String) (e : String)
    → (e == "") ≡ false
    → contains e (reconcile_slots users slots) ≡ is_some (Dict.get users e)
contains-reconcile_slots users slots e h = rw (reconcile_slots_lem users slots) (
    ground (
      arith,
      contains-append e (kept_all users slots) (fresh (places users slots) (Dict.keys users)),
      contains-kept_all users slots e,
      contains-fresh (places users slots) (Dict.keys users) e,
      has_place users slots e,
      contains-keys users e,
    ))

free_or_out :
    (b : Bool) (e : String) (l : List String)
    → (b ≡ true → (e == "" || not (contains e l)) ≡ true)
    → ((if b then e else "") == "" || not (contains (if b then e else "") l)) ≡ true
free_or_out true e l h = h refl
free_or_out false e l h = ground (arith, eq_refl "")

abbrev is_user : Dict UserCredentials → String → Bool
is_user users e = if e == "" then false else is_some (Dict.get users e)

kept_all-IsOnce :
    (users : Dict UserCredentials) (slots : List String)
    → IsOnce slots
    → IsOnce (kept_all users slots)
kept_all-IsOnce users [] h = record {}
kept_all-IsOnce users (e ∷ slots) (h, hs) = (
  free_or_out (is_user users e) e (kept_all users slots)
      (λ b. ground (arith, b, h, contains-kept_all users slots e)),
  kept_all-IsOnce users slots hs,
)

fresh-IsOnce : (placed : Dict ℕ) (es : List String) → IsNodup es → IsOnce (fresh placed es)
fresh-IsOnce placed [] h = record {}
fresh-IsOnce placed (e ∷ es) (out, h) = elim (Bool-cases (is_some (Dict.get placed e))) [
  | inl old ↦ rw old (fresh-IsOnce placed es h)
  | inr new ↦ rw new ((ground (arith, out, contains-fresh placed es e)), fresh-IsOnce placed es h)
]

-- Every email of the first list is free or not in the second.
abbrev AreApart : List String → List String → Type 0
AreApart [] ys = Unit
AreApart (x ∷ xs) ys = ((x == "" || not (contains x ys)) ≡ true) × AreApart xs ys

append-IsOnce : (xs ys : List String) → IsOnce xs → IsOnce ys → AreApart xs ys → IsOnce (xs ++ ys)
append-IsOnce [] ys hx hy h = hy
append-IsOnce (x ∷ xs) ys (p, hx) hy (q, h) =
    (ground (arith, p, q, contains-append x xs ys), append-IsOnce xs ys hx hy h)

kept-apart :
    (users : Dict UserCredentials) (slots all ys : List String)
    → ((e : String) → (e == "") ≡ false → contains e slots ≡ true → contains e all ≡ true)
    → ((e : String)
        → (e == "") ≡ false
        → contains e all ≡ true
        → is_some (Dict.get users e) ≡ true
        → contains e ys ≡ false)
    → AreApart (kept_all users slots) ys
kept-apart users [] all ys sub h = record {}
kept-apart users (e ∷ slots) all ys sub h = (
  free_or_out (is_user users e) e ys (λ b. ground (arith, b, sub e, h e, eq_refl e)),
  kept-apart users slots all ys (λ d p q. sub d p (ground (arith, q))) h,
)

pub reconcile_slots-IsOnce :
    (users : Dict UserCredentials) (slots : List String)
    → IsOnce slots
    → IsOnce (reconcile_slots users slots)
reconcile_slots-IsOnce users slots h =
    let more = fresh (places users slots) (Dict.keys users) in
    subst IsOnce (sym (reconcile_slots_lem users slots)) (
      append-IsOnce (kept_all users slots) more (kept_all-IsOnce users slots h)
        (fresh-IsOnce (places users slots) (Dict.keys users) (keys-IsNodup users))
        (kept-apart users slots slots more (λ e p q. q)
          (λ e p q r. ground (
            arith,
            p,
            q,
            r,
            contains-fresh (places users slots) (Dict.keys users) e,
            has_place users slots e,
          ))))

module _ (trim_space : String → String) (free_slot_secret : CredentialKind → ℕ → String) where
  step-IsOnce :
      (s : SingBox) (e : Event)
      → IsOnce s.slots
      → IsOnce (step trim_space free_slot_secret s e).slots
  unfolding step sync_user replace_all merge_users timer_fires push_users
  step-IsOnce s (synced none) h = h
  step-IsOnce s (synced (some u)) h = h
  step-IsOnce s (replaced us answer) h = reconcile_slots-IsOnce _ s.slots h
  step-IsOnce s (merged us answer) h = reconcile_slots-IsOnce _ s.slots h
  step-IsOnce s (timer_fired answer) h = reconcile_slots-IsOnce _ s.slots h

  pub run-IsOnce :
      (s : SingBox) (es : List Event)
      → IsOnce s.slots
      → IsOnce (run trim_space free_slot_secret s es).slots
  unfolding run
  run-IsOnce s [] h = h
  run-IsOnce s (e ∷ es) h = run-IsOnce (step trim_space free_slot_secret s e) es (step-IsOnce s e h)
