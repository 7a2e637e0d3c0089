-- ===== src/Singbox/Slots/Stable.antt =====
-- backend/singbox/singbox.go: a slot never passes from one user to another.
use pasarguard_node.Prelude.{
  ℕ, String, ◌≡◌, refl, sym, subst, ◌∙◌, Bool, true, false, Option, none, some, List, [], ◌∷◌, ◌++◌,
  ◌==◌, if◌then◌else◌, is_some, ◌⊎◌, inl, inr,
}
use pasarguard_node.Dict
use pasarguard_node.Dict.{Dict}
use pasarguard_node.User.{User}
use pasarguard_node.Singbox.Config.{CredentialKind}
use pasarguard_node.Singbox.Users.{UserCredentials}
use pasarguard_node.Singbox.Slots.{
  SingBox, ClashUser, push_users, sync_user, merge_users, replace_all, timer_fires, reconcile_slots,
}
use pasarguard_node.Singbox.Slots.Layout.{kept, kept_all, fresh, places, reconcile_slots_lem}

-- Slot by slot, the later list has the email of the earlier one, or none; it may be longer.
abbrev pub Holds : List String → List String → Type 0
Holds [] later = Unit
Holds (e ∷ es) [] = ⊥
Holds (e ∷ es) (d ∷ ds) = ((d ≡ e) ⊎ (d ≡ "")) × Holds es ds

Holds-refl : (es : List String) → Holds es es
Holds-refl [] = record {}
Holds-refl (e ∷ es) = (inl refl, Holds-refl es)

either : {a b c : String} → (b ≡ a) ⊎ (b ≡ "") → (c ≡ b) ⊎ (c ≡ "") → (c ≡ a) ⊎ (c ≡ "")
either p (inr q) = inr q
either (inl p) (inl q) = inl (q ∙ p)
either (inr p) (inl q) = inr (q ∙ p)

Holds-trans : (xs ys zs : List String) → Holds xs ys → Holds ys zs → Holds xs zs
Holds-trans [] ys zs h k = record {}
Holds-trans (x ∷ xs) [] zs h k = elim h [ ]
Holds-trans (x ∷ xs) (y ∷ ys) [] h k = elim k [ ]
Holds-trans (x ∷ xs) (y ∷ ys) (z ∷ zs) (p, h) (q, k) = (either p q, Holds-trans xs ys zs h k)

if_either : (b : Bool) (e : String) → ((if b then e else "") ≡ e) ⊎ ((if b then e else "") ≡ "")
if_either true e = inl refl
if_either false e = inr refl

kept_either : (users : Dict UserCredentials) (e : String) → (kept users e ≡ e) ⊎ (kept users e ≡ "")
kept_either users e = if_either (if e == "" then false else is_some (Dict.get users e)) e

kept_all-Holds :
    (users : Dict UserCredentials) (slots more : List String)
    → Holds slots (kept_all users slots ++ more)
kept_all-Holds users [] more = record {}
kept_all-Holds users (e ∷ slots) more = (kept_either users e, kept_all-Holds users slots more)

reconcile_slots-Holds :
    (users : Dict UserCredentials) (slots : List String) → Holds slots (reconcile_slots users slots)
reconcile_slots-Holds users slots =
    subst (Holds slots) (sym (reconcile_slots_lem users slots))
      (kept_all-Holds users slots (fresh (places users slots) (Dict.keys users)))

-- What may happen between two starts of the process, with sing-box's answers to the pushes.
pub data Event : Type 0 where
  synced : Option User → Event
  replaced : List (Option User) → (String → List ClashUser → Option String) → Event
  merged : List (Option User) → (String → List ClashUser → Option String) → Event
  timer_fired : (String → List ClashUser → Option String) → Event

module _ (trim_space : String → String) (free_slot_secret : CredentialKind → ℕ → String) where
  unfoldable pub step : SingBox → Event → SingBox
  step s (synced u) = (sync_user trim_space free_slot_secret u s).0
  step s (replaced us answer) = (replace_all trim_space free_slot_secret answer us s).0
  step s (merged us answer) = (merge_users trim_space free_slot_secret answer us s).0
  step s (timer_fired answer) = timer_fires trim_space free_slot_secret answer s

  unfoldable pub run : SingBox → List Event → SingBox
  run s [] = s
  run s (e ∷ es) = run (step s e) es

  step-Holds : (s : SingBox) (e : Event) → Holds s.slots (step s e).slots
  unfolding step sync_user replace_all merge_users timer_fires push_users
  step-Holds s (synced none) = Holds-refl s.slots
  step-Holds s (synced (some u)) = Holds-refl s.slots
  step-Holds s (replaced us answer) = reconcile_slots-Holds _ s.slots
  step-Holds s (merged us answer) = reconcile_slots-Holds _ s.slots
  step-Holds s (timer_fired answer) = reconcile_slots-Holds _ s.slots

  -- From one start of the process to the next, whatever users are added, changed and removed, a
  -- slot that belonged to a user belongs to that user or to nobody, and a freed slot stays free.
  pub run-slots-Holds : (s : SingBox) (es : List Event) → Holds s.slots (run s es).slots
  unfolding run
  run-slots-Holds s [] = Holds-refl s.slots
  run-slots-Holds s (e ∷ es) =
      Holds-trans s.slots (step s e).slots (run (step s e) es).slots (step-Holds s e)
        (run-slots-Holds (step s e) es)
