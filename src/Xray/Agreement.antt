-- ===== src/Xray/Agreement.antt =====
-- backend/xray/user.go: after SyncUser and UpdateUsers the running core and the configuration agree.
use pasarguard_node.Prelude.{
  String, ◌≡◌, refl, ◌∙◌, sym, ap, Bool, true, false, Option, List, [], ◌∷◌, arith, ◌==◌, eq_iff,
  eq_refl, if◌then◌else◌, contains, inl, inr, Bool-cases,
}
use pasarguard_node.Dict
use pasarguard_node.Dict.{Dict, IsNodup}
use pasarguard_node.Xray.Accounts.{Account, map_option}
use pasarguard_node.Xray.Inbounds.{Inbound, account_for_api}
use pasarguard_node.Xray.Users.{Call, Turn, visit, skip_turn}
use pasarguard_node.Xray.Running.{held}

abbrev pub tags : List Inbound → List String
tags [] = []
tags (i ∷ is) = i.tag ∷ tags is

-- What the core held for an email under a tag before the calls.
abbrev pub Start : Type 0
Start = String → String → Option Account

-- The core holds under the inbound's tag just the inbound's clients, as the handler gives them.
abbrev pub Agrees : Start → List Call → Inbound → Type 0
Agrees start calls i =
    (e : String)
    → held calls i.tag e (start i.tag e) ≡ map_option (account_for_api i) (Dict.get i.clients e)

-- So it is for every inbound that is not excluded.
abbrev pub AllAgree : Start → List Call → List Inbound → Type 0
AllAgree start calls [] = Unit
AllAgree start calls (i ∷ is) = (i.exclude ≡ false → Agrees start calls i) × AllAgree start calls is

-- What a turn does: it fails, or agrees and concerns no other tag. The inbound stays itself.
pub record IsGood (start : Start) (i : Inbound) (calls : List Call) (errors : List String)
    (turn : Turn) : Type 0 where
  pub none_before : turn.errors ≡ [] → errors ≡ []
  pub same_tag : turn.inbound.tag ≡ i.tag
  pub same_exclude : turn.inbound.exclude ≡ i.exclude
  pub frame :
      turn.errors ≡ []
      → (t e : String) → (i.tag == t) ≡ false
      → held turn.calls t e (start t e) ≡ held calls t e (start t e)
  pub agrees :
      turn.errors ≡ []
      → i.exclude ≡ false
      → Agrees start calls i
      → Agrees start turn.calls turn.inbound

skip_turn-IsGood :
    (start : Start) (i : Inbound) (calls : List Call) (errors : List String)
    → IsGood start i calls errors (skip_turn i calls errors)
unfolding skip_turn
skip_turn-IsGood start i calls errors = record {
  none_before = λ h. h;
  same_tag = refl;
  same_exclude = refl;
  frame = λ h t e d. refl;
  agrees = λ h x a. a;
}

-- Every inbound fits.
abbrev pub AllFit : (Inbound → Type 0) → List Inbound → Type 0
AllFit Fits [] = Unit
AllFit Fits (i ∷ is) = Fits i × AllFit Fits is

tag_differs :
    (tag t : String) (others : List String)
    → contains tag others ≡ false
    → contains t others ≡ true
    → (tag == t) ≡ false
tag_differs tag t others out is_in = elim (Bool-cases (tag == t)) [
  | inl e ↦
      let same : tag ≡ t = ground (arith, eq_iff tag t, e) in
      cc (sym out ∙ ap (λ s. contains s others) same ∙ is_in)
  | inr e ↦ e
]

module _ (start : Start) (skip : Inbound → List Inbound → Bool)
    (turn_of : Inbound → List Call → List String → Turn) (Fits : Inbound → Type 0)
    (turn-IsGood : (i : Inbound) (calls : List Call) (errors : List String)
      → Fits i
      → IsGood start i calls errors (turn_of i calls errors)) where
  step-IsGood :
      (i : Inbound) (is : List Inbound) (calls : List Call) (errors : List String)
      → Fits i
      → IsGood start i calls errors
          (if skip i is then skip_turn i calls errors else turn_of i calls errors)
  step-IsGood i is calls errors fits = elim (Bool-cases (skip i is)) [
    | inl e ↦ rw e (skip_turn-IsGood start i calls errors)
    | inr e ↦ rw e (turn-IsGood i calls errors fits)
  ]

  -- The loop makes no call under a tag that no inbound has.
  visit-frame :
      (is : List Inbound) (calls : List Call) (errors : List String)
      → AllFit Fits is
      → (visit skip turn_of is calls errors).errors ≡ []
      → (errors ≡ [])
        × ((t e : String)
            → contains t (tags is) ≡ false
            → held (visit skip turn_of is calls errors).calls t e (start t e)
              ≡ held calls t e (start t e))
  unfolding visit
  visit-frame [] calls errors fits h = (h, λ t e c. refl)
  visit-frame (i ∷ is) calls errors fits h =
      let turn = if skip i is then skip_turn i calls errors else turn_of i calls errors in
      let rest = visit-frame is turn.calls turn.errors fits.1 h in
      let good = step-IsGood i is calls errors fits.0 in
      (
        good.none_before rest.0,
        λ t e c. rest.1 t e (ground arith) ∙ good.frame rest.0 t e (ground arith),
      )

  AllAgree-frame :
      (calls later : List Call) (is : List Inbound)
      → ((t e : String)
          → contains t (tags is) ≡ true
          → held later t e (start t e) ≡ held calls t e (start t e))
      → AllAgree start calls is
      → AllAgree start later is
  AllAgree-frame calls later [] same a = tt
  AllAgree-frame calls later (i ∷ is) same a = (
    λ x e. same i.tag e (ground (arith, eq_refl i.tag)) ∙ a.0 x e,
    AllAgree-frame calls later is (λ t e c. same t e (ground arith)) a.1,
  )

  pub visit-AllAgree :
      (is : List Inbound) (calls : List Call) (errors : List String)
      → AllFit Fits is
      → IsNodup (tags is)
      → (visit skip turn_of is calls errors).errors ≡ []
      → AllAgree start calls is
      → AllAgree start
          (visit skip turn_of is calls errors).calls
          (visit skip turn_of is calls errors).inbounds
  unfolding visit
  visit-AllAgree [] calls errors fits distinct h a = tt
  visit-AllAgree (i ∷ is) calls errors fits distinct h a =
      let turn = if skip i is then skip_turn i calls errors else turn_of i calls errors in
      let rest = visit-frame is turn.calls turn.errors fits.1 h in
      let good = step-IsGood i is calls errors fits.0 in
      let untouched : contains turn.inbound.tag (tags is) ≡ false = rw good.same_tag distinct.0 in
      (
        λ x e.
            rest.1 turn.inbound.tag e untouched
            ∙ good.agrees rest.0 (sym good.same_exclude ∙ x) (a.0 (sym good.same_exclude ∙ x)) e,
        visit-AllAgree is turn.calls turn.errors fits.1 distinct.1 h (
            AllAgree-frame calls turn.calls is
              (λ t e c. good.frame rest.0 t e (tag_differs i.tag t (tags is) distinct.0 c)) a.1),
      )
