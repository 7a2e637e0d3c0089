-- ===== src/Xray/RulesKept.antt =====
-- backend/xray/config.go: the rules after ApplyAPI, and after ApplyAPI once more.
use pasarguard_node.Prelude.{
  String, ◌≡◌, refl, ◌∙◌, sym, ap, subst, Bool, true, false, Option, none, some, List, [], ◌∷◌,
  arith, if◌then◌else◌, inl, inr, Bool-cases, Option-cases,
}
use pasarguard_node.Dict
use pasarguard_node.Dict.{Dict, get-put, get-remove, get-empty}
use pasarguard_node.Xray.Accounts.{map_option}
use pasarguard_node.Xray.Routing.{
  Value, Rule, invalid, object, is_own, is_text, filter_rules, private_cidrs, normalize_field,
  normalize_geoip_private_rules,
}
use pasarguard_node.Xray.Api.{
  Outbound, blackhole_outbound_tag, malformed_domain_guard_rule, api_rule, rule_of,
}
use pasarguard_node.Xray.ApplyApi.{prepend_rules, apply_rules}
use pasarguard_node.Xray.Rules.{
  names_private, AllPlain, NoneFolds, normalize_field-other, normalize_field-private,
  normalize_field-plain,
}

module _ (equal_fold : String → String → Bool) where
  abbrev normal : Dict Value → Dict Value
  normal obj = normalize_field equal_fold "source" (normalize_field equal_fold "ip" obj)

  is_own-normal : (obj : Dict Value) → is_own (normal obj) ≡ is_own obj
  unfolding is_own
  is_own-normal obj =
      let step = normalize_field equal_fold "ip" obj in
      rw
        (
          normalize_field-other equal_fold "source" "outboundTag" step refl,
          normalize_field-other equal_fold "source" "ruleTag" step refl,
          normalize_field-other equal_fold "ip" "outboundTag" obj refl,
          normalize_field-other equal_fold "ip" "ruleTag" obj refl,
        )
        refl

  normal-private :
      NoneFolds equal_fold private_cidrs
      → (obj : Dict Value)
      → (names_private equal_fold (Dict.get (normal obj) "ip") ≡ false)
        × (names_private equal_fold (Dict.get (normal obj) "source") ≡ false)
  normal-private n obj =
      let step = normalize_field equal_fold "ip" obj in
      (
        rw (normalize_field-other equal_fold "source" "ip" step refl)
            (normalize_field-private equal_fold n "ip" obj),
        normalize_field-private equal_fold n "source" step,
      )

  -- The two passes over the panel's rules.
  abbrev pub tidy : List Rule → Option (List Rule)
  tidy rules = elim (normalize_geoip_private_rules equal_fold rules) [
    | none ↦ none
    | some normalized ↦ filter_rules normalized
  ]

  tidy-object :
      (obj : Dict Value) (rules : List Rule)
      → tidy (object obj ∷ rules) ≡ (
          if is_own obj
          then tidy rules
          else map_option (λ rs. object (normal obj) ∷ rs) (tidy rules))
  unfolding normalize_geoip_private_rules filter_rules
  tidy-object obj rules = elim (Option-cases (normalize_geoip_private_rules equal_fold rules)) [
    | inl e ↦ rw (e, tidy) (ground arith)
    | inr (ns, e) ↦ rw (e, is_own-normal obj, tidy) refl
  ]

  tidy-own :
      (obj : Dict Value) (rules : List Rule)
      → is_own obj ≡ true
      → tidy (object obj ∷ rules) ≡ tidy rules
  tidy-own obj rules o = tidy-object obj rules ∙ rw o refl

  tidy-other :
      (obj : Dict Value) (rules gs : List Rule)
      → is_own obj ≡ false
      → tidy rules ≡ some gs
      → tidy (object obj ∷ rules) ≡ some (object (normal obj) ∷ gs)
  tidy-other obj rules gs o e = tidy-object obj rules ∙ rw (o, e) refl

  tidy-lost :
      (obj : Dict Value) (rules : List Rule)
      → is_own obj ≡ false
      → tidy rules ≡ none
      → tidy (object obj ∷ rules) ≡ none
  tidy-lost obj rules o e = tidy-object obj rules ∙ rw (o, e) refl

  tidy_nil : some [] ≡ tidy []
  unfolding normalize_geoip_private_rules filter_rules
  tidy_nil = refl

  tidy_invalid : (raw : String) (rules : List Rule) → tidy (invalid raw ∷ rules) ≡ none
  unfolding normalize_geoip_private_rules
  tidy_invalid raw rules = refl

  abbrev or_nil : Option (List Rule) → List Rule
  or_nil none = []
  or_nil (some rules) = rules

  -- What the two passes leave of the panel's rules is plain.
  pub tidy-AllPlain :
      NoneFolds equal_fold private_cidrs
      → (rules fs : List Rule) → tidy rules ≡ some fs
      → AllPlain equal_fold fs
  tidy-AllPlain n [] fs h = subst (λ l. AllPlain equal_fold l) (ap or_nil (tidy_nil ∙ h)) tt
  tidy-AllPlain n (invalid raw ∷ rules) fs h = cc (sym (tidy_invalid raw rules) ∙ h)
  tidy-AllPlain n (object obj ∷ rules) fs h = elim (Bool-cases (is_own obj)) [
    | inl o ↦ tidy-AllPlain n rules fs (sym (tidy-own obj rules o) ∙ h)
    | inr o ↦ elim (Option-cases (tidy rules)) [
      | inl e ↦ cc (sym (tidy-lost obj rules o e) ∙ h)
      | inr (gs, e) ↦
          subst (λ l. AllPlain equal_fold l) (ap or_nil (sym (tidy-other obj rules gs o e) ∙ h))
            (
              (is_own-normal obj ∙ o, (normal-private n obj).0, (normal-private n obj).1),
              tidy-AllPlain n rules gs e,
            )
    ]
  ]

  normalize-plain :
      (rules : List Rule)
      → AllPlain equal_fold rules
      → normalize_geoip_private_rules equal_fold rules ≡ some rules
  unfolding normalize_geoip_private_rules
  normalize-plain [] a = refl
  normalize-plain (invalid raw ∷ rules) a = absurd a.0
  normalize-plain (object obj ∷ rules) a =
      rw
        (
          normalize-plain rules a.1,
          normalize_field-plain equal_fold "ip" obj a.0.1,
          normalize_field-plain equal_fold "source" obj a.0.2,
        )
        refl

  filter-plain : (rules : List Rule) → AllPlain equal_fold rules → filter_rules rules ≡ some rules
  unfolding filter_rules
  filter-plain [] a = refl
  filter-plain (invalid raw ∷ rules) a = absurd a.0
  filter-plain (object obj ∷ rules) a = rw (filter-plain rules a.1, a.0.0) refl

  tidy-plain : (rules : List Rule) → AllPlain equal_fold rules → tidy rules ≡ some rules
  tidy-plain rules a = rw (normalize-plain rules a, tidy) (filter-plain rules a)

  module _ (trim_space : String → String) (sources : List String) where
    own_api : (rules : List Rule) → tidy (api_rule sources ∷ rules) ≡ tidy rules
    unfolding api_rule rule_of is_own
    own_api rules = tidy-own _ rules (simp (is_own, get-put, is_text))

    own_guard :
        (tag : String) (rules : List Rule)
        → tidy (malformed_domain_guard_rule tag ∷ rules) ≡ tidy rules
    unfolding malformed_domain_guard_rule rule_of is_own is_text
    own_guard tag rules = tidy-own _ rules (simp (is_own, get-put) (ground arith))

    -- The rules that ApplyAPI puts in front go when it is applied again.
    tidy-prepend_rules :
        (outbounds : Option (List (Option Outbound))) (rules : List Rule)
        → tidy (prepend_rules trim_space equal_fold sources outbounds rules) ≡ tidy rules
    unfolding prepend_rules api_rule rule_of malformed_domain_guard_rule is_own is_text
    tidy-prepend_rules outbounds rules =
        elim (Option-cases (blackhole_outbound_tag trim_space equal_fold outbounds)) [
          | inl e ↦ rw e (own_api rules)
          | inr (tag, e) ↦
              rw e (own_api (malformed_domain_guard_rule tag ∷ rules) ∙ own_guard tag rules)
        ]

    apply_rules-tidy :
        (outbounds : Option (List (Option Outbound))) (rules : List Rule)
        → apply_rules trim_space equal_fold sources outbounds rules
          ≡ map_option (prepend_rules trim_space equal_fold sources outbounds) (tidy rules)
    unfolding apply_rules
    apply_rules-tidy outbounds rules =
        elim (Option-cases (normalize_geoip_private_rules equal_fold rules)) [
          | inl e ↦ rw (e, tidy, apply_rules) refl
          | inr (ns, e) ↦ rw (e, tidy, apply_rules) refl
        ]

    -- If ApplyAPI takes the rules, it puts its own in front of those of the panel's that stay, which
    -- are no rules of its own and name no geoip:private, if EqualFold tells that from the networks
    -- that stand for it.
    pub apply_rules-plain :
        NoneFolds equal_fold private_cidrs
        → (outbounds : Option (List (Option Outbound))) (rules rs : List Rule)
        → apply_rules trim_space equal_fold sources outbounds rules ≡ some rs
        → (fs : List Rule) × (rs ≡ prepend_rules trim_space equal_fold sources outbounds fs)
          × AllPlain equal_fold fs
    unfolding prepend_rules
    apply_rules-plain n outbounds rules rs h = elim (Option-cases (tidy rules)) [
      | inl e ↦ cc (sym (apply_rules-tidy outbounds rules) ∙ h, e)
      | inr (fs, e) ↦ (
        fs,
        ap or_nil (
            sym h
            ∙ apply_rules-tidy outbounds rules
            ∙ ap (map_option (prepend_rules trim_space equal_fold sources outbounds)) e),
        tidy-AllPlain n rules fs e,
      )
    ]

    -- ApplyAPI leaves the rules that it made as they are.
    pub apply_rules_idempotent :
        NoneFolds equal_fold private_cidrs
        → (outbounds : Option (List (Option Outbound))) (rules rs : List Rule)
        → apply_rules trim_space equal_fold sources outbounds rules ≡ some rs
        → apply_rules trim_space equal_fold sources outbounds rs ≡ some rs
    apply_rules_idempotent n outbounds rules rs h =
        let plain = apply_rules-plain n outbounds rules rs h in
        apply_rules-tidy outbounds rs
        ∙ ap (map_option (prepend_rules trim_space equal_fold sources outbounds))
            (ap tidy plain.1 ∙ tidy-prepend_rules outbounds plain.0 ∙ tidy-plain plain.0 plain.2)
        ∙ ap some (sym plain.1)
