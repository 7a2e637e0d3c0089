-- ===== src/Xray/Reapplied.antt =====
-- backend/xray/config.go: ApplyAPI on a configuration that it was applied to.
use pasarguard_node.Prelude.{
  String, ◌≡◌, refl, ◌∙◌, sym, subst, Bool, true, Option, none, some, List, [], ◌∷◌, arith, is_nil,
  inl, inr, Bool-cases, Option-cases,
}
use pasarguard_node.Dict
use pasarguard_node.Dict.{Dict}
use pasarguard_node.Xray.Accounts.{map_option}
use pasarguard_node.Xray.Inbounds.{Inbound}
use pasarguard_node.Xray.Routing.{Entry, text, opaque, Rule, private_cidrs}
use pasarguard_node.Xray.Api.{
  PolicyConfig, Section, Config, outbound_protocol_by_tag, filter_selector, sanitize, check_level,
  check_system, check_policy,
}
use pasarguard_node.Xray.ApplyApi.{
  Applied, applied, refused, panicked, is_api, api_inbound, apply_rules, apply_rest, apply_api,
}
use pasarguard_node.Xray.Rules.{NoneFolds}
use pasarguard_node.Xray.RulesKept.{apply_rules_idempotent}
use pasarguard_node.Xray.Stripped.{
  no_api, without_api, AtMostOneApi, without_api-none, strip_api-AtMostOneApi,
}

without_api-no_api : (is : List Inbound) → no_api (without_api is) ≡ true
without_api-no_api [] = refl
without_api-no_api (i ∷ is) = ground (arith, without_api-no_api is)

no_api-AtMostOneApi : (is : List Inbound) → no_api is ≡ true → AtMostOneApi is
no_api-AtMostOneApi [] h = tt
no_api-AtMostOneApi (i ∷ is) h = (λ a. ground arith, no_api-AtMostOneApi is (ground arith))

check_policy_idempotent :
    (p : Option PolicyConfig) → check_policy (some (check_policy p)) ≡ check_policy p
unfolding check_policy check_level check_system
check_policy_idempotent none = refl
check_policy_idempotent (some p) = ground arith

module _ (trim_space : String → String) (protocols : Dict String) where
  filter_selector_idempotent :
      (values : List Entry)
      → filter_selector trim_space protocols (filter_selector trim_space protocols values)
        ≡ filter_selector trim_space protocols values
  unfolding filter_selector
  filter_selector_idempotent [] = refl
  filter_selector_idempotent (opaque raw ∷ values) = filter_selector_idempotent values
  filter_selector_idempotent (text tag ∷ values) = ground (arith, filter_selector_idempotent values)

  abbrev filtered : Option Section → Option Section
  filtered = map_option (λ (s : Section). record s {
    subject_selector = map_option (filter_selector trim_space protocols) s.subject_selector;
  })

  filtered_twice : (s : Option Section) → filtered (filtered s) ≡ filtered s
  filtered_twice none = refl
  filtered_twice (some s) = elim (Option-cases s.subject_selector) [
    | inl e ↦ rw e refl
    | inr (values, e) ↦ rw (e, filter_selector_idempotent values) refl
  ]

  sanitize_idempotent :
      (s : Option Section)
      → sanitize trim_space protocols (sanitize trim_space protocols s)
        ≡ sanitize trim_space protocols s
  unfolding sanitize
  sanitize_idempotent s = elim (Bool-cases (is_nil (Dict.keys protocols))) [
    | inl e ↦ rw e refl
    | inr e ↦ rw e (filtered_twice s)
  ]

-- ApplyAPI once more, if it was not refused.
abbrev pub once_more : (Config → Applied) → Applied → Applied
once_more f (applied c) = f c
once_more f refused = refused
once_more f panicked = panicked

module _ (trim_space : String → String) (equal_fold : String → String → Bool)
    (sources : List String) (folds : NoneFolds equal_fold private_cidrs) where
  apply_api-stripped :
      (c : Config)
      → AtMostOneApi c.inbounds
      → apply_api trim_space equal_fold sources c
        ≡ apply_rest trim_space equal_fold sources c
            (apply_rules trim_space equal_fold sources c.outbounds c.rules)
            (without_api c.inbounds)
  unfolding apply_api apply_rest
  apply_api-stripped c one = rw (strip_api-AtMostOneApi c.inbounds one, apply_api) refl

  -- What ApplyAPI makes of a configuration, from its rules and the inbounds without the API's.
  abbrev made : Config → List Rule → List Inbound → Config
  made c rs is =
      let protocols = outbound_protocol_by_tag trim_space c.outbounds in
      record c {
        inbounds = api_inbound ∷ is;
        rules = rs;
        policy = some (check_policy c.policy);
        observatory = sanitize trim_space protocols c.observatory;
        burst_observatory = sanitize trim_space protocols c.burst_observatory;
      }

  made-again :
      (c : Config) (rs : List Rule) (is : List Inbound)
      → no_api is ≡ true
      → apply_rules trim_space equal_fold sources c.outbounds rs ≡ some rs
      → apply_api trim_space equal_fold sources (made c rs is) ≡ applied (made c rs is)
  unfolding apply_rest is_api
  made-again c rs is h k =
      let protocols = outbound_protocol_by_tag trim_space c.outbounds in
      apply_api-stripped (made c rs is) (λ a. h, no_api-AtMostOneApi is h)
      ∙ rw
          (
            k,
            check_policy_idempotent c.policy,
            sanitize_idempotent trim_space protocols c.observatory,
            sanitize_idempotent trim_space protocols c.burst_observatory,
            without_api-none is h,
          )
          refl

  -- If at most one inbound of the panel's configuration has the tag of the API, ApplyAPI leaves a
  -- configuration that it made as it is, if EqualFold tells geoip:private from the networks that
  -- stand for it.
  pub apply_api_idempotent :
      (c : Config)
      → AtMostOneApi c.inbounds
      → once_more
          (apply_api trim_space equal_fold sources)
          (apply_api trim_space equal_fold sources c)
        ≡ apply_api trim_space equal_fold sources c
  unfolding apply_rest
  apply_api_idempotent c one =
      subst (λ a. once_more (apply_api trim_space equal_fold sources) a ≡ a)
        (sym (apply_api-stripped c one))
        (elim (Option-cases (apply_rules trim_space equal_fold sources c.outbounds c.rules)) [
          | inl e ↦ rw e refl
          | inr (rs, e) ↦ rw e (
              made-again c rs (without_api c.inbounds) (without_api-no_api c.inbounds) (
                apply_rules_idempotent equal_fold trim_space sources folds c.outbounds c.rules rs
                  e))
        ])
