-- ===== src/Xray/Api.antt =====
-- backend/xray/config.go: what ApplyAPI makes of the panel's configuration. The addresses of the
-- network interfaces are an argument.
use pasarguard_node.Prelude.{
  String, Bool, true, false, ◌||◌, Option, none, some, List, [], ◌∷◌, ◌==◌, if◌then◌else◌, contains,
  is_nil, map,
}
use pasarguard_node.Dict
use pasarguard_node.Dict.{Dict}
use pasarguard_node.Sorting.{sort_strings}
use pasarguard_node.Xray.Accounts.{map_option}
use pasarguard_node.Xray.Inbounds.{Inbound}
use pasarguard_node.Xray.Routing.{Entry, text, opaque, Value, one, many, Rule, object, guard_tag}

-- An outbound that is an object: its tag and its protocol, where they are texts.
pub record Outbound : Type 0 where
  pub tag : Option String
  pub protocol : Option String

pub record Level : Type 0 where
  pub user_uplink : Bool
  pub user_downlink : Bool
  pub user_online : Bool

pub record SystemPolicy : Type 0 where
  pub inbound_uplink : Bool
  pub inbound_downlink : Bool
  pub outbound_uplink : Bool
  pub outbound_downlink : Bool

-- Of the levels, level 0.
pub record PolicyConfig : Type 0 where
  pub level_zero : Option Level
  pub system : Option SystemPolicy

-- The section of an observatory: its selector, if it has one that is a list.
pub record Section : Type 0 where
  pub subject_selector : Option (List Entry)

pub record Config : Type 0 where
  pub inbounds : List Inbound
  pub outbounds : Option (List (Option Outbound))
  pub rules : List Rule
  pub policy : Option PolicyConfig
  pub observatory : Option Section
  pub burst_observatory : Option Section

unfoldable pub text_or_empty : Option String → String
text_or_empty none = ""
text_or_empty (some s) = s

module _ (trim_space : String → String) where
  unfoldable pub put_protocol : Outbound → Dict String → Dict String
  unfolding text_or_empty
  put_protocol o out =
      if trim_space (text_or_empty o.tag) == "" || trim_space (text_or_empty o.protocol) == ""
      then out
      else Dict.put out (trim_space (text_or_empty o.tag)) (trim_space (text_or_empty o.protocol))

  unfoldable pub collect_protocols : List (Option Outbound) → Dict String → Dict String
  unfolding put_protocol
  collect_protocols [] out = out
  collect_protocols (none ∷ os) out = collect_protocols os out
  collect_protocols (some o ∷ os) out = collect_protocols os (put_protocol o out)

  -- A nil map is read as an empty one.
  unfoldable pub outbound_protocol_by_tag : Option (List (Option Outbound)) → Dict String
  unfolding collect_protocols
  outbound_protocol_by_tag none = Dict.empty
  outbound_protocol_by_tag (some os) = collect_protocols os Dict.empty

  unfoldable pub is_excluded_protocol : Option String → Bool
  is_excluded_protocol none = false
  is_excluded_protocol (some protocol) = contains protocol ("blackhole" ∷ "dns" ∷ "loopback" ∷ [])

  unfoldable pub filter_selector : Dict String → List Entry → List Entry
  unfolding is_excluded_protocol
  filter_selector protocols [] = []
  filter_selector protocols (opaque raw ∷ values) = filter_selector protocols values
  filter_selector protocols (text tag ∷ values) =
      let rest = filter_selector protocols values in
      if is_excluded_protocol (Dict.get protocols (trim_space tag)) then rest else text tag ∷ rest

  unfoldable pub sanitize : Dict String → Option Section → Option Section
  unfolding filter_selector
  sanitize protocols section =
      if is_nil (Dict.keys protocols)
      then section
      else map_option
          (λ (s : Section). record s {
            subject_selector = map_option (filter_selector protocols) s.subject_selector;
          })
          section

  module _ (equal_fold : String → String → Bool) where
    unfoldable pub is_blackhole : Option String → Bool
    is_blackhole none = false
    is_blackhole (some protocol) = equal_fold protocol "blackhole"

    unfoldable pub first_blackhole : Dict String → List String → Option String
    unfolding is_blackhole
    first_blackhole protocols [] = none
    first_blackhole protocols (tag ∷ tags) =
        let rest = first_blackhole protocols tags in
        if is_blackhole (Dict.get protocols tag) then some tag else rest

    -- The empty text of the source is none.
    unfoldable pub blackhole_outbound_tag : Option (List (Option Outbound)) → Option String
    unfolding outbound_protocol_by_tag first_blackhole
    blackhole_outbound_tag outbounds =
        first_blackhole (outbound_protocol_by_tag outbounds)
          (sort_strings (Dict.keys (outbound_protocol_by_tag outbounds)))

unfoldable pub rule_of : List (String × Value) → Dict Value
rule_of [] = Dict.empty
rule_of ((key, value) ∷ fields) = Dict.put (rule_of fields) key value

unfoldable pub malformed_domain_guard_rule : String → Rule
unfolding rule_of
malformed_domain_guard_rule outbound_tag = object (
    rule_of (
      ("domain", many (text "regexp:^.{254,}$" ∷ text "regexp:(^|\\.)[^.]{64,}(\\.|$)" ∷ []))
      ∷ ("outboundTag", one (text outbound_tag))
      ∷ ("ruleTag", one (text guard_tag))
      ∷ ("type", one (text "field"))
      ∷ []))

unfoldable pub api_rule : List String → Rule
unfolding rule_of
api_rule sources = object (
    rule_of (
      ("inboundTag", many (text "API_INBOUND" ∷ []))
      ∷ ("source", many (map text sources))
      ∷ ("outboundTag", one (text "API"))
      ∷ ("type", one (text "field"))
      ∷ []))

abbrev level_with_stats : Level
level_with_stats = record { user_uplink = true; user_downlink = true; user_online = false }

unfoldable pub check_level : Option Level → Level
check_level none = level_with_stats
check_level (some zero_level) = record zero_level { user_uplink = true; user_downlink = true }

unfoldable pub check_system : Option SystemPolicy → SystemPolicy
check_system none = record {
  inbound_uplink = false;
  inbound_downlink = false;
  outbound_uplink = true;
  outbound_downlink = true;
}
check_system (some s) = record s { outbound_uplink = true; outbound_downlink = true }

unfoldable pub check_policy : Option PolicyConfig → PolicyConfig
unfolding check_level check_system
check_policy none = record {
  level_zero = some (check_level none);
  system = some (check_system none);
}
check_policy (some p) = record {
  level_zero = some (check_level p.level_zero);
  system = some (check_system p.system);
}
