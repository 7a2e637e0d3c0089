-- ===== src/Xray/ApiExamples.antt =====
-- Tests of the restart with a new configuration and of ApplyAPI, and the theorems about them at
-- concrete inputs.
use pasarguard_node.Prelude.{
  ◌≡◌, refl, String, Bool, true, false, Option, none, some, List, [], ◌∷◌, ◌==◌, map,
}
use pasarguard_node.Dict
use pasarguard_node.User.{User, no_proxy}
use pasarguard_node.Xray.Inbounds.{Codecs, Inbound}
use pasarguard_node.Xray.Users.{sync_inbounds}
use pasarguard_node.Xray.Restart.{not_started, restarted, Course, sync_users}
use pasarguard_node.Xray.Fallback.{IsChanged, with_config, bare, sync_users-IsChanged}
use pasarguard_node.Xray.Routing.{one, many, text, Rule, object, private_cidrs}
use pasarguard_node.Xray.Api.{Outbound, Config, rule_of}
use pasarguard_node.Xray.ApplyApi.{strip_api, apply_rules, apply_api, prepend_rules, is_api}
use pasarguard_node.Xray.Rules.{NoneFolds}
use pasarguard_node.Xray.Stripped.{AtMostOneApi}
use pasarguard_node.Xray.Reapplied.{once_more, apply_api_idempotent}

abbrev inbound : String → Inbound
inbound tag = record {
  tag = tag;
  listen = "";
  protocol = "trojan";
  method = none;
  flow = none;
  exclude = false;
  clients = Dict.empty;
}

abbrev config : List Inbound
config = record (inbound "in") { exclude = true } ∷ inbound "out" ∷ []

abbrev codecs : Codecs
codecs = record { parse_uuid = some; decode = λ s. none; encode = λ bs. ""; sha256 = λ s. [] }

abbrev alice : User
alice = record {
  email = "alice";
  proxies = some (record no_proxy { trojan = some (record { password = "pw" }) });
  inbounds = "out" ∷ [];
}

abbrev remarshal : List Inbound → Option (List Inbound)
remarshal is = some (bare is)

abbrev first_error : String → String → String
first_error e f = e

-- The new configuration does not start, and the previous one does.
abbrev course : Course
course = record {
  restart = not_started "bad config";
  status = none;
  restore_restart = restarted;
  restore_status = none;
}

sync_users-IsChanged_example :
    IsChanged course
      (sync_inbounds codecs (alice ∷ []) config)
      config
      (sync_users first_error remarshal codecs course (alice ∷ []) (with_config config none))
sync_users-IsChanged_example =
    sync_users-IsChanged first_error remarshal config refl (refl, (refl, tt)) none codecs course
      (alice ∷ [])

sync_users_runs :
    (sync_users first_error remarshal codecs course
      (alice ∷ [])
      (with_config config none)).xray.running
    ≡ some config
unfolding sync_users
sync_users_runs = refl

abbrev with_api : List Inbound
with_api = inbound "a" ∷ inbound "API_INBOUND" ∷ inbound "b" ∷ []

one_api : AtMostOneApi with_api
unfolding is_api
one_api = (λ h. cc, (λ h. refl, (λ h. cc, tt)))

-- A second inbound with the tag panics if it comes last, and stays if it follows the first.
strip_api_panics : strip_api (inbound "API_INBOUND" ∷ inbound "API_INBOUND" ∷ []) ≡ none
unfolding strip_api
strip_api_panics = refl

strip_api_leaves :
    strip_api (inbound "API_INBOUND" ∷ inbound "API_INBOUND" ∷ inbound "b" ∷ [])
    ≡ some (inbound "API_INBOUND" ∷ inbound "b" ∷ [])
unfolding strip_api
strip_api_leaves = refl

abbrev trim : String → String
trim s = s

abbrev same_text : String → String → Bool
same_text s t = s == t

abbrev private_rule : Rule
private_rule =
    object (
      rule_of (("ip", many (text "geoip:private" ∷ [])) ∷ ("outboundTag", one (text "block")) ∷ []))

abbrev outbounds : Option (List (Option Outbound))
outbounds = some (some (record { tag = some "block"; protocol = some "blackhole" }) ∷ [])

-- The rule as ApplyAPI leaves it.
abbrev plain_rule : Rule
plain_rule =
    object
      (rule_of (("ip", many (map text private_cidrs)) ∷ ("outboundTag", one (text "block")) ∷ []))

abbrev made_rules : List Rule
made_rules = prepend_rules trim same_text ("127.0.0.1" ∷ []) outbounds (plain_rule ∷ [])

apply_rules_taken :
    apply_rules trim same_text ("127.0.0.1" ∷ []) outbounds (private_rule ∷ []) ≡ some made_rules
unfolding apply_rules Dict.get Dict.put Dict.empty
apply_rules_taken = refl

abbrev panel_config : Config
panel_config = record {
  inbounds = with_api;
  outbounds = outbounds;
  rules = private_rule ∷ [];
  policy = none;
  observatory = none;
  burst_observatory = none;
}

abbrev folds : NoneFolds same_text private_cidrs
folds = (
  refl,
  (
    refl,
    (
      refl,
      (
        refl,
        (refl, (refl, (refl, (refl, (refl, (refl, (refl, (refl, (refl, (refl, (refl, tt))))))))))),
      ),
    ),
  ),
)

apply_api_idempotent_example :
    once_more
      (apply_api trim same_text ("127.0.0.1" ∷ []))
      (apply_api trim same_text ("127.0.0.1" ∷ []) panel_config)
    ≡ apply_api trim same_text ("127.0.0.1" ∷ []) panel_config
apply_api_idempotent_example =
    apply_api_idempotent trim same_text ("127.0.0.1" ∷ []) folds panel_config one_api
