-- ===== src/Xray/Routing.antt =====
-- backend/xray/config.go: the rules of the routing and the outbounds, as ApplyAPI changes them. What
-- the code does not look into is kept as the text that it is. EqualFold and TrimSpace are arguments.
use pasarguard_node.Prelude.{
  String, Bool, false, ◌||◌, Option, none, some, List, [], ◌∷◌, ◌++◌, ◌==◌, if◌then◌else◌, map,
}
use pasarguard_node.Dict
use pasarguard_node.Dict.{Dict}
use pasarguard_node.Xray.Accounts.{map_option}

-- An entry of a JSON list: a text, or anything else.
pub data Entry : Type 0 where
  text : String → Entry
  opaque : String → Entry

pub data Value : Type 0 where
  one : Entry → Value
  many : List Entry → Value

-- A rule is a JSON object, or no such thing.
pub data Rule : Type 0 where
  invalid : String → Rule
  object : Dict Value → Rule

abbrev pub api_tag : String
api_tag = "API"

abbrev pub guard_tag : String
guard_tag = "PG_NODE_MALFORMED_DOMAIN_GUARD"

-- `v, ok := obj[key].(string); ok && v == expected`
unfoldable pub is_text : String → Option Value → Bool
is_text expected (some (one (text s))) = s == expected
is_text expected _ = false

unfoldable pub is_own : Dict Value → Bool
unfolding is_text
is_own obj =
    is_text api_tag (Dict.get obj "outboundTag") || is_text guard_tag (Dict.get obj "ruleTag")

-- The error is none.
unfoldable pub filter_rules : List Rule → Option (List Rule)
unfolding is_own
filter_rules [] = some []
filter_rules (invalid raw ∷ rules) = none
filter_rules (object obj ∷ rules) =
    let rest = filter_rules rules in
    if is_own obj then rest else map_option (λ rs. object obj ∷ rs) rest

abbrev pub private_cidrs : List String
private_cidrs =
    "0.0.0.0/8" ∷ "10.0.0.0/8" ∷ "100.64.0.0/10" ∷ "127.0.0.0/8" ∷ "169.254.0.0/16"
    ∷ "172.16.0.0/12" ∷ "192.0.0.0/24" ∷ "192.168.0.0/16" ∷ "198.18.0.0/15" ∷ "224.0.0.0/4"
    ∷ "240.0.0.0/4" ∷ "::/128" ∷ "::1/128" ∷ "fc00::/7" ∷ "fe80::/10" ∷ []

module _ (equal_fold : String → String → Bool) where
  unfoldable pub is_private : Entry → Bool
  is_private (text s) = equal_fold s "geoip:private"
  is_private (opaque raw) = false

  unfoldable pub has_private : List Entry → Bool
  unfolding is_private
  has_private [] = false
  has_private (entry ∷ entries) = is_private entry || has_private entries

  unfoldable pub replace_entries : List Entry → List Entry
  unfolding is_private
  replace_entries [] = []
  replace_entries (entry ∷ entries) =
      let rest = replace_entries entries in
      if is_private entry then map text private_cidrs ++ rest else entry ∷ rest

  -- The new value, if there is something to replace.
  unfoldable pub replace_geoip_private : Value → Option Value
  unfolding has_private replace_entries
  replace_geoip_private (one entry) = none
  replace_geoip_private (many entries) =
      if has_private entries then some (many (replace_entries entries)) else none

  unfoldable pub put_replaced : String → Option Value → Dict Value → Dict Value
  put_replaced key none obj = obj
  put_replaced key (some value) obj = Dict.put obj key value

  -- `if ip, ok := obj["ip"]; ok { ... }`
  unfoldable pub replaced : Option Value → Option Value
  unfolding replace_geoip_private
  replaced none = none
  replaced (some value) = replace_geoip_private value

  unfoldable pub normalize_field : String → Dict Value → Dict Value
  unfolding put_replaced replaced
  normalize_field key obj = put_replaced key (replaced (Dict.get obj key)) obj

  unfoldable pub normalize_geoip_private_rules : List Rule → Option (List Rule)
  unfolding normalize_field
  normalize_geoip_private_rules [] = some []
  normalize_geoip_private_rules (invalid raw ∷ rules) = none
  normalize_geoip_private_rules (object obj ∷ rules) =
      map_option (λ rs. object (normalize_field "source" (normalize_field "ip" obj)) ∷ rs)
        (normalize_geoip_private_rules rules)
