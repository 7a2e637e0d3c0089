-- ===== src/Xray/ApplyApi.antt =====
-- backend/xray/config.go: ApplyAPI, and the loop that takes the old API inbound out of the slice that
-- it ranges over.
use pasarguard_node.Prelude.{
  ℕ, zero, suc, ◌-◌, String, Bool, false, Option, none, some, List, [], ◌∷◌, ◌++◌, ◌==◌,
  if◌then◌else◌, length, leb,
}
use pasarguard_node.Dict
use pasarguard_node.Xray.Accounts.{map_option}
use pasarguard_node.Xray.Inbounds.{Inbound}
use pasarguard_node.Xray.Routing.{Rule, filter_rules, normalize_geoip_private_rules}
use pasarguard_node.Xray.Api.{
  Outbound, Config, outbound_protocol_by_tag, sanitize, blackhole_outbound_tag,
  malformed_domain_guard_rule, api_rule, check_policy,
}

-- The array of the inbounds, and how many of its cells the slice has.
pub record Slice : Type 0 where
  pub cells : List Inbound
  pub len : ℕ

module _ {ℓ} {A : Type ℓ} where
  unfoldable pub first_of : ℕ → List A → List A
  first_of zero xs = []
  first_of (suc n) [] = []
  first_of (suc n) (x ∷ xs) = x ∷ first_of n xs

  unfoldable pub after : ℕ → List A → List A
  after zero xs = xs
  after (suc n) [] = []
  after (suc n) (x ∷ xs) = after n xs

  unfoldable pub cell_at : List A → ℕ → Option A
  cell_at [] i = none
  cell_at (x ∷ xs) zero = some x
  cell_at (x ∷ xs) (suc i) = cell_at xs i

-- append(s[:i], s[i+1:]...) moves the cells in place; s[i+1:] panics past the end.
unfoldable pub remove_at : ℕ → Slice → Option Slice
unfolding first_of after
remove_at i s =
    if leb (suc i) s.len
    then some (record {
      cells =
          first_of i s.cells
          ++ (after (suc i) (first_of s.len s.cells) ++ after (s.len - 1) s.cells);
      len = s.len - 1;
    })
    else none

unfoldable pub is_api : Inbound → Bool
is_api i = i.tag == "API_INBOUND"

unfoldable pub strip_at : ℕ → Slice → Option Inbound → Option Slice
unfolding is_api remove_at
strip_at i s none = some s
strip_at i s (some inbound) = if is_api inbound then remove_at i s else some s

-- The range goes over the cells that the slice had at first, as they are by then. None is a panic.
unfoldable pub strip : ℕ → ℕ → Slice → Option Slice
unfolding strip_at cell_at
strip zero i s = some s
strip (suc rounds) i s = elim (strip_at i s (cell_at s.cells i)) [
  | none ↦ none
  | some next ↦ strip rounds (suc i) next
]

unfoldable pub contents : Slice → List Inbound
unfolding first_of
contents s = first_of s.len s.cells

unfoldable pub strip_api : List Inbound → Option (List Inbound)
unfolding strip contents
strip_api inbounds =
    map_option contents
      (strip (length inbounds) 0 (record { cells = inbounds; len = length inbounds }))

abbrev pub api_inbound : Inbound
api_inbound = record {
  tag = "API_INBOUND";
  listen = "127.0.0.1";
  protocol = "dokodemo-door";
  method = none;
  flow = none;
  exclude = false;
  clients = Dict.empty;
}

-- How ApplyAPI ends: with a configuration, an error or a panic.
pub data Applied : Type 0 where
  applied : Config → Applied
  refused panicked : Applied

module _ (trim_space : String → String) (equal_fold : String → String → Bool)
    (sources : List String) where
  unfoldable pub prepend_rules : Option (List (Option Outbound)) → List Rule → List Rule
  unfolding blackhole_outbound_tag malformed_domain_guard_rule api_rule
  prepend_rules outbounds rules =
      api_rule sources ∷ (elim (blackhole_outbound_tag trim_space equal_fold outbounds) [
        | none ↦ rules
        | some tag ↦ malformed_domain_guard_rule tag ∷ rules
      ])

  unfoldable pub apply_rules : Option (List (Option Outbound)) → List Rule → Option (List Rule)
  unfolding filter_rules normalize_geoip_private_rules prepend_rules
  apply_rules outbounds rules = elim (normalize_geoip_private_rules equal_fold rules) [
    | none ↦ none
    | some normalized ↦ map_option (prepend_rules outbounds) (filter_rules normalized)
  ]

  unfoldable pub apply_rest : Config → Option (List Rule) → List Inbound → Applied
  unfolding sanitize check_policy
  apply_rest c none inbounds = refused
  apply_rest c (some rules) inbounds =
      let protocols = outbound_protocol_by_tag trim_space c.outbounds in
      applied (record c {
        inbounds = api_inbound ∷ inbounds;
        rules = rules;
        policy = some (check_policy c.policy);
        observatory = sanitize trim_space protocols c.observatory;
        burst_observatory = sanitize trim_space protocols c.burst_observatory;
      })

  unfoldable pub apply_api : Config → Applied
  unfolding strip_api apply_rules apply_rest
  apply_api c = elim (strip_api c.inbounds) [
    | none ↦ panicked
    | some inbounds ↦ apply_rest c (apply_rules c.outbounds c.rules) inbounds
  ]
