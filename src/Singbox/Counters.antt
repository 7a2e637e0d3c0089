-- ===== src/Singbox/Counters.antt =====
-- backend/singbox/stats.go: the growth of sing-box's counters, kept until the panel takes it.
-- pendingMu makes fold and take one step each; sing-box's answer to a query, HasPrefix and Split of
-- Go's package strings are arguments.
pub mod Taking
pub mod Accounting
use Prim.Native.String.{◌++◌ as concat}
use pasarguard_node.Prelude.{
  ℕ, String, Bool, true, false, not, ◌&&◌, Option, none, some, List, [], ◌∷◌, ◌==◌, nat_beq,
  if◌then◌else◌,
}
use pasarguard_node.Int64.{Int64, add64, sub64, slt}
use pasarguard_node.Dict
use pasarguard_node.Dict.{Dict}
use pasarguard_node.Stats.Stat.{Stat}

-- statsapi.Stat, as far as it is read
pub record Counter : Type 0 where
  pub name : String
  pub value : Int64

pub record StatsClient : Type 0 where
  pub pending : Dict Int64
  pub baseline : Dict Int64

pub new_stats_client : StatsClient
new_stats_client = record { pending = Dict.empty; baseline = Dict.empty }

-- What a counter adds to what is pending, over its last value.
pub growth : Option Int64 → Int64 → Int64
growth none cur = 0
growth (some prev) cur =
    if slt cur prev
    then (if slt 0 cur then cur else 0)
    else (if slt 0 (sub64 cur prev) then sub64 cur prev else 0)

pub amount : Option Int64 → Int64
amount none = 0
amount (some v) = v

-- s.pending[name] += d, when d > 0
pub add_pending : Dict Int64 → String → Int64 → Dict Int64
unfolding amount
add_pending pending name d =
    if nat_beq d 0
    then pending
    else Dict.put pending name (add64 (amount (Dict.get pending name)) d)

pub fold : List Counter → StatsClient → StatsClient
unfolding growth add_pending
fold [] s = s
fold (stat ∷ stats) s = fold stats (record {
  pending = add_pending s.pending stat.name (growth (Dict.get s.baseline stat.name) stat.value);
  baseline = Dict.put s.baseline stat.name stat.value;
})

module _ (has_prefix : String → String → Bool) where
  -- prefix != "" && !strings.HasPrefix(name, prefix)
  pub matches : String → String → Bool
  matches prefix name = if prefix == "" then true else has_prefix name prefix

  -- One round of the loop, for a name that matches the prefix or does not.
  pub take_name :
      Bool → Bool → String → Option Int64 → Dict Int64 × Dict Int64 → Dict Int64 × Dict Int64
  take_name false consume name value acc = acc
  take_name true consume name none acc = acc
  take_name true consume name (some value) (out, pending) =
      (Dict.put out name value, if consume then Dict.remove pending name else pending)

  -- The loop over the names that are pending, to what is taken and what stays.
  pub take_each : String → Bool → List String → Dict Int64 × Dict Int64 → Dict Int64 × Dict Int64
  unfolding take_name
  take_each prefix consume [] acc = acc
  take_each prefix consume (name ∷ names) (out, pending) =
      take_each prefix consume names
        (take_name (matches prefix name) consume name (Dict.get pending name) (out, pending))

  pub take : String → Bool → StatsClient → Dict Int64 × StatsClient
  unfolding take_each
  take prefix consume s =
      let (out, pending) = take_each prefix consume (Dict.keys s.pending) (Dict.empty, s.pending) in
      (out, record s { pending = pending })

  pub data StatType : Type 0 where
    users_stat user_stat inbounds inbound outbounds outbound other : StatType

  pub pattern_of : StatType → String → String
  pattern_of users_stat name = "user>>>"
  pattern_of user_stat name = concat "user>>>" (concat name ">>>")
  pattern_of inbounds name = "inbound>>>"
  pattern_of inbound name = concat "inbound>>>" (concat name ">>>")
  pattern_of outbounds name = "outbound>>>"
  pattern_of outbound name = concat "outbound>>>" (concat name ">>>")
  pattern_of other name = ""

  -- The name, the kind and the link.
  four_parts : String → List String → String × String × String
  four_parts raw (a ∷ b ∷ c ∷ d ∷ []) = (b, d, c)
  four_parts raw _ = (raw, "", "")

  pub split_stat_name : (String → String → List String) → String → String × String × String
  unfolding four_parts
  split_stat_name split raw = four_parts raw (split raw ">>>")

  stat_of : (String → String → List String) → String → Int64 → Stat
  stat_of split raw value =
      let (name, kind, link) = split_stat_name split raw in
      record { name = name; direction = kind; link = link; value = value }

  list_stats : (String → String → List String) → Dict Int64 → List String → List Stat
  list_stats split taken [] = []
  list_stats split taken (raw ∷ names) =
      let rest = list_stats split taken names in
      elim (Dict.get taken raw) [ none ↦ rest | some value ↦ stat_of split raw value ∷ rest ]

  -- The second argument is sing-box's answer to the query: its counters, or none for an error.
  pub get_stats :
      (String → String → List String)
      → Option (List Counter)
      → StatType
      → String
      → Bool
      → Option StatsClient
      → Option StatsClient × Option (List Stat)
  unfolding fold take pattern_of list_stats
  get_stats split answer kind name reset none = (none, some [])
  get_stats split none kind name reset (some s) = (some s, none)
  get_stats split (some counters) kind name reset (some s) =
      let (taken, s') = take (pattern_of kind name) reset (fold counters s) in
      (some s', some (list_stats split taken (Dict.keys taken)))
