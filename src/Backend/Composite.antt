-- ===== src/Backend/Composite.antt =====
-- backend/composite.go: one backend over several. Logs, which merges channels, is not modelled.
pub mod Fanout
pub mod Merge
use Prim.Native.String.{◌++◌ as concat}
use pasarguard_node.Prelude.{
  ℕ, String, Bool, true, false, ◌&&◌, Option, none, some, List, [], ◌∷◌, ◌++◌, ltb, ◌==◌,
  if◌then◌else◌, is_some, is_nil,
}
use pasarguard_node.Int64.{Int64, add64}
use pasarguard_node.Dict
use pasarguard_node.Dict.{Dict}
use pasarguard_node.User.{User}
use pasarguard_node.Stats.Stat.{Stat}
use pasarguard_node.Backend.{
  Action, Reply, answer, failure, Query, SysStats, Latency, StatRequest, Backend,
}

-- if err != nil && firstErr == nil { firstErr = err }
abbrev pub keep_first : Option String → Option String → Option String
keep_first none err = err
keep_first (some e) err = some e

unfoldable pub new_composite : {B : Type 0} → List B → Option (List B)
new_composite backends = if is_nil backends then none else some backends

module _ {B : Type 0} where
  -- The loop of Restart and of the user calls.
  pub for_each : Action B → List B → Option String → List B × Option String
  for_each act [] first_err = ([], first_err)
  for_each act (b ∷ bs) first_err =
      let (b', err) = act b in
      let (bs', result) = for_each act bs (keep_first first_err err) in (b' ∷ bs', result)

module _ {A S : Type 0} where
  pub absorb : (S → A → S) → S × Option String → Reply A → S × Option String
  absorb add (merged, first_err) (failure e) = (merged, keep_first first_err (some e))
  absorb add (merged, first_err) (answer none) = (merged, first_err)
  absorb add (merged, first_err) (answer (some a)) = (add merged a, first_err)

module _ {B A S : Type 0} where
  -- The loop of the queries: what is merged so far, and the first error.
  pub query_each :
      Query B A → (S → A → S) → List B → S × Option String → List B × (S × Option String)
  unfolding absorb
  query_each query add [] acc = ([], acc)
  query_each query add (b ∷ bs) acc =
      let (b', reply) = query b in
      let (bs', result) = query_each query add bs (absorb add acc reply) in (b' ∷ bs', result)

-- best == nil || s.GetUptime() > best.GetUptime()
pub fresher : Option SysStats → SysStats → Option SysStats
fresher none s = some s
fresher (some best) s = if ltb best.uptime s.uptime then some s else some best

-- for ip, v := range s.GetIps() { merged[ip] += v }
pub count_at : Option Int64 → Int64
count_at none = 0
count_at (some v) = v

pub add_ips : Dict Int64 → List String → Dict Int64 → Dict Int64
unfolding count_at
add_ips ips [] merged = merged
add_ips ips (ip ∷ rest) merged =
    add_ips ips rest
      (Dict.put merged ip (add64 (count_at (Dict.get merged ip)) (count_at (Dict.get ips ip))))

-- The sum, and whether a backend answered.
pub add_online : Int64 × Bool → Int64 → Int64 × Bool
add_online (total, found) v = (add64 total v, true)

pub add_online_ips : Dict Int64 × Bool → Dict Int64 → Dict Int64 × Bool
add_online_ips (merged, found) ips = (add_ips ips (Dict.keys ips) merged, true)

-- The response when nothing was merged and a backend failed is that failure.
pub or_error : {A : Type 0} → Bool → A → Option String → Reply A
or_error nothing a none = answer (some a)
or_error nothing a (some e) = if nothing then failure e else answer (some a)

-- The response with its error: an empty one, with the first error, when no backend answered.
abbrev pub sys_response : Option SysStats → Option String → SysStats × Option String
sys_response none err = (record { uptime = 0; rest = [] }, err)
sys_response (some best) err = (best, none)

module _ {B : Type 0} (ops : Backend B) where
  pub started : List B → Bool
  started [] = false
  started (b ∷ bs) = let rest = started bs in if ops.started b then true else rest

  version_parts : List B → List String
  version_parts [] = []
  version_parts (b ∷ bs) =
      let parts = version_parts bs in if ops.version b == "" then parts else ops.version b ∷ parts

  join : List String → String
  join [] = ""
  join (v ∷ []) = v
  join (v ∷ u ∷ vs) = concat v (concat ", " (join (u ∷ vs)))

  pub version : List B → String
  unfolding version_parts join
  version bs = join (version_parts bs)

  pub restart : List B → List B × Option String
  restart bs = for_each ops.restart bs none

  pub shutdown : List B → List B
  shutdown [] = []
  shutdown (b ∷ bs) = ops.shutdown b ∷ shutdown bs

  pub sync_user : User → List B → List B × Option String
  sync_user user bs = for_each (ops.sync_user user) bs none

  pub sync_users : List User → List B → List B × Option String
  sync_users users bs = for_each (ops.sync_users users) bs none

  pub update_users : List User → List B → List B × Option String
  update_users users bs = for_each (ops.update_users users) bs none

  pub update_users_and_restart : List User → List B → List B × Option String
  update_users_and_restart users bs = for_each (ops.update_users_and_restart users) bs none

  pub get_sys_stats : List B → List B × (SysStats × Option String)
  unfolding query_each fresher
  get_sys_stats bs =
      let (bs', (best, err)) = query_each ops.get_sys_stats fresher bs (none, none) in
      (bs', sys_response best err)

  pub get_stats : StatRequest → List B → List B × Reply (List Stat)
  unfolding query_each or_error
  get_stats request bs =
      let (bs', (merged, err)) = query_each (ops.get_stats request) ◌++◌ bs ([], none) in
      (bs', or_error (is_nil merged) merged err)

  pub get_outbounds_latency : String → List B → List B × Reply (List Latency)
  unfolding query_each or_error
  get_outbounds_latency name bs =
      let (bs', (merged, err)) = query_each (ops.get_outbounds_latency name) ◌++◌ bs ([], none) in
      (bs', or_error (is_nil merged) merged err)

  pub get_user_online_stats : String → List B → List B × Reply Int64
  unfolding query_each add_online or_error
  get_user_online_stats name bs =
      let (bs', ((total, found), err)) =
        query_each (ops.get_user_online_stats name) add_online bs ((0, false), none) in
      (bs', or_error (if found then false else true) total err)

  pub get_user_online_ip_list_stats : String → List B → List B × Reply (Dict Int64)
  unfolding query_each add_online_ips or_error
  get_user_online_ip_list_stats name bs =
      let (bs', ((merged, found), err)) =
        query_each (ops.get_user_online_ip_list_stats name) add_online_ips bs
          ((Dict.empty, false), none) in
      (bs', or_error (if found then false else true) merged err)
