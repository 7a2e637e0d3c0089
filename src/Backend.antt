-- ===== src/Backend.antt =====
-- backend/backend.go: what the node asks of a core.
pub mod Composite
mod Examples
use pasarguard_node.Prelude.{ℕ, String, Bool, Option, List}
use pasarguard_node.Int64.{Int64}
use pasarguard_node.Dict.{Dict}
use pasarguard_node.User.{User}
use pasarguard_node.Stats.Stat.{Stat}

-- A call returns its error, if it has one.
abbrev pub Action : Type 0 → Type 0
Action B = B → B × Option String

-- What a query answers: an error, or a response, which may be nil.
pub data Reply (A : Type 0) : Type 0 where
  answer : Option A → Reply A
  failure : String → Reply A

abbrev pub Query : Type 0 → Type 0 → Type 0
Query B A = B → B × Reply A

-- common.BackendStatsResponse, as far as the composite reads it; `rest` is all else it carries.
pub record SysStats : Type 0 where
  pub uptime : ℕ
  pub rest : List ℕ

-- common.Latency, as far as it is told apart.
pub record Latency : Type 0 where
  pub name : String
  pub delay : Int64

pub record StatRequest : Type 0 where
  pub name : String
  pub reset : Bool
  pub kind : ℕ

-- A backend with its state; every call returns the backend after it.
pub record Backend (B : Type 0) : Type 0 where
  pub started : B → Bool
  pub version : B → String
  pub restart : Action B
  pub shutdown : B → B
  pub sync_user : User → Action B
  pub sync_users : List User → Action B
  pub update_users : List User → Action B
  pub update_users_and_restart : List User → Action B
  pub get_sys_stats : Query B SysStats
  pub get_stats : StatRequest → Query B (List Stat)
  pub get_outbounds_latency : String → Query B (List Latency)
  pub get_user_online_stats : String → Query B Int64
  pub get_user_online_ip_list_stats : String → Query B (Dict Int64)
