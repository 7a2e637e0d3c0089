-- ===== src/Backend/Examples.antt =====
-- Tests of the composite, and the theorems about it at concrete inputs.
use pasarguard_node.Prelude.{ℕ, ◌≡◌, true, none, some, List, [], ◌∷◌, nat_beq, if◌then◌else◌}
use pasarguard_node.Dict
use pasarguard_node.User.{User}
use pasarguard_node.Backend.{Action, Backend, answer, failure, StatRequest}
use pasarguard_node.Backend.Composite.{
  restart, sync_user, sync_users, update_users, update_users_and_restart,
}
use pasarguard_node.Backend.Composite.Fanout.{everyone, user_calls_reach_everyone}

-- A core that counts its calls; core 0 refuses each.
abbrev called : Action ℕ
called b = if nat_beq b 0 then (b, some "down") else (b, none)

abbrev core : Backend ℕ
core = record {
  started = λ b. true;
  version = λ b. "1";
  restart = called;
  shutdown = λ b. 0;
  sync_user = λ user. called;
  sync_users = λ users. called;
  update_users = λ users. called;
  update_users_and_restart = λ users. called;
  get_sys_stats = λ b.
      (b, if nat_beq b 0 then failure "down" else answer (some (record { uptime = b; rest = [] })));
  get_stats = λ request b. (b, if nat_beq b 0 then failure "down" else answer (some []));
  get_outbounds_latency = λ name b. (b, answer none);
  get_user_online_stats = λ email b. (b, if nat_beq b 0 then failure "down" else answer (some b));
  get_user_online_ip_list_stats = λ email b. (b, answer (some Dict.empty));
}

abbrev alice : User
alice = record { email = "alice"; proxies = none; inbounds = [] }

abbrev cores : List ℕ
cores = 3 ∷ 0 ∷ 5 ∷ []

abbrev request : StatRequest
request = record { name = ""; reset = true; kind = 4 }

user_calls_reach_everyone_example :
    (restart core cores ≡ everyone core.restart cores)
    × (sync_user core alice cores ≡ everyone (core.sync_user alice) cores)
    × (sync_users core (alice ∷ []) cores ≡ everyone (core.sync_users (alice ∷ [])) cores)
    × (update_users core (alice ∷ []) cores ≡ everyone (core.update_users (alice ∷ [])) cores)
    × (update_users_and_restart core (alice ∷ []) cores
        ≡ everyone (core.update_users_and_restart (alice ∷ [])) cores)
user_calls_reach_everyone_example = user_calls_reach_everyone core alice (alice ∷ []) cores
