-- ===== src/Singbox/Supervisor/Examples.antt =====
-- A supervisor whose second start succeeds.
use pasarguard_node.Prelude.{◌≡◌, refl, false, none, some, List, [], ◌∷◌, is_some}
use pasarguard_node.Singbox.Supervisor.{Round, supervise_restart}
use pasarguard_node.Singbox.Supervisor.Backoff.{any_decisive, supervise_restart_ends}

abbrev fails : Round
fails = record {
  stopping_first = false;
  stop_closed = false;
  stopping_then = false;
  running = false;
  start_error = some "port in use";
  push_error = none;
}

abbrev rounds : List Round
rounds = fails ∷ record fails { start_error = none } ∷ []

supervise_restart_ends_example : is_some (supervise_restart rounds).ending ≡ any_decisive rounds
supervise_restart_ends_example = supervise_restart_ends rounds

supervise_restart_waits : (supervise_restart rounds).delays ≡ 2_000_000_000 ∷ 4_000_000_000 ∷ []
unfolding supervise_restart
supervise_restart_waits = refl
