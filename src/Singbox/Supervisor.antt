-- ===== src/Singbox/Supervisor.antt =====
-- backend/singbox/singbox.go: superviseRestart, which brings the core back after it exits on its own.
-- What the other goroutines and the process do meanwhile is an argument: a list of rounds.
pub mod Backoff
mod Examples
use pasarguard_node.Prelude.{
  ℕ, ◌+◌, ◌*◌, String, Bool, true, false, Option, none, some, List, [], ◌∷◌, ◌++◌, ltb,
  if◌then◌else◌,
}

-- Two seconds and a minute, in nanoseconds.
abbrev pub restart_backoff_min : ℕ
restart_backoff_min = 2_000_000_000

abbrev pub restart_backoff_max : ℕ
restart_backoff_max = 60_000_000_000

-- What one round of the loop meets: s.stopping when it begins, whether pushStop is closed before the
-- delay is over, s.stopping and s.started after the delay, and what start and pushUsers end with.
pub record Round : Type 0 where
  pub stopping_first : Bool
  pub stop_closed : Bool
  pub stopping_then : Bool
  pub running : Bool
  pub start_error : Option String
  pub push_error : Option String

-- How the loop ends: told to stop, with a core that runs already, or with a core that it started.
pub data Ending : Type 0 where
  told_to_stop : Ending
  runs_already : Ending
  brought_back : Option String → Ending

-- The delays that were waited for, how often start was called, and the ending, or none if the loop
-- is still under way after the rounds.
pub record Watch : Type 0 where
  pub delays : List ℕ
  pub starts : ℕ
  pub ending : Option Ending

unfoldable pub next_delay : ℕ → ℕ
next_delay delay =
    if ltb delay restart_backoff_max
    then (if ltb restart_backoff_max (delay * 2) then restart_backoff_max else delay * 2)
    else delay

abbrev ended : List ℕ → ℕ → Ending → Watch
ended delays starts e = record { delays = delays; starts = starts; ending = some e }

-- The loop, from a delay on.
unfoldable pub supervise : ℕ → List Round → Watch
unfolding next_delay
supervise delay [] = record { delays = []; starts = 0; ending = none }
supervise delay (r ∷ rounds) =
    let rest = supervise (next_delay delay) rounds in
    if r.stopping_first
    then ended [] 0 told_to_stop
    else if r.stop_closed
    then ended [] 0 told_to_stop
    else if r.stopping_then
    then ended (delay ∷ []) 0 told_to_stop
    else if r.running
    then ended (delay ∷ []) 0 runs_already
    else elim r.start_error [
      | some e ↦ record rest { delays = delay ∷ rest.delays; starts = 1 + rest.starts }
      | none ↦ ended (delay ∷ []) 1 (brought_back r.push_error)
    ]

-- superviseRestart
unfoldable pub supervise_restart : List Round → Watch
unfolding supervise
supervise_restart rounds = supervise restart_backoff_min rounds
