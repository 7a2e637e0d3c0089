-- ===== src/Singbox/Lifecycle/Examples.antt =====
-- Tests of the process's life, and the theorems about it at concrete histories.
use pasarguard_node.Prelude.{◌≡◌, refl, true, false, some, List, [], ◌∷◌}
use pasarguard_node.Singbox.Lifecycle.{
  Core, restarted, Thread, pushes, watches, closes, checks, close_channel, close_stop,
  shutdown_section, note_exit, teardown, make_stop, launch, await_ready, resume, take_turn, Event,
  called_restart, turn, step, run, created_core,
}
use pasarguard_node.Singbox.Lifecycle.Single.{IsCounted, run-supervisors}
use pasarguard_node.Singbox.Lifecycle.Channels.{run-panicked}
use pasarguard_node.Singbox.Lifecycle.Halted.{IsHalted, whole_shutdown, run-whole_shutdown}

-- A core that comes up, and whose process exits.
abbrev dies : List Event
dies = turn 0 true ∷ turn 0 true ∷ turn 0 true ∷ turn 0 true ∷ turn 0 true ∷ []

dies_supervised : (run dies created_core).1 ≡ checks ∷ []
unfolding step take_turn resume teardown make_stop launch await_ready note_exit close_channel
    created_core
dies_supervised = refl

-- The panel restarts a core while it dies.
abbrev meets_restart : List Event
meets_restart =
    turn 0 true
    ∷ called_restart
    ∷ turn 2 true
    ∷ turn 0 true
    ∷ turn 2 true
    ∷ turn 0 true
    ∷ turn 0 true
    ∷ turn 0 true
    ∷ []

run-supervisors_example : IsCounted (run meets_restart created_core)
run-supervisors_example = run-supervisors meets_restart

run-panicked_example : (run meets_restart created_core).0.panicked ≡ false
run-panicked_example = run-panicked meets_restart

abbrev up : Core × List Thread
up = (
  record {
    started = true;
    stopping = false;
    supervising = false;
    push_stop = some 0;
    next = 2;
    closed = [];
    panicked = false;
  },
  watches 1 ∷ [],
)

abbrev exits : List Event
exits = turn 0 true ∷ turn 0 true ∷ turn 0 false ∷ []

run-whole_shutdown_example : IsHalted (run exits (run whole_shutdown up))
run-whole_shutdown_example = run-whole_shutdown up exits (refl, tt) refl

-- The process that Restart stopped exits after the one that Restart started came up.
abbrev outlives : List Event
outlives =
    called_restart
    ∷ turn 0 true
    ∷ turn 0 true
    ∷ turn 0 true
    ∷ turn 0 true
    ∷ turn 0 true
    ∷ turn 2 true
    ∷ []

outlived :
    let later = run outlives up in
    (later.0.started ≡ false)
    × (later.0.supervising ≡ true)
    × (later.1 ≡ pushes restarted ∷ watches 3 ∷ closes 1 true ∷ [])
unfolding step take_turn resume teardown make_stop launch await_ready note_exit close_channel
    shutdown_section close_stop
outlived = (refl, refl, refl)
