-- ===== src/Singbox/Lifecycle.antt =====
-- backend/singbox/singbox.go: the process's life, as New, Shutdown, Restart, the watcher of each
-- process and superviseRestart interleave. A turn runs one thread through its next section under
-- s.mu, or its next wait. A process may exit at any time, so s.cancel and s.waitDone, which
-- hasten an exit and wait for it, are left out; files, users and stats are elsewhere or left out
-- too.
pub mod Channels
pub mod Halted
pub mod Single
mod Examples
use pasarguard_node.Prelude.{
  ℕ, zero, suc, Bool, true, false, not, ◌&&◌, ◌||◌, Option, none, some, List, [], ◌∷◌, ◌++◌,
  nat_beq, if◌then◌else◌,
}

-- The fields of SingBox, and of the program's channels: the next to be made, those that are closed,
-- and whether one was closed twice.
pub record Core : Type 0 where
  pub started : Bool
  pub stopping : Bool
  pub supervising : Bool
  pub push_stop : Option ℕ
  pub next : ℕ
  pub closed : List ℕ
  pub panicked : Bool

-- Who called start.
pub data Caller : Type 0 where
  created restarted supervised : Caller

-- Where a thread stands, named for what it does next: Shutdown, alone or within Restart; start and the
-- push after it; the watcher of a process; the supervisor.
pub data Thread : Type 0 where
  shuts_down : Bool → Thread
  tears_down : Bool → Thread
  makes_stop : Thread
  starts : Caller → Thread
  waits_ready : Caller → Thread
  pushes : Caller → Thread
  watches : ℕ → Thread
  closes : ℕ → Bool → Thread
  checks : Thread
  sleeps : Option ℕ → Thread
  wakes : Thread
  leaves : Thread

abbrev pub count : ℕ → List ℕ → ℕ
count n [] = 0
count n (m ∷ ms) = let rest = count n ms in if nat_beq n m then suc rest else rest

abbrev pub is_closed : List ℕ → ℕ → Bool
is_closed closed n = not (nat_beq (count n closed) 0)

-- close(c), which panics on a channel that is closed.
unfoldable pub close_channel : ℕ → Core → Core
close_channel n c = record c {
  closed = n ∷ c.closed;
  panicked = c.panicked || is_closed c.closed n;
}

unfoldable pub close_stop : Option ℕ → Core → Core
unfolding close_channel
close_stop none c = c
close_stop (some n) c = close_channel n c

-- The section of Shutdown.
unfoldable pub shutdown_section : Core → Core
unfolding close_stop
shutdown_section c = close_stop c.push_stop (record c { stopping = true; push_stop = none })

-- What follows a start that failed.
abbrev pub failed_start : Caller → List Thread
failed_start created = []
failed_start restarted = []
failed_start supervised = checks ∷ []

abbrev pub pushed : Bool → Caller → List Thread
pushed true created = []
pushed false created = shuts_down false ∷ []
pushed ok restarted = []
pushed ok supervised = leaves ∷ []

-- The section of the watcher after cmd.Wait.
unfoldable pub note_exit : ℕ → Core → Core × List Thread
note_exit done c =
    let spawn = not c.stopping && not c.supervising in
    (record c { started = false; supervising = c.supervising || spawn }, closes done spawn ∷ [])

-- The section of teardown.
unfoldable pub teardown : Core → Core
teardown c = record c { started = false }

-- The section of Restart between its Shutdown and its start.
unfoldable pub make_stop : Core → Core
make_stop c = record c { push_stop = some c.next; next = suc c.next }

-- start, to the section that follows cmd.Start, if that goes well.
unfoldable pub launch : Bool → Core → Caller → Core × List Thread
launch false c who = (c, failed_start who)
launch true c who =
    (record c { stopping = false; next = suc c.next }, waits_ready who ∷ watches c.next ∷ [])

-- waitReady and what follows on its answer.
unfoldable pub await_ready : Bool → Core → Caller → Core × List Thread
unfolding teardown
await_ready false c who = (teardown c, failed_start who)
await_ready true c who = (record c { started = true }, pushes who ∷ [])

stop_is_closed : Option ℕ → List ℕ → Bool
stop_is_closed none closed = false
stop_is_closed (some n) closed = is_closed closed n

-- One section of a thread: the fields after it, and the threads that go on. The Boolean says whether
-- what it waits for or tries goes well; for a sleeping supervisor, whether the delay is over first.
unfoldable pub resume : Bool → Core → Thread → Core × List Thread
unfolding shutdown_section note_exit close_channel stop_is_closed teardown make_stop launch
    await_ready
resume ok c (shuts_down again) = (shutdown_section c, tears_down again ∷ [])
resume ok c (tears_down again) = (teardown c, if again then makes_stop ∷ [] else [])
resume ok c makes_stop = (make_stop c, starts restarted ∷ [])
resume ok c (starts who) = launch ok c who
resume ok c (waits_ready who) = await_ready ok c who
resume ok c (pushes who) = (c, pushed ok who)
resume ok c (watches done) = note_exit done c
resume ok c (closes done spawn) = (close_channel done c, if spawn then checks ∷ [] else [])
resume ok c checks = (c, if c.stopping then leaves ∷ [] else sleeps c.push_stop ∷ [])
resume true c (sleeps stop) = (c, wakes ∷ [])
resume false c (sleeps stop) =
    (c, if stop_is_closed stop c.closed then leaves ∷ [] else sleeps stop ∷ [])
resume ok c wakes = (
  c,
  if c.stopping then leaves ∷ [] else if c.started then leaves ∷ [] else starts supervised ∷ [],
)
resume ok c leaves = (record c { supervising = false }, [])

-- A turn of the thread at an index.
unfoldable pub take_turn : ℕ → Bool → Core → List Thread → Core × List Thread
unfolding resume
take_turn i ok c [] = (c, [])
take_turn zero ok c (t ∷ ts) = let r = resume ok c t in (r.0, r.1 ++ ts)
take_turn (suc i) ok c (t ∷ ts) = let r = take_turn i ok c ts in (r.0, t ∷ r.1)

pub data Event : Type 0 where
  called_shutdown called_restart : Event
  turn : ℕ → Bool → Event

unfoldable pub step : Event → Core × List Thread → Core × List Thread
unfolding take_turn
step called_shutdown s = (s.0, shuts_down false ∷ s.1)
step called_restart s = (s.0, shuts_down true ∷ s.1)
step (turn i ok) s = take_turn i ok s.0 s.1

abbrev pub run : List Event → Core × List Thread → Core × List Thread
run [] s = s
run (e ∷ es) s = run es (step e s)

-- New, before its start.
unfoldable pub created_core : Core × List Thread
created_core = (
  record {
    started = false;
    stopping = false;
    supervising = false;
    push_stop = some 0;
    next = 1;
    closed = [];
    panicked = false;
  },
  starts created ∷ [],
)
