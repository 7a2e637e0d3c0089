-- ===== src/Singbox/Lifecycle/Single.antt =====
-- backend/singbox/singbox.go: how many supervisors there are at a time.
use pasarguard_node.Prelude.{
  ℕ, zero, suc, ◌+◌, ◌≤◌, ◌≡◌, refl, Bool, true, false, List, [], ◌∷◌, ◌++◌, arith,
}
use pasarguard_node.Singbox.Lifecycle.{
  Core, Caller, created, restarted, supervised, Thread, shuts_down, tears_down, makes_stop, starts,
  waits_ready, pushes, watches, closes, checks, sleeps, wakes, leaves, close_channel, close_stop,
  shutdown_section, failed_start, pushed, note_exit, teardown, make_stop, launch, await_ready,
  resume, take_turn, Event, called_shutdown, called_restart, turn, step, run, created_core,
}

abbrev bit : Bool → ℕ
bit true = 1
bit false = 0

abbrev is_supervised : Caller → ℕ
is_supervised supervised = 1
is_supervised _ = 0

-- 1 for a supervisor, and for a watcher that is about to start one.
abbrev weight : Thread → ℕ
weight (starts who) = is_supervised who
weight (waits_ready who) = is_supervised who
weight (pushes who) = is_supervised who
weight (closes done spawn) = bit spawn
weight checks = 1
weight (sleeps stop) = 1
weight wakes = 1
weight leaves = 1
weight _ = 0

abbrev pub supervisors : List Thread → ℕ
supervisors [] = 0
supervisors (t ∷ ts) = weight t + supervisors ts

supervisors-append :
    (ts us : List Thread) → supervisors (ts ++ us) ≡ supervisors ts + supervisors us
supervisors-append [] us = omega arith
supervisors-append (t ∷ ts) us = omega (arith, supervisors-append ts us)

failed_start-supervisors : (who : Caller) → supervisors (failed_start who) ≡ is_supervised who
failed_start-supervisors created = refl
failed_start-supervisors restarted = refl
failed_start-supervisors supervised = refl

pushed-supervisors : (ok : Bool) (who : Caller) → supervisors (pushed ok who) ≡ is_supervised who
pushed-supervisors true created = refl
pushed-supervisors false created = refl
pushed-supervisors ok restarted = refl
pushed-supervisors ok supervised = refl

shutdown_section-supervising : (c : Core) → (shutdown_section c).supervising ≡ c.supervising
unfolding shutdown_section close_stop close_channel
shutdown_section-supervising c = ground arith

note_exit-supervisors :
    (done : ℕ) (c : Core)
    → supervisors (note_exit done c).1 + bit c.supervising ≡ bit (note_exit done c).0.supervising
unfolding note_exit
note_exit-supervisors done c = ground arith

-- A section changes the number of supervisors as it changes the flag.
resume-supervisors :
    (ok : Bool) (c : Core) (t : Thread)
    → weight t ≤ bit c.supervising
    → supervisors (resume ok c t).1 + bit c.supervising
      ≡ weight t + bit (resume ok c t).0.supervising
unfolding resume teardown make_stop launch await_ready close_channel
resume-supervisors ok c (shuts_down again) h = ground (arith, shutdown_section-supervising c)
resume-supervisors ok c (tears_down true) h = ground arith
resume-supervisors ok c (tears_down false) h = ground arith
resume-supervisors ok c makes_stop h = ground arith
resume-supervisors true c (starts who) h = omega arith
resume-supervisors false c (starts who) h = omega (arith, failed_start-supervisors who)
resume-supervisors true c (waits_ready who) h = omega arith
resume-supervisors false c (waits_ready who) h = omega (arith, failed_start-supervisors who)
resume-supervisors ok c (pushes who) h = omega (arith, pushed-supervisors ok who)
resume-supervisors ok c (watches done) h = omega (arith, note_exit-supervisors done c)
resume-supervisors ok c (closes done true) h = omega arith
resume-supervisors ok c (closes done false) h = omega arith
resume-supervisors ok c checks h = ground arith
resume-supervisors true c (sleeps stop) h = omega arith
resume-supervisors false c (sleeps stop) h = ground arith
resume-supervisors ok c wakes h = ground arith
resume-supervisors ok c leaves h = ground arith

take_turn-supervisors :
    (i : ℕ) (ok : Bool) (c : Core) (ts : List Thread)
    → supervisors ts ≤ bit c.supervising
    → supervisors (take_turn i ok c ts).1 + bit c.supervising
      ≡ supervisors ts + bit (take_turn i ok c ts).0.supervising
unfolding take_turn
take_turn-supervisors i ok c [] h = refl
take_turn-supervisors zero ok c (t ∷ ts) h =
    omega
      (arith, h, resume-supervisors ok c t (omega arith), supervisors-append (resume ok c t).1 ts)
take_turn-supervisors (suc i) ok c (t ∷ ts) h =
    omega (arith, take_turn-supervisors i ok c ts (omega arith))

-- As many supervisors as the flag says.
abbrev pub IsCounted : Core × List Thread → Type 0
IsCounted s = supervisors s.1 ≡ bit s.0.supervising

step-IsCounted : (e : Event) (s : Core × List Thread) → IsCounted s → IsCounted (step e s)
unfolding step
step-IsCounted called_shutdown s h = omega (arith, h)
step-IsCounted called_restart s h = omega (arith, h)
step-IsCounted (turn i ok) s h =
    omega (arith, h, take_turn-supervisors i ok s.0 s.1 (omega (arith, h)))

run-IsCounted : (es : List Event) (s : Core × List Thread) → IsCounted s → IsCounted (run es s)
run-IsCounted [] s h = h
run-IsCounted (e ∷ es) s h = run-IsCounted es (step e s) (step-IsCounted e s h)

created_core-IsCounted : IsCounted created_core
unfolding created_core
created_core-IsCounted = refl

-- However the calls of Shutdown and Restart, the exits of processes and the supervisor interleave
-- after New, `supervising` says whether there is a supervisor, and there are never two.
pub run-supervisors : (es : List Event) → IsCounted (run es created_core)
run-supervisors es = run-IsCounted es created_core created_core-IsCounted
