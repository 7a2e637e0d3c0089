-- ===== src/Singbox/Lifecycle/Halted.antt =====
-- backend/singbox/singbox.go: whether a core that was shut down stays down, and whether one that died
-- comes back.
use pasarguard_node.Prelude.{
  ℕ, zero, suc, ◌≡◌, refl, ◌∙◌, Bool, true, false, not, List, [], ◌∷◌, ◌++◌, arith,
}
use pasarguard_node.Singbox.Lifecycle.{
  Core, Caller, created, restarted, supervised, Thread, shuts_down, tears_down, makes_stop, starts,
  waits_ready, pushes, watches, closes, checks, sleeps, wakes, leaves, close_channel, close_stop,
  shutdown_section, pushed, note_exit, teardown, make_stop, launch, await_ready, resume, take_turn,
  Event, called_shutdown, called_restart, turn, step, run,
}

-- The thread is not within start, nor within Restart before it.
abbrev pub is_idle : Thread → Bool
is_idle (shuts_down again) = not again
is_idle (tears_down again) = not again
is_idle makes_stop = false
is_idle (starts who) = false
is_idle (waits_ready who) = false
is_idle _ = true

abbrev pub AllIdle : List Thread → Type 0
AllIdle [] = Unit
AllIdle (t ∷ ts) = (is_idle t ≡ true) × AllIdle ts

-- The core was told to stop, does not run, and nobody is starting it.
abbrev pub IsHalted : Core × List Thread → Type 0
IsHalted s = (s.0.stopping ≡ true) × (s.0.started ≡ false) × AllIdle s.1

abbrev pub no_restart : List Event → Bool
no_restart [] = true
no_restart (called_restart ∷ es) = false
no_restart (_ ∷ es) = no_restart es

AllIdle-append : (ts us : List Thread) → AllIdle ts → AllIdle us → AllIdle (ts ++ us)
AllIdle-append [] us h k = k
AllIdle-append (t ∷ ts) us h k = (h.0, AllIdle-append ts us h.1 k)

shutdown_section-stopped :
    (c : Core) → ((shutdown_section c).stopping ≡ true) × ((shutdown_section c).started ≡ c.started)
unfolding shutdown_section close_stop close_channel
shutdown_section-stopped c = ground arith

pushed-AllIdle : (ok : Bool) (who : Caller) → AllIdle (pushed ok who)
pushed-AllIdle true created = tt
pushed-AllIdle false created = (refl, tt)
pushed-AllIdle ok restarted = tt
pushed-AllIdle ok supervised = (refl, tt)

resume-IsHalted :
    (ok : Bool) (c : Core) (t : Thread)
    → c.stopping ≡ true
    → c.started ≡ false
    → is_idle t ≡ true
    → IsHalted (resume ok c t)
unfolding resume teardown make_stop launch await_ready note_exit close_channel
resume-IsHalted ok c (shuts_down false) p r i =
    let (stops, same) = shutdown_section-stopped c in (stops, same ∙ r, (refl, tt))
resume-IsHalted ok c (tears_down false) p r i = (p, refl, tt)
resume-IsHalted ok c (pushes who) p r i = (p, r, pushed-AllIdle ok who)
resume-IsHalted ok c (watches done) p r i = (p, refl, (refl, tt))
resume-IsHalted ok c (closes done true) p r i = (p, r, (refl, tt))
resume-IsHalted ok c (closes done false) p r i = (p, r, tt)
resume-IsHalted ok c checks p r i = rw p (refl, r, (refl, tt))
resume-IsHalted true c (sleeps stop) p r i = (p, r, (refl, tt))
resume-IsHalted false c (sleeps stop) p r i = ground (arith, p, r)
resume-IsHalted ok c wakes p r i = rw p (refl, r, (refl, tt))
resume-IsHalted ok c leaves p r i = (p, r, tt)
resume-IsHalted ok c (shuts_down true) p r i = cc
resume-IsHalted ok c (tears_down true) p r i = cc
resume-IsHalted ok c makes_stop p r i = cc
resume-IsHalted ok c (starts who) p r i = cc
resume-IsHalted ok c (waits_ready who) p r i = cc

take_turn-IsHalted :
    (i : ℕ) (ok : Bool) (c : Core) (ts : List Thread)
    → IsHalted (c, ts)
    → IsHalted (take_turn i ok c ts)
unfolding take_turn
take_turn-IsHalted i ok c [] h = h
take_turn-IsHalted zero ok c (t ∷ ts) (stops, rests, (idle, idles)) =
    let r = resume-IsHalted ok c t stops rests idle in
    (r.0, r.1, AllIdle-append (resume ok c t).1 ts r.2 idles)
take_turn-IsHalted (suc i) ok c (t ∷ ts) (stops, rests, (idle, idles)) =
    let r = take_turn-IsHalted i ok c ts (stops, rests, idles) in (r.0, r.1, (idle, r.2))

run-IsHalted :
    (es : List Event) (s : Core × List Thread)
    → no_restart es ≡ true
    → IsHalted s
    → IsHalted (run es s)
unfolding step
run-IsHalted [] s n h = h
run-IsHalted (called_shutdown ∷ es) s n h =
    run-IsHalted es (s.0, shuts_down false ∷ s.1) n (h.0, h.1, (refl, h.2))
run-IsHalted (called_restart ∷ es) s n h = cc
run-IsHalted (turn i ok ∷ es) s n h =
    run-IsHalted es (take_turn i ok s.0 s.1) n (take_turn-IsHalted i ok s.0 s.1 h)

-- A call of Shutdown, from beginning to end.
abbrev pub whole_shutdown : List Event
whole_shutdown = called_shutdown ∷ turn 0 true ∷ turn 0 true ∷ []

whole_shutdown-IsHalted : (s : Core × List Thread) → AllIdle s.1 → IsHalted (run whole_shutdown s)
unfolding step take_turn resume teardown make_stop launch await_ready
whole_shutdown-IsHalted s h = ((shutdown_section-stopped s.0).0, refl, h)

-- After a Shutdown that meets no start under way, the core does not run, and nobody starts it, until
-- Restart is called, whatever the other threads do.
pub run-whole_shutdown :
    (s : Core × List Thread) (es : List Event)
    → AllIdle s.1
    → no_restart es ≡ true
    → IsHalted (run es (run whole_shutdown s))
run-whole_shutdown s es h n = run-IsHalted es (run whole_shutdown s) n (whole_shutdown-IsHalted s h)

-- A start that has not reached its first section when a whole Shutdown runs takes back the order to
-- stop: if its next two turns follow at once and go well, the core runs.
whole_shutdown_undone :
    (c : Core) (who : Caller) (ts : List Thread)
    → let later = run (turn 0 true ∷ turn 0 true ∷ []) (run whole_shutdown (c, starts who ∷ ts)) in
      (later.0.started ≡ true) × (later.0.stopping ≡ false)
unfolding step take_turn resume teardown make_stop launch await_ready
whole_shutdown_undone c who ts = (refl, refl)

-- If the process exits while the supervisor is about to leave, and the watcher and the supervisor
-- then take their turns one after the other, the core does not run, was not told to stop, and has no
-- supervisor.
exit_unsupervised :
    (c : Core) (done : ℕ) (ts : List Thread)
    → c.supervising ≡ true
    → c.stopping ≡ false
    → let later =
        run (turn 1 true ∷ turn 0 true ∷ turn 0 true ∷ []) (c, leaves ∷ watches done ∷ ts) in
      (later.0.started ≡ false)
      × (later.0.stopping ≡ false)
      × (later.0.supervising ≡ false)
      × (later.1 ≡ ts)
unfolding step take_turn resume teardown make_stop launch await_ready note_exit close_channel
exit_unsupervised c done ts s p = rw (s, p) (refl, refl, refl, refl)
