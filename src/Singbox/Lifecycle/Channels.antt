-- ===== src/Singbox/Lifecycle/Channels.antt =====
-- backend/singbox/singbox.go: who closes which channel. Closing one twice panics, and ends the node.
use pasarguard_node.Prelude.{
  ℕ, zero, suc, ◌+◌, ◌≤◌, ◌≡◌, refl, Bool, true, false, Option, none, some, List, [], ◌∷◌, ◌++◌,
  Option-cases, inl, inr, arith, nat_beq, if◌then◌else◌,
}
use pasarguard_node.Singbox.Lifecycle.{
  Core, Caller, created, restarted, supervised, Thread, shuts_down, tears_down, makes_stop, starts,
  waits_ready, pushes, watches, closes, checks, sleeps, wakes, leaves, count, close_channel,
  close_stop, shutdown_section, failed_start, pushed, note_exit, teardown, make_stop, launch,
  await_ready, resume, take_turn, Event, called_shutdown, called_restart, turn, step, run,
  created_core,
}

abbrev is_it : ℕ → ℕ → ℕ
is_it n m = if nat_beq n m then 1 else 0

-- 1 if the thread will close the channel.
abbrev owes : ℕ → Thread → ℕ
owes n (watches done) = is_it n done
owes n (closes done spawn) = is_it n done
owes n _ = 0

abbrev owed : ℕ → List Thread → ℕ
owed n [] = 0
owed n (t ∷ ts) = owes n t + owed n ts

abbrev is_stop : ℕ → Option ℕ → ℕ
is_stop n none = 0
is_stop n (some m) = is_it n m

-- How often the channel is closed, or is to be by Shutdown.
abbrev kept : ℕ → Core → ℕ
kept n c = is_stop n c.push_stop + count n c.closed

-- 1 for the channel that the section makes, if it makes one.
abbrev made : ℕ → Core → Core → ℕ
made n c c' = if nat_beq c'.next c.next then 0 else is_it n c.next

owed-append : (n : ℕ) (ts us : List Thread) → owed n (ts ++ us) ≡ owed n ts + owed n us
owed-append n [] us = omega arith
owed-append n (t ∷ ts) us = omega (arith, owed-append n ts us)

failed_start-owed : (n : ℕ) (who : Caller) → owed n (failed_start who) ≡ 0
failed_start-owed n created = refl
failed_start-owed n restarted = refl
failed_start-owed n supervised = refl

pushed-owed : (n : ℕ) (ok : Bool) (who : Caller) → owed n (pushed ok who) ≡ 0
pushed-owed n true created = refl
pushed-owed n false created = refl
pushed-owed n ok restarted = refl
pushed-owed n ok supervised = refl

-- The channel is new, or as often closed and to be closed as before at most.
abbrev IsOwed : ℕ → Core → Core → ℕ → ℕ → Type 0
IsOwed n c c' before after =
    (c.next ≤ c'.next) × (after + kept n c' ≤ before + kept n c + made n c c')

shutdown_section-IsOwed : (n : ℕ) (c : Core) → IsOwed n c (shutdown_section c) 0 0
unfolding shutdown_section close_stop close_channel
shutdown_section-IsOwed n c = ground arith

resume-IsOwed :
    (n : ℕ) (ok : Bool) (c : Core) (t : Thread)
    → IsOwed n c (resume ok c t).0 (owes n t) (owed n (resume ok c t).1)
unfolding resume teardown make_stop launch await_ready close_channel note_exit
resume-IsOwed n ok c (shuts_down again) = ground (arith, shutdown_section-IsOwed n c)
resume-IsOwed n ok c (tears_down true) = ground arith
resume-IsOwed n ok c (tears_down false) = ground arith
resume-IsOwed n ok c makes_stop = ground arith
resume-IsOwed n true c (starts who) = ground arith
resume-IsOwed n false c (starts who) = ground (arith, failed_start-owed n who)
resume-IsOwed n true c (waits_ready who) = ground arith
resume-IsOwed n false c (waits_ready who) = ground (arith, failed_start-owed n who)
resume-IsOwed n ok c (pushes who) = ground (arith, pushed-owed n ok who)
resume-IsOwed n ok c (watches done) = ground arith
resume-IsOwed n ok c (closes done true) = ground arith
resume-IsOwed n ok c (closes done false) = ground arith
resume-IsOwed n ok c checks = ground arith
resume-IsOwed n true c (sleeps stop) = ground arith
resume-IsOwed n false c (sleeps stop) = ground arith
resume-IsOwed n ok c wakes = ground arith
resume-IsOwed n ok c leaves = ground arith

take_turn-IsOwed :
    (n i : ℕ) (ok : Bool) (c : Core) (ts : List Thread)
    → IsOwed n c (take_turn i ok c ts).0 (owed n ts) (owed n (take_turn i ok c ts).1)
unfolding take_turn
take_turn-IsOwed n i ok c [] = ground arith
take_turn-IsOwed n zero ok c (t ∷ ts) =
    ground (arith, resume-IsOwed n ok c t, owed-append n (resume ok c t).1 ts)
take_turn-IsOwed n (suc i) ok c (t ∷ ts) = ground (arith, take_turn-IsOwed n i ok c ts)

-- A channel is closed or to be closed once at most, and not before it is made.
abbrev IsSingle : ℕ → Core × List Thread → Type 0
IsSingle n s = (owed n s.1 + kept n s.0 ≤ 1) × (s.0.next ≤ n → owed n s.1 + kept n s.0 ≡ 0)

take_turn-IsSingle :
    (n i : ℕ) (ok : Bool) (s : Core × List Thread)
    → IsSingle n s
    → IsSingle n (take_turn i ok s.0 s.1)
take_turn-IsSingle n i ok s h = ground (arith, h, take_turn-IsOwed n i ok s.0 s.1)

step-IsSingle : (n : ℕ) (e : Event) (s : Core × List Thread) → IsSingle n s → IsSingle n (step e s)
unfolding step
step-IsSingle n called_shutdown s h = ground (arith, h)
step-IsSingle n called_restart s h = ground (arith, h)
step-IsSingle n (turn i ok) s h = take_turn-IsSingle n i ok s h

shutdown_section-panicked :
    (c : Core)
    → ((n : ℕ) → kept n c ≤ 1)
    → c.panicked ≡ false
    → (shutdown_section c).panicked ≡ false
unfolding shutdown_section close_stop close_channel
shutdown_section-panicked c h p = elim (Option-cases c.push_stop) [
  | inl g ↦ ground (arith, p, g)
  | inr (m, g) ↦ ground (arith, p, g, h m)
]

resume-panicked :
    (ok : Bool) (c : Core) (t : Thread)
    → ((n : ℕ) → owes n t + kept n c ≤ 1)
    → c.panicked ≡ false
    → (resume ok c t).0.panicked ≡ false
unfolding resume teardown make_stop launch await_ready note_exit close_channel
resume-panicked ok c (shuts_down again) h p =
    shutdown_section-panicked c (λ n. omega (arith, h n)) p
resume-panicked false c (starts who) h p = p
resume-panicked true c (starts who) h p = p
resume-panicked false c (waits_ready who) h p = p
resume-panicked true c (waits_ready who) h p = p
resume-panicked ok c (closes done spawn) h p = ground (arith, p, h done)
resume-panicked true c (sleeps stop) h p = p
resume-panicked false c (sleeps stop) h p = p
resume-panicked ok c (tears_down again) h p = p
resume-panicked ok c makes_stop h p = p
resume-panicked ok c (pushes who) h p = p
resume-panicked ok c (watches done) h p = p
resume-panicked ok c checks h p = p
resume-panicked ok c wakes h p = p
resume-panicked ok c leaves h p = p

take_turn-panicked :
    (i : ℕ) (ok : Bool) (c : Core) (ts : List Thread)
    → ((n : ℕ) → owed n ts + kept n c ≤ 1)
    → c.panicked ≡ false
    → (take_turn i ok c ts).0.panicked ≡ false
unfolding take_turn
take_turn-panicked i ok c [] h p = p
take_turn-panicked zero ok c (t ∷ ts) h p = resume-panicked ok c t (λ n. omega (arith, h n)) p
take_turn-panicked (suc i) ok c (t ∷ ts) h p =
    take_turn-panicked i ok c ts (λ n. omega (arith, h n)) p

step-panicked :
    (e : Event) (s : Core × List Thread)
    → ((n : ℕ) → IsSingle n s)
    → s.0.panicked ≡ false
    → (step e s).0.panicked ≡ false
unfolding step
step-panicked called_shutdown s h p = p
step-panicked called_restart s h p = p
step-panicked (turn i ok) s h p = take_turn-panicked i ok s.0 s.1 (λ n. (h n).0) p

run-panicked_from :
    (es : List Event) (s : Core × List Thread)
    → ((n : ℕ) → IsSingle n s)
    → s.0.panicked ≡ false
    → (run es s).0.panicked ≡ false
run-panicked_from [] s h p = p
run-panicked_from (e ∷ es) s h p =
    run-panicked_from es (step e s) (λ n. step-IsSingle n e s (h n)) (step-panicked e s h p)

created_core-IsSingle : (n : ℕ) → IsSingle n created_core
unfolding created_core
created_core-IsSingle n = ground arith

created_core-panicked : created_core.0.panicked ≡ false
unfolding created_core
created_core-panicked = refl

-- However the calls of Shutdown and Restart, the exits of processes and the supervisor interleave
-- after New, no channel is closed twice.
pub run-panicked : (es : List Event) → (run es created_core).0.panicked ≡ false
run-panicked es = run-panicked_from es created_core created_core-IsSingle created_core-panicked
