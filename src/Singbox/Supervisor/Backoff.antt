-- ===== src/Singbox/Supervisor/Backoff.antt =====
-- backend/singbox/singbox.go: that superviseRestart ends, and how long it waits.
use pasarguard_node.Prelude.{
  ℕ, ◌*◌, ◌≤◌, ◌≡◌, refl, subst, Bool, false, not, ◌||◌, List, [], ◌∷◌, arith, ltb, if◌then◌else◌,
  is_some, inl, inr, Bool-cases, Option-cases,
}
use pasarguard_node.Singbox.Supervisor.{
  restart_backoff_min, restart_backoff_max, Round, next_delay, supervise, supervise_restart,
}

-- Something in the round ends the loop: it is told to stop, the core runs, or it starts.
abbrev pub is_decisive : Round → Bool
is_decisive r =
    r.stopping_first || r.stop_closed || r.stopping_then || r.running || not (is_some r.start_error)

abbrev pub any_decisive : List Round → Bool
any_decisive [] = false
any_decisive (r ∷ rounds) = is_decisive r || any_decisive rounds

-- Each delay is twice the one before, or the longest.
abbrev pub AreDelays : ℕ → List ℕ → Type 0
AreDelays delay [] = Unit
AreDelays delay (d ∷ ds) =
    (d ≡ delay)
    × (restart_backoff_min ≤ d)
    × (d ≤ restart_backoff_max)
    × AreDelays (if ltb (delay * 2) restart_backoff_max then delay * 2 else restart_backoff_max) ds

next_delay-bounds :
    (delay : ℕ)
    → restart_backoff_min ≤ delay
    → delay ≤ restart_backoff_max
    → (restart_backoff_min ≤ next_delay delay)
      × (next_delay delay ≤ restart_backoff_max)
      × (next_delay delay
          ≡ (if ltb (delay * 2) restart_backoff_max then delay * 2 else restart_backoff_max))
unfolding next_delay
next_delay-bounds delay h k = ground arith

supervise_ends :
    (rounds : List Round) (delay : ℕ)
    → is_some (supervise delay rounds).ending ≡ any_decisive rounds
unfolding supervise
supervise_ends [] delay = refl
supervise_ends (r ∷ rounds) delay = ground (arith, supervise_ends rounds (next_delay delay))

supervise-delays :
    (rounds : List Round) (delay : ℕ)
    → restart_backoff_min ≤ delay
    → delay ≤ restart_backoff_max
    → AreDelays delay (supervise delay rounds).delays
unfolding supervise
supervise-delays [] delay h k = tt
supervise-delays (r ∷ rounds) delay h k =
    let next = next_delay-bounds delay h k in
    let rest : AreDelays (next_delay delay) (supervise (next_delay delay) rounds).delays =
      supervise-delays rounds (next_delay delay) next.0 next.1 in
    let after = subst (λ d. AreDelays d (supervise (next_delay delay) rounds).delays) next.2 rest in
    elim (Bool-cases r.stopping_first) [
      | inl e ↦ rw e tt
      | inr e ↦ elim (Bool-cases r.stop_closed) [
        | inl f ↦ rw (e, f) tt
        | inr f ↦ elim (Bool-cases r.stopping_then) [
          | inl g ↦ rw (e, f, g) (refl, h, k, tt)
          | inr g ↦ elim (Bool-cases r.running) [
            | inl j ↦ rw (e, f, g, j) (refl, h, k, tt)
            | inr j ↦ elim (Option-cases r.start_error) [
              | inl n ↦ rw (e, f, g, j, n) (refl, h, k, tt)
              | inr (m, n) ↦ rw (e, f, g, j, n) (refl, h, k, after)
            ]
          ]
        ]
      ]
    ]

-- superviseRestart ends in the first round in which it is told to stop, finds the core running, or
-- starts it, and in no other.
pub supervise_restart_ends :
    (rounds : List Round) → is_some (supervise_restart rounds).ending ≡ any_decisive rounds
unfolding supervise_restart
supervise_restart_ends rounds = supervise_ends rounds restart_backoff_min

-- superviseRestart waits for two seconds first, and after each start that fails for twice as long as
-- before, but never more than a minute.
pub supervise_restart-AreDelays :
    (rounds : List Round) → AreDelays restart_backoff_min (supervise_restart rounds).delays
unfolding supervise_restart
supervise_restart-AreDelays rounds =
    supervise-delays rounds restart_backoff_min (omega arith) (omega arith)
