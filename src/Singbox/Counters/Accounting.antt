-- ===== src/Singbox/Counters/Accounting.antt =====
-- backend/singbox/stats.go: what is taken and what is pending make up what the counters grew by.
use pasarguard_node.Prelude.{
  ℕ, ◌+◌, ◌%◌, ◌^◌, String, ◌≡◌, refl, ◌∙◌, Bool, true, false, Option, none, some, List, [], ◌∷◌,
  arith, ◌==◌, eq_iff, if◌then◌else◌, ap, Bool-cases, inl, inr,
}
use pasarguard_node.Int64.{Int64, sub64, slt}
use pasarguard_node.Dict
use pasarguard_node.Dict.{
  Dict, get-put, get-remove, get-empty, contains-keys, keys-IsNodup, IsNodup,
}
use pasarguard_node.Singbox.Counters.{
  Counter, StatsClient, new_stats_client, growth, amount, add_pending, fold, matches, take,
}
use pasarguard_node.Singbox.Counters.Taking.{take_lem}

-- What a value is over the last one: nothing at first sight, the new value if the counter fell, and
-- the difference if not, each only where it is positive.
abbrev pub risen : Option Int64 → Int64 → ℕ
risen none cur = 0
risen (some prev) cur =
    let more = if slt cur prev then cur else sub64 cur prev in if slt 0 more then more else 0

growth-risen : (last : Option Int64) (cur : Int64) → growth last cur ≡ risen last cur
unfolding growth
growth-risen none cur = refl
growth-risen (some prev) cur = elim (Bool-cases (slt cur prev)) [
  | inl fell ↦ rw fell refl
  | inr rose ↦ rw rose refl
]

-- What a list of counters adds for a name, after its last value.
pub grown_by : String → Option Int64 → List Counter → ℕ
grown_by e last [] = 0
grown_by e last (stat ∷ stats) =
    if stat.name == e
    then risen last stat.value + grown_by e (some stat.value) stats
    else grown_by e last stats

pub last_value : String → Option Int64 → List Counter → Option Int64
last_value e last [] = last
last_value e last (stat ∷ stats) =
    last_value e (if stat.name == e then some stat.value else last) stats

amount-add_pending :
    (pending : Dict Int64) (name : String) (d : Int64) (e : String)
    → amount (Dict.get (add_pending pending name d) e) % 2 ^ 64
      ≡ (amount (Dict.get pending e) + (if name == e then d else 0)) % 2 ^ 64
unfolding add_pending amount
amount-add_pending pending name d e = grind (arith, get-put, eq_iff name e)

amount-fold :
    (stats : List Counter) (s : StatsClient) (e : String)
    → amount (Dict.get (fold stats s).pending e) % 2 ^ 64
      ≡ (amount (Dict.get s.pending e) + grown_by e (Dict.get s.baseline e) stats) % 2 ^ 64
unfolding fold grown_by
amount-fold [] s e = ground arith
amount-fold (stat ∷ stats) s e =
    let d = growth (Dict.get s.baseline stat.name) stat.value in
    let s' : StatsClient = record {
      pending = add_pending s.pending stat.name d;
      baseline = Dict.put s.baseline stat.name stat.value;
    } in
    ground (
      arith,
      amount-fold stats s' e,
      amount-add_pending s.pending stat.name d e,
      get-put s.baseline stat.name e stat.value,
      eq_iff stat.name e,
      growth-risen (Dict.get s.baseline stat.name) stat.value,
    )

baseline-fold :
    (stats : List Counter) (s : StatsClient) (e : String)
    → Dict.get (fold stats s).baseline e ≡ last_value e (Dict.get s.baseline e) stats
unfolding fold last_value
baseline-fold [] s e = refl
baseline-fold (stat ∷ stats) s e =
    let d = growth (Dict.get s.baseline stat.name) stat.value in
    baseline-fold stats
      (record {
        pending = add_pending s.pending stat.name d;
        baseline = Dict.put s.baseline stat.name stat.value;
      })
      e
    ∙ ap (λ v. last_value e v stats) (get-put s.baseline stat.name e stat.value)

-- A poll that reads sing-box's counters, or a reader that takes some of what is pending.
pub data Event : Type 0 where
  folded : List Counter → Event
  taken : String → Bool → Event

-- What the counter of a name grows by over the polls, after its last value.
pub grown_all : String → Option Int64 → List Event → ℕ
grown_all e last [] = 0
grown_all e last (folded stats ∷ evs) =
    grown_by e last stats + grown_all e (last_value e last stats) evs
grown_all e last (taken prefix consume ∷ evs) = grown_all e last evs

module _ (has_prefix : String → String → Bool) where
  pub step : StatsClient → Event → StatsClient
  step s (folded stats) = fold stats s
  step s (taken prefix consume) = (take has_prefix prefix consume s).1

  -- What a consuming reader gets of a name.
  pub billed : String → StatsClient → Event → ℕ
  billed e s (folded stats) = 0
  billed e s (taken prefix consume) =
      if consume then amount (Dict.get (take has_prefix prefix consume s).0 e) else 0

  pub run : StatsClient → List Event → StatsClient
  run s [] = s
  run s (ev ∷ evs) = run (step s ev) evs

  pub billed_all : String → StatsClient → List Event → ℕ
  billed_all e s [] = 0
  billed_all e s (ev ∷ evs) = billed e s ev + billed_all e (step s ev) evs

  amount_under_test :
      (b : Bool) (v : Option Int64) → amount (if b then v else none) ≡ (if b then amount v else 0)
  unfolding amount
  amount_under_test true v = refl
  amount_under_test false v = refl

  taken_balance :
      (prefix : String) (consume : Bool) (s : StatsClient) (e : String)
      → billed e s (taken prefix consume)
          + amount (Dict.get (step s (taken prefix consume)).pending e)
        ≡ amount (Dict.get s.pending e)
  unfolding billed step amount
  taken_balance prefix true s e =
      let (a, b, _) = take_lem has_prefix prefix true s e in
      ground (
        arith,
        ap amount a,
        ap amount b,
        amount_under_test (matches has_prefix prefix e) (Dict.get s.pending e),
      )
  taken_balance prefix false s e =
      let (a, b, _) = take_lem has_prefix prefix false s e in ground (arith, ap amount b)

  step_balance :
      (s : StatsClient) (ev : Event) (e : String)
      → (billed e s ev + amount (Dict.get (step s ev).pending e)) % 2 ^ 64
        ≡ (amount (Dict.get s.pending e) + grown_all e (Dict.get s.baseline e) (ev ∷ [])) % 2 ^ 64
  unfolding billed step grown_all
  step_balance s (folded stats) e = omega (arith, amount-fold stats s e)
  step_balance s (taken prefix consume) e = omega (arith, taken_balance prefix consume s e)

  run_balance :
      (s : StatsClient) (evs : List Event) (e : String)
      → (billed_all e s evs + amount (Dict.get (run s evs).pending e)) % 2 ^ 64
        ≡ (amount (Dict.get s.pending e) + grown_all e (Dict.get s.baseline e) evs) % 2 ^ 64
  unfolding billed_all run grown_all step
  run_balance s [] e = omega arith
  run_balance s (folded stats ∷ evs) e = ground (
    arith,
    step_balance s (folded stats) e,
    run_balance (step s (folded stats)) evs e,
    baseline-fold stats s e,
  )
  run_balance s (taken prefix consume ∷ evs) e =
      let (_, _, kept) = take_lem has_prefix prefix consume s e in
      ground (
        arith,
        step_balance s (taken prefix consume) e,
        run_balance (step s (taken prefix consume)) evs e,
        ap (λ (b : Dict Int64). Dict.get b e) kept,
      )

  -- Over any polls and takes from a new client on, what the consuming takes get of a counter and
  -- what is still pending for it add up to what the counter grew by, as sums of 64 bits: nothing at
  -- first sight, all of a value below the last, and else the difference, where it is positive.
  pub run-new_stats_client :
      (evs : List Event) (e : String)
      → (billed_all e new_stats_client evs + amount (Dict.get (run new_stats_client evs).pending e))
          % 2 ^ 64
        ≡ grown_all e none evs % 2 ^ 64
  unfolding new_stats_client amount
  run-new_stats_client evs e =
      ground (arith, run_balance new_stats_client evs e, get-empty {V = Int64} e)
