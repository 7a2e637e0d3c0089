-- ===== src/Stats/Examples.antt =====
-- Tests of the statistics, and the theorems about them at concrete inputs.
use pasarguard_node.Prelude.{ℕ, ◌+◌, ◌≡◌, refl, true, false, List, [], ◌∷◌, arith}
use pasarguard_node.Dict
use pasarguard_node.Stats.Stat.{build_delta_stats}
use pasarguard_node.Stats.Tracker
use pasarguard_node.Stats.Tracker.{
  Entry, Sample, Tracker, apply_sample, entry_of, has_last_delta, rolled_back, update_stats_batch,
  get_stats, get_users_stats, remove_stats, any_active_since, endpoint_activity, apply_entry,
}
use pasarguard_node.Stats.Tracker.Accounting.{
  Event, sampled, read, read_all, removed, cleaned, run, billed, pending_rx_at, pending_tx_at,
  grown_rx, grown_tx, run-accounting, AreEvents, handle,
}
use pasarguard_node.Stats.Tracker.Accounting.Steps.{
  grown_rx_by_all, grown_tx_by_all, grown_rx_by, grown_tx_by,
}
use pasarguard_node.Int64.{add64, sub64}
use pasarguard_node.Stats.Counters
use pasarguard_node.Stats.Counters.{delta}
use pasarguard_node.Stats.Counters.Accounting
use pasarguard_node.Stats.Counters.Accounting.{Reading, read_all-accounting}

abbrev polled : ℕ → ℕ → Sample
polled rx tx = record { public_key = "k"; email = "u"; rx = rx; tx = tx; endpoint_ip = "192.0.2.1" }

abbrev active : Entry
active = record {
  email = "u";
  current_rx = 100;
  current_tx = 50;
  base_rx = 40;
  base_tx = 0;
  last_delta_rx = 0;
  last_delta_tx = 0;
  last_active_time = 7;
  endpoint_ip = "192.0.2.1";
  is_deleted = false;
}

-- Growth, removal, a return with a fresh counter, a fall of the counter, and reads between them.
abbrev history : List Event
history =
    sampled (polled 100 50 ∷ []) 1
    ∷ removed "k"
    ∷ sampled (polled 7 7 ∷ []) 2
    ∷ read_all false
    ∷ read ("k" ∷ []) true
    ∷ sampled (polled 3 9 ∷ []) 3
    ∷ sampled (polled 5 9 ∷ []) 4
    ∷ cleaned
    ∷ []

history_grows : (grown_rx "k" Tracker.new history ≡ 102) × (grown_tx "k" Tracker.new history ≡ 50)
unfolding grown_rx grown_tx grown_rx_by_all grown_tx_by_all grown_rx_by grown_tx_by handle
    update_stats_batch get_stats get_users_stats remove_stats apply_sample apply_entry entry_of
    has_last_delta rolled_back Dict.empty Dict.get Dict.put Dict.remove Dict.keys
history_grows = (refl, refl)

history_valid : AreEvents history
history_valid = omega arith

run-accounting_example :
    (billed "k" "uplink" (run Tracker.new history).1
        + pending_rx_at (Dict.get (run Tracker.new history).0 "k")
      ≡ grown_rx "k" Tracker.new history)
    × (billed "k" "downlink" (run Tracker.new history).1
          + pending_tx_at (Dict.get (run Tracker.new history).0 "k")
        ≡ grown_tx "k" Tracker.new history)
run-accounting_example =
    run-accounting "k" history history_valid (rw (history_grows.0) (omega arith))
      (rw (history_grows.1) (omega arith))

abbrev tracked : Tracker
tracked = Dict.put Dict.empty "k" active

-- The read reports both directions.
tracked_stats : (get_stats tracked ("k" ∷ []) true).1 ≡ build_delta_stats "u" "k" 60 50
unfolding get_stats build_delta_stats Dict.get Dict.put Dict.empty
tracked_stats = refl

abbrev readings : List Reading
readings =
    record { rx = 12; tx = 20; reset = true }
    ∷ record { rx = 15; tx = 20; reset = false }
    ∷ record { rx = 15; tx = 26; reset = true }
    ∷ record { rx = 19; tx = 27; reset = false }
    ∷ []

readings_rise : Accounting.IsAscending 10 20 readings
readings_rise = (
  omega arith,
  omega arith,
  refl,
  refl,
  (
    omega arith,
    omega arith,
    refl,
    refl,
    (omega arith, omega arith, refl, refl, (omega arith, omega arith, refl, refl, tt)),
  ),
)

read_all-accounting_example :
    let first = delta Counters.new 10 20 false in
    let (c, returned) = Accounting.read_all first.0 readings in
    let pending = (delta c 19 27 false).1 in
    (first.1 ≡ (0, 0))
    × (add64 returned.0 pending.0 ≡ sub64 19 10)
    × (add64 returned.1 pending.1 ≡ sub64 27 20)
read_all-accounting_example =
    read_all-accounting 10 20 false readings (omega arith) (omega arith) readings_rise
