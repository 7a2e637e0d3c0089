-- ===== src/Stats/Tracker/Accounting.antt =====
-- pkg/stats/tracker.go: over any history of calls, what the resetting reads report of a key.
mod Balance
mod Entries
pub mod Steps
use pasarguard_node.Prelude.{
  ℕ, ◌+◌, ◌^◌, ◌<◌, String, ◌≡◌, refl, Bool, true, false, List, [], ◌∷◌, ◌++◌, arith, ap,
}
use pasarguard_node.Dict
use pasarguard_node.Dict.{get-empty}
use pasarguard_node.Stats.Stat.{Stat}
use pasarguard_node.Stats.Tracker.{
  Entry, Sample, Time, Tracker, new, update_stats_batch, get_stats, get_users_stats, report_all,
  report, remove_stats, cleanup_deleted_entries,
}
use pasarguard_node.Stats.Tracker.Effects.{report_keeps}
use Balance.{Balanced-trans, Balanced, unchanged-Balanced}
pub use Balance.{IsSoundAt, pending_rx_at, pending_tx_at}
unfoldable pub use Balance.{billed}
use Steps.{
  AreSamples, grown_rx_by_all, grown_tx_by_all, apply_samples-Balanced, report_all-Balanced,
  remove_stats-Balanced, cleanup-Balanced,
}

-- A call that may change the tracker.
pub data Event : Type 0 where
  sampled : List Sample → Time → Event
  read : List String → Bool → Event
  read_all : Bool → Event
  removed : String → Event
  cleaned : Event

-- The stats of a read that does not reset are not billed.
unfoldable pub handle : Tracker → Event → Tracker × List Stat
handle t (sampled ss now) = (update_stats_batch t ss now, [])
handle t (read keys true) = get_stats t keys true
handle t (read keys false) = ((get_stats t keys false).0, [])
handle t (read_all true) = get_users_stats t true
handle t (read_all false) = ((get_users_stats t false).0, [])
handle t (removed key) = (remove_stats t key, [])
handle t cleaned = (cleanup_deleted_entries t, [])

unfoldable pub run : Tracker → List Event → Tracker × List Stat
run t [] = (t, [])
run t (ev ∷ evs) =
    let (t', stats) = handle t ev in let (t'', later) = run t' evs in (t'', stats ++ later)

grown_rx_in : String → Tracker → Event → ℕ
grown_rx_in key t (sampled ss now) = grown_rx_by_all key t ss now
grown_rx_in key t (read _ _) = 0
grown_rx_in key t (read_all _) = 0
grown_rx_in key t (removed _) = 0
grown_rx_in key t cleaned = 0

grown_tx_in : String → Tracker → Event → ℕ
grown_tx_in key t (sampled ss now) = grown_tx_by_all key t ss now
grown_tx_in key t (read _ _) = 0
grown_tx_in key t (read_all _) = 0
grown_tx_in key t (removed _) = 0
grown_tx_in key t cleaned = 0

-- The traffic that a history adds to a key, by the growth of its counters from sample to sample.
unfoldable pub grown_rx : String → Tracker → List Event → ℕ
unfolding grown_rx_in
grown_rx key t [] = 0
grown_rx key t (ev ∷ evs) = grown_rx_in key t ev + grown_rx key (handle t ev).0 evs

unfoldable pub grown_tx : String → Tracker → List Event → ℕ
unfolding grown_tx_in
grown_tx key t [] = 0
grown_tx key t (ev ∷ evs) = grown_tx_in key t ev + grown_tx key (handle t ev).0 evs

abbrev pub AreEvents : List Event → Type 0
AreEvents [] = Unit
AreEvents (sampled ss now ∷ evs) = AreSamples ss × AreEvents evs
AreEvents (_ ∷ evs) = AreEvents evs

report_all_keeps : (t : Tracker) (keys : List String) → (report_all false t keys).0 ≡ t
unfolding report_all
report_all_keeps t [] = refl
report_all_keeps t (k ∷ keys) = rw report_keeps (report_all_keeps t keys)

module _ (key : String) (t : Tracker) (h : IsSoundAt (Dict.get t key)) where
  kept : (t' : Tracker) → t' ≡ t → Balanced key t t' [] 0 0
  unfolding billed
  kept t' e = unchanged-Balanced key t t' [] h (rw e) refl refl

  handle-Balanced :
      (ev : Event)
      → AreEvents (ev ∷ [])
      → pending_rx_at (Dict.get t key) + grown_rx_in key t ev < 2 ^ 63
      → pending_tx_at (Dict.get t key) + grown_tx_in key t ev < 2 ^ 63
      → Balanced key t (handle t ev).0 (handle t ev).1 (grown_rx_in key t ev) (grown_tx_in key t ev)
  unfolding handle grown_rx_in grown_tx_in update_stats_batch get_stats get_users_stats
  handle-Balanced (sampled ss now) w room_rx room_tx =
      apply_samples-Balanced key t ss now h w.0 room_rx room_tx
  handle-Balanced (read keys true) w _ _ = report_all-Balanced key t keys h
  handle-Balanced (read keys false) w _ _ = kept _ (report_all_keeps t keys)
  handle-Balanced (read_all true) w _ _ = report_all-Balanced key t (Dict.keys t) h
  handle-Balanced (read_all false) w _ _ = kept _ (report_all_keeps t (Dict.keys t))
  handle-Balanced (removed k) w _ _ = remove_stats-Balanced key t h k
  handle-Balanced cleaned w _ _ = cleanup-Balanced key t h

AreEvents-cons :
    (ev : Event) (evs : List Event) → AreEvents (ev ∷ evs) → AreEvents (ev ∷ []) × AreEvents evs
AreEvents-cons (sampled ss now) evs w = ((w.0, tt), w.1)
AreEvents-cons (read _ _) evs w = (tt, w)
AreEvents-cons (read_all _) evs w = (tt, w)
AreEvents-cons (removed _) evs w = (tt, w)
AreEvents-cons cleaned evs w = (tt, w)

run-Balanced :
    (key : String) (t : Tracker) (evs : List Event)
    → IsSoundAt (Dict.get t key)
    → AreEvents evs
    → pending_rx_at (Dict.get t key) + grown_rx key t evs < 2 ^ 63
    → pending_tx_at (Dict.get t key) + grown_tx key t evs < 2 ^ 63
    → Balanced key t (run t evs).0 (run t evs).1 (grown_rx key t evs) (grown_tx key t evs)
unfolding run grown_rx grown_tx
run-Balanced key t [] h w room_rx room_tx = kept key t h t refl
run-Balanced key t (ev ∷ evs) h w room_rx room_tx =
    let (one, rest) = AreEvents-cons ev evs w in
    let here = handle-Balanced key t h ev one (omega arith) (omega arith) in
    Balanced-trans here (
      run-Balanced key (handle t ev).0 evs here.sound rest (omega (arith, here.rx))
        (omega (arith, here.tx)))

-- From a new tracker, after any history of polls, reads, removals and clean-ups whose traffic fits
-- in an int64, what the resetting reads reported of a key and what is pending for it make up
-- exactly what its counters grew by from sample to sample, in both directions. Growth counts none
-- for a sample in which a counter fell, nor for the one that brings a removed key back with
-- traffic pending.
pub run-accounting :
    (key : String) (evs : List Event)
    → AreEvents evs
    → grown_rx key new evs < 2 ^ 63
    → grown_tx key new evs < 2 ^ 63
    → let r = run new evs in
      (billed key "uplink" r.1 + pending_rx_at (Dict.get r.0 key) ≡ grown_rx key new evs)
      × (billed key "downlink" r.1 + pending_tx_at (Dict.get r.0 key) ≡ grown_tx key new evs)
run-accounting key evs w room_rx room_tx =
    let none_yet = get-empty {V = Entry} key in
    let b =
      run-Balanced key new evs (rw none_yet tt) w (rw none_yet (omega arith))
        (rw none_yet (omega arith)) in
    (omega (arith, b.rx, ap pending_rx_at none_yet), omega (arith, b.tx, ap pending_tx_at none_yet))
