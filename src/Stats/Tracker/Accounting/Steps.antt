-- ===== src/Stats/Tracker/Accounting/Steps.antt =====
-- The balance of one key over one call.
use pasarguard_node.Prelude.{
  ℕ, ◌+◌, ◌^◌, ◌<◌, String, refl, true, List, [], ◌∷◌, arith, inl, inr, Bool-cases, ◌==◌, eq_iff,
  eq_refl, if◌then◌else◌,
}
use pasarguard_node.Dict
use pasarguard_node.Stats.Tracker.{
  Sample, Time, Tracker, entry_of, apply_sample, apply_samples, report, report_all, remove_stats,
  cleanup_deleted_entries,
}
use pasarguard_node.Stats.Tracker.Pending.{IsSample, growth_rx, growth_tx}
use pasarguard_node.Stats.Tracker.Effects.{
  get-apply_sample, get-remove_stats, get-cleanup_deleted_entries, get-report, report-eq-stats_of,
}
use pasarguard_node.Stats.Tracker.Accounting.Balance.{
  IsSoundAt, pending_rx_at, pending_tx_at, billed, Balanced, Balanced-trans, unchanged-Balanced,
}
use pasarguard_node.Stats.Tracker.Accounting.Entries.{
  settled_keeps, marked_keeps, sampled_keeps, read_keeps, billed_other,
}

-- What one sample adds to the traffic of a key.
unfoldable pub grown_rx_by : String → Tracker → Sample → ℕ
grown_rx_by key t s =
    if s.public_key == key then growth_rx (entry_of (Dict.get t key) s.email) s else 0

unfoldable pub grown_tx_by : String → Tracker → Sample → ℕ
grown_tx_by key t s =
    if s.public_key == key then growth_tx (entry_of (Dict.get t key) s.email) s else 0

module _ (key : String) (t : Tracker) (h : IsSoundAt (Dict.get t key)) where
  pub cleanup-Balanced : Balanced key t (cleanup_deleted_entries t) [] 0 0
  unfolding billed
  cleanup-Balanced = record {
    sound = rw get-cleanup_deleted_entries (settled_keeps _ h).0;
    rx = rw get-cleanup_deleted_entries (omega (arith, (settled_keeps _ h).1));
    tx = rw get-cleanup_deleted_entries (omega (arith, (settled_keeps _ h).2));
  }

  pub remove_stats-Balanced : (k : String) → Balanced key t (remove_stats t k) [] 0 0
  unfolding billed
  remove_stats-Balanced k = elim (Bool-cases (k == key)) [
    | inl e ↦ record {
      sound = rw (get-remove_stats, e) (marked_keeps _ h).0;
      rx = rw (get-remove_stats, e) (omega (arith, (marked_keeps _ h).1));
      tx = rw (get-remove_stats, e) (omega (arith, (marked_keeps _ h).2));
    }
    | inr e ↦ unchanged-Balanced _ _ _ [] h (rw (get-remove_stats, e)) refl refl
  ]

  pub apply_sample-Balanced :
      (s : Sample) (now : Time)
      → IsSample s
      → pending_rx_at (Dict.get t key) + grown_rx_by key t s < 2 ^ 63
      → pending_tx_at (Dict.get t key) + grown_tx_by key t s < 2 ^ 63
      → Balanced key t (apply_sample t s now) [] (grown_rx_by key t s) (grown_tx_by key t s)
  unfolding billed grown_rx_by grown_tx_by
  apply_sample-Balanced s now hs = elim (Bool-cases (s.public_key == key)) [
    | inl e ↦ rw e λ room_rx room_tx.
        let (sound, rx, tx) = sampled_keeps (Dict.get t key) s now h hs room_rx room_tx in
        record {
          sound = rw (get-apply_sample, e) sound;
          rx = rw (get-apply_sample, e) (omega arith);
          tx = rw (get-apply_sample, e) (omega arith);
        }
    | inr e ↦ rw e λ _ _. unchanged-Balanced _ _ _ [] h (rw (get-apply_sample, e)) refl refl
  ]

  report_self : Balanced key t (report true t key).0 (report true t key).1 0 0
  report_self =
      let (sound, rx, tx) = read_keeps key key (Dict.get t key) (eq_refl key) h in
      rw report-eq-stats_of (record {
        sound = rw (get-report, eq_refl) sound;
        rx = rw (get-report, eq_refl) (omega (arith, rx));
        tx = rw (get-report, eq_refl) (omega (arith, tx));
      })

  pub report-Balanced : (k : String) → Balanced key t (report true t k).0 (report true t k).1 0 0
  report-Balanced k = elim (Bool-cases (k == key)) [
    | inl e ↦ rw ((eq_iff k key).0 e) report_self
    | inr e ↦ rw report-eq-stats_of (
        unchanged-Balanced _ _ _ _ h (rw (get-report, e)) (billed_other k key "uplink" e _)
          (billed_other k key "downlink" e _))
  ]

-- A resetting read reports the pending traffic of each key that it visits, once.
pub report_all-Balanced :
    (key : String) (t : Tracker) (keys : List String)
    → IsSoundAt (Dict.get t key)
    → Balanced key t (report_all true t keys).0 (report_all true t keys).1 0 0
unfolding report_all billed
report_all-Balanced key t [] h = unchanged-Balanced key t t [] h refl refl refl
report_all-Balanced key t (k ∷ keys) h =
    let here = report-Balanced key t h k in
    Balanced-trans here (report_all-Balanced key (report true t k).0 keys here.sound)

-- What the samples of a poll add to the traffic of a key.
unfoldable pub grown_rx_by_all : String → Tracker → List Sample → Time → ℕ
grown_rx_by_all key t [] now = 0
grown_rx_by_all key t (s ∷ ss) now =
    grown_rx_by key t s + grown_rx_by_all key (apply_sample t s now) ss now

unfoldable pub grown_tx_by_all : String → Tracker → List Sample → Time → ℕ
grown_tx_by_all key t [] now = 0
grown_tx_by_all key t (s ∷ ss) now =
    grown_tx_by key t s + grown_tx_by_all key (apply_sample t s now) ss now

abbrev pub AreSamples : List Sample → Type 0
AreSamples [] = Unit
AreSamples (s ∷ ss) = IsSample s × AreSamples ss

pub apply_samples-Balanced :
    (key : String) (t : Tracker) (ss : List Sample) (now : Time)
    → IsSoundAt (Dict.get t key)
    → AreSamples ss
    → pending_rx_at (Dict.get t key) + grown_rx_by_all key t ss now < 2 ^ 63
    → pending_tx_at (Dict.get t key) + grown_tx_by_all key t ss now < 2 ^ 63
    → Balanced key t
        (apply_samples t ss now)
        []
        (grown_rx_by_all key t ss now)
        (grown_tx_by_all key t ss now)
unfolding apply_samples grown_rx_by_all grown_tx_by_all billed
apply_samples-Balanced key t [] now h hs room_rx room_tx =
    unchanged-Balanced key t t [] h refl refl refl
apply_samples-Balanced key t (s ∷ ss) now h hs room_rx room_tx =
    let here = apply_sample-Balanced key t h s now hs.0 (omega arith) (omega arith) in
    Balanced-trans here (
      apply_samples-Balanced key (apply_sample t s now) ss now here.sound hs.1
        (omega (arith, here.rx)) (omega (arith, here.tx)))
