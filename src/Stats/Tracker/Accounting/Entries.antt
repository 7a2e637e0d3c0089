-- ===== src/Stats/Tracker/Accounting/Entries.antt =====
-- What a call does to what is pending in the entry of a key that it concerns.
use pasarguard_node.Prelude.{
  ◌+◌, ◌^◌, ◌<◌, String, ◌≡◌, refl, true, false, Option, none, some, arith, ◌==◌, if◌then◌else◌,
}
use pasarguard_node.Int64.{Int64}
use pasarguard_node.Stats.Stat.{build_delta_stats}
use pasarguard_node.Stats.Tracker.{
  Entry, Sample, Time, entry_of, is_settled, mark_deleted, new_entry, apply_entry,
}
use pasarguard_node.Stats.Tracker.Pending.{
  IsSample, IsSound, pending_rx, pending_tx, growth_rx, growth_tx, new_entry-IsSound,
  mark_deleted-IsSound, pending_rx-apply_entry, pending_tx-apply_entry, apply_entry-IsSound,
}
use pasarguard_node.Stats.Tracker.Effects.{marked, unless_settled, after_read, stats_of}
use pasarguard_node.Stats.Tracker.Accounting.Balance.{
  IsSoundAt, pending_rx_at, pending_tx_at, billed,
}

pub settled_keeps :
    (o : Option Entry)
    → IsSoundAt o
    → IsSoundAt (unless_settled o)
      × (pending_rx_at (unless_settled o) ≡ pending_rx_at o)
      × (pending_tx_at (unless_settled o) ≡ pending_tx_at o)
unfolding is_settled
settled_keeps none h = (tt, refl, refl)
settled_keeps (some e) h = (ground arith, ground arith, ground arith)

pub marked_keeps :
    (o : Option Entry)
    → IsSoundAt o
    → IsSoundAt (marked o)
      × (pending_rx_at (marked o) ≡ pending_rx_at o)
      × (pending_tx_at (marked o) ≡ pending_tx_at o)
marked_keeps none h = (tt, refl, refl)
marked_keeps (some e) h =
    (mark_deleted-IsSound e h, unfold mark_deleted in refl, unfold mark_deleted in refl)

entry_of-IsSound : (o : Option Entry) (email : String) → IsSoundAt o → IsSound (entry_of o email)
unfolding entry_of
entry_of-IsSound none email h = new_entry-IsSound email
entry_of-IsSound (some e) email h = h

pub pending_rx_at-entry_of :
    (o : Option Entry) (email : String) → pending_rx (entry_of o email) ≡ pending_rx_at o
unfolding entry_of new_entry
pending_rx_at-entry_of none email = refl
pending_rx_at-entry_of (some e) email = refl

pub pending_tx_at-entry_of :
    (o : Option Entry) (email : String) → pending_tx (entry_of o email) ≡ pending_tx_at o
unfolding entry_of new_entry
pending_tx_at-entry_of none email = refl
pending_tx_at-entry_of (some e) email = refl

module _ (o : Option Entry) (s : Sample) (now : Time) (h : IsSoundAt o) (hs : IsSample s)
    (room_rx : pending_rx_at o + growth_rx (entry_of o s.email) s < 2 ^ 63)
    (room_tx : pending_tx_at o + growth_tx (entry_of o s.email) s < 2 ^ 63) where
  pub sampled_keeps :
      let e = entry_of o s.email in
      let e' = apply_entry e s now in
      IsSound e'
      × (pending_rx e' ≡ pending_rx_at o + growth_rx e s)
      × (pending_tx e' ≡ pending_tx_at o + growth_tx e s)
  sampled_keeps =
      let sound = entry_of-IsSound o s.email h in
      let rx = pending_rx_at-entry_of o s.email in
      let tx = pending_tx_at-entry_of o s.email in
      let room_rx' : pending_rx (entry_of o s.email) + growth_rx (entry_of o s.email) s < 2 ^ 63 =
        rw rx room_rx in
      let room_tx' : pending_tx (entry_of o s.email) + growth_tx (entry_of o s.email) s < 2 ^ 63 =
        rw tx room_tx in
      (
        apply_entry-IsSound _ s now sound hs room_rx' room_tx',
        rw (← rx) (pending_rx-apply_entry _ s now sound hs room_rx' room_tx'),
        rw (← tx) (pending_tx-apply_entry _ s now sound hs room_rx' room_tx'),
      )

pub billed_other :
    (k key direction : String)
    → (k == key) ≡ false
    → (o : Option Entry) → billed key direction (stats_of k o) ≡ 0
unfolding billed build_delta_stats
billed_other k key direction h none = refl
billed_other k key direction h (some e) = ground arith

billed-build_delta_stats :
    (email link key : String) (rx tx : Int64)
    → rx < 2 ^ 63
    → tx < 2 ^ 63
    → (billed key "uplink" (build_delta_stats email link rx tx) ≡ (if link == key then rx else 0))
      × (billed key "downlink" (build_delta_stats email link rx tx)
          ≡ (if link == key then tx else 0))
unfolding billed build_delta_stats
billed-build_delta_stats email link key rx tx hr ht = (ground arith, ground arith)

pub read_keeps :
    (k key : String) (o : Option Entry)
    → (k == key) ≡ true
    → IsSoundAt o
    → IsSoundAt (after_read o)
      × (billed key "uplink" (stats_of k o) + pending_rx_at (after_read o) ≡ pending_rx_at o)
      × (billed key "downlink" (stats_of k o) + pending_tx_at (after_read o) ≡ pending_tx_at o)
unfolding billed
read_keeps k key none e h = (tt, omega arith, omega arith)
read_keeps k key (some x) e h =
    let bills = billed-build_delta_stats x.email k key (pending_rx x) (pending_tx x) h.rx h.tx in
    (ground arith, ground (arith, bills), ground (arith, bills))
