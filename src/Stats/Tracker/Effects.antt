-- ===== src/Stats/Tracker/Effects.antt =====
-- pkg/stats/tracker.go: what each method does to the entry of each key.
use pasarguard_node.Prelude.{
  String, ◌≡◌, refl, Bool, true, false, Option, none, some, List, [], ◌∷◌, arith, ◌==◌, eq_iff,
  if◌then◌else◌, contains,
}
use pasarguard_node.Dict
use pasarguard_node.Dict.{get-put, get-remove, contains-keys}
use pasarguard_node.Stats.Tracker.{
  Entry, Sample, Time, Tracker, apply_entry, entry_of, mark_deleted, is_settled, apply_sample,
  remove_stats, cleanup_key, cleanup_loop, cleanup_deleted_entries, report,
}
use pasarguard_node.Stats.Stat.{Stat, build_delta_stats}
use pasarguard_node.Int64.{sub64}

pub get-apply_sample :
    (t : Tracker) (s : Sample) (now : Time) (j : String)
    → Dict.get (apply_sample t s now) j ≡ (
        if s.public_key == j
        then some (apply_entry (entry_of (Dict.get t j) s.email) s now)
        else Dict.get t j)
unfolding apply_sample
get-apply_sample t s now j = grind (arith, eq_iff, get-put)

abbrev pub marked : Option Entry → Option Entry
marked none = none
marked (some e) = some (mark_deleted e)

pub get-remove_stats :
    (t : Tracker) (k j : String)
    → Dict.get (remove_stats t k) j ≡ (if k == j then marked (Dict.get t j) else Dict.get t j)
unfolding remove_stats
get-remove_stats t k j = grind (arith, eq_iff, get-put)

-- A deleted entry with nothing left to report is dropped, and any other is kept as it is.
abbrev pub unless_settled : Option Entry → Option Entry
unless_settled none = none
unless_settled (some e) = if is_settled e then none else some e

get-cleanup_key :
    (t : Tracker) (k j : String)
    → Dict.get (cleanup_key t k) j
      ≡ (if k == j then unless_settled (Dict.get t j) else Dict.get t j)
unfolding cleanup_key
get-cleanup_key t k j = ground (arith, eq_iff k j, get-remove t k j)

get-cleanup_loop :
    (t : Tracker) (keys : List String) (j : String)
    → Dict.get (cleanup_loop t keys) j
      ≡ (if contains j keys then unless_settled (Dict.get t j) else Dict.get t j)
unfolding cleanup_loop
get-cleanup_loop t [] j = refl
get-cleanup_loop t (k ∷ keys) j =
    ground (arith, get-cleanup_loop (cleanup_key t k) keys j, get-cleanup_key t k j)

pub get-cleanup_deleted_entries :
    (t : Tracker) (j : String)
    → Dict.get (cleanup_deleted_entries t) j ≡ unless_settled (Dict.get t j)
unfolding cleanup_deleted_entries
get-cleanup_deleted_entries t j =
    ground (arith, get-cleanup_loop t (Dict.keys t) j, contains-keys t j)

-- What a resetting read leaves of an entry.
abbrev pub after_read : Option Entry → Option Entry
after_read none = none
after_read (some e) =
    if e.is_deleted
    then none
    else some (record e { base_rx = e.current_rx; base_tx = e.current_tx })

-- What a read reports of an entry.
abbrev pub stats_of : String → Option Entry → List Stat
stats_of key none = []
stats_of key (some e) =
    build_delta_stats e.email key (sub64 e.current_rx e.base_rx) (sub64 e.current_tx e.base_tx)

pub get-report :
    (t : Tracker) (k j : String)
    → Dict.get (report true t k).0 j ≡ (if k == j then after_read (Dict.get t j) else Dict.get t j)
unfolding report
get-report t k j = grind (arith, eq_iff, get-put, get-remove)

-- A read that does not reset changes nothing.
pub report_keeps : (t : Tracker) (k : String) → (report false t k).0 ≡ t
unfolding report
report_keeps t k = ground arith

pub report-eq-stats_of :
    (reset : Bool) (t : Tracker) (k : String) → (report reset t k).1 ≡ stats_of k (Dict.get t k)
unfolding report
report-eq-stats_of reset t k = ground arith
