-- ===== src/Stats/Tracker/Reads.antt =====
-- pkg/stats/tracker.go: a read that resets leaves nothing to report.
use pasarguard_node.Prelude.{
  String, ◌≡◌, refl, Bool, true, false, Option, none, some, List, [], ◌∷◌, arith, ◌==◌, eq_iff,
  if◌then◌else◌, contains,
}
use pasarguard_node.Dict
use pasarguard_node.Dict.{contains-keys}
use pasarguard_node.Stats.Stat.{build_delta_stats}
use pasarguard_node.Stats.Tracker.{Entry, Tracker, report, report_all, get_stats, get_users_stats}
use pasarguard_node.Stats.Tracker.Effects.{
  after_read, stats_of, get-report, report_keeps, report-eq-stats_of,
}

stats_of-after_read : (k : String) (o : Option Entry) → stats_of k (after_read o) ≡ []
unfolding build_delta_stats
stats_of-after_read k none = refl
stats_of-after_read k (some e) = ground arith

after_report :
    (t : Tracker) (k j : String)
    → stats_of j (Dict.get (report true t k).0 j)
      ≡ (if k == j then [] else stats_of j (Dict.get t j))
after_report t k j = ground (arith, get-report t k j, stats_of-after_read j (Dict.get t j))

after_report_all :
    (t : Tracker) (keys : List String) (j : String)
    → stats_of j (Dict.get (report_all true t keys).0 j)
      ≡ (if contains j keys then [] else stats_of j (Dict.get t j))
unfolding report_all
after_report_all t [] j = refl
after_report_all t (k ∷ keys) j =
    ground (arith, after_report t k j, after_report_all (report true t k).0 keys j)

-- The keys of which a read reports nothing stay so, and a read of them alone is empty.
report_quiet :
    (reset : Bool) (t : Tracker) (k j : String)
    → stats_of j (Dict.get t j) ≡ []
    → stats_of j (Dict.get (report reset t k).0 j) ≡ []
report_quiet true t k j h = ground (arith, after_report t k j)
report_quiet false t k j h = rw report_keeps h

report_all_quiet :
    (reset : Bool) (t : Tracker) (keys : List String)
    → ((j : String) → contains j keys ≡ true → stats_of j (Dict.get t j) ≡ [])
    → (report_all reset t keys).1 ≡ []
unfolding report_all
report_all_quiet reset t [] h = refl
report_all_quiet reset t (k ∷ keys) h =
    let here : stats_of k (Dict.get t k) ≡ [] = h k (ground (arith, eq_iff k k)) in
    let later =
      report_all_quiet reset (report reset t k).0 keys
        λ j m. report_quiet reset t k j (h j (ground arith)) in
    cc (report-eq-stats_of reset t k, here, later)

-- GetStats with reset reports all of it: a second read of the same keys, resetting or not, reports
-- nothing.
pub get_stats_again :
    (t : Tracker) (keys : List String) (reset : Bool)
    → (get_stats (get_stats t keys true).0 keys reset).1 ≡ []
unfolding get_stats
get_stats_again t keys reset =
    report_all_quiet reset _ keys λ j m. ground (arith, after_report_all t keys j)

all_quiet :
    (t : Tracker) (j : String) → stats_of j (Dict.get (report_all true t (Dict.keys t)).0 j) ≡ []
all_quiet t j = ground (arith, after_report_all t (Dict.keys t) j, contains-keys t j)

-- GetUsersStats with reset reports all of it: a second read of all users, or of any keys, reports
-- nothing.
pub get_users_stats_again :
    (t : Tracker) (keys : List String) (reset : Bool)
    → let t' = (get_users_stats t true).0 in
      ((get_users_stats t' reset).1 ≡ []) × ((get_stats t' keys reset).1 ≡ [])
unfolding get_stats get_users_stats
get_users_stats_again t keys reset =
    let quiet = λ (j : String). all_quiet t j in
    (report_all_quiet reset _ _ (λ j _. quiet j), report_all_quiet reset _ keys (λ j _. quiet j))
