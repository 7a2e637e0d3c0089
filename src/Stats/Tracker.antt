-- ===== src/Stats/Tracker.antt =====
-- pkg/stats/tracker.go: the per-user counters. A method takes the tracker and returns the new one;
-- the lock makes each of them one step. `time.Now()` is an argument.
pub mod Pending
pub mod Effects
pub mod Accounting
pub mod Reads
pub mod Activity
use pasarguard_node.Prelude.{
  ℕ, ◌-◌, ◌/◌, String, Bool, true, false, not, ◌&&◌, ◌||◌, Option, none, some, List, [], ◌∷◌, ◌++◌,
  ltb, nat_beq, ◌==◌, if◌then◌else◌,
}
use pasarguard_node.Int64.{Int64, sub64, slt, is_neg}
use pasarguard_node.Dict
use pasarguard_node.Dict.{Dict}
use pasarguard_node.Stats.Stat.{Stat, build_delta_stats}

-- A time.Time, in nanoseconds from the zero Time on (which is 0).
abbrev pub Time : Type 0
Time = ℕ

-- t.Unix(): the zero Time is the start of the year 1.
abbrev pub unix : Time → Int64
unix t = sub64 (t / 1_000_000_000) 62_135_596_800

pub record Entry : Type 0 where
  pub email : String
  pub current_rx : Int64
  pub current_tx : Int64
  pub base_rx : Int64
  pub base_tx : Int64
  pub last_delta_rx : Int64
  pub last_delta_tx : Int64
  pub last_active_time : Time
  pub endpoint_ip : String
  pub is_deleted : Bool

pub record Sample : Type 0 where
  pub public_key : String
  pub email : String
  pub rx : Int64
  pub tx : Int64
  pub endpoint_ip : String

abbrev pub Tracker : Type 0
Tracker = Dict Entry

abbrev pub new : Tracker
new = Dict.empty

-- &Entry{Email: email}
unfoldable pub new_entry : String → Entry
new_entry email = record {
  email = email;
  current_rx = 0;
  current_tx = 0;
  base_rx = 0;
  base_tx = 0;
  last_delta_rx = 0;
  last_delta_tx = 0;
  last_active_time = 0;
  endpoint_ip = "";
  is_deleted = false;
}

-- A delta is pending from before the entry was deleted.
unfoldable pub has_last_delta : Entry → Bool
has_last_delta e = not (nat_beq e.last_delta_rx 0) || not (nat_beq e.last_delta_tx 0)

restore_baseline : Entry → Sample → Entry
restore_baseline e s = record e {
  base_rx = sub64 s.rx e.last_delta_rx;
  base_tx = sub64 s.tx e.last_delta_tx;
  last_delta_rx = 0;
  last_delta_tx = 0;
}

unfoldable pub rolled_back : Entry → Sample → Bool
rolled_back e s = slt s.rx e.current_rx || slt s.tx e.current_tx

-- if pending < 0 { pending = 0 }
abbrev pub at_least_zero : Int64 → Int64
at_least_zero p = if is_neg p then 0 else p

rebase : Entry → Sample → Entry
rebase e s = record e {
  base_rx = sub64 s.rx (at_least_zero (sub64 e.current_rx e.base_rx));
  base_tx = sub64 s.tx (at_least_zero (sub64 e.current_tx e.base_tx));
}

advance : Entry → Sample → Time → Entry
advance e s active_at = record e {
  last_active_time =
      if slt e.current_rx s.rx || slt e.current_tx s.tx then active_at else e.last_active_time;
  current_rx = s.rx;
  current_tx = s.tx;
  endpoint_ip = s.endpoint_ip;
}

-- The part of applySampleLocked after the baseline of a deleted entry is restored.
take_counters : Bool → Entry → Sample → Time → Entry
unfolding rebase advance rolled_back
take_counters readded e s active_at =
    if nat_beq e.current_rx s.rx && nat_beq e.current_tx s.tx
    then record e { endpoint_ip = s.endpoint_ip }
    else advance (if not readded && rolled_back e s then rebase e s else e) s active_at

unfoldable pub apply_entry : Entry → Sample → Time → Entry
unfolding has_last_delta restore_baseline take_counters
apply_entry entry s active_at =
    let e : Entry = record entry { email = s.email; is_deleted = false } in
    if has_last_delta e
    then take_counters true (restore_baseline e s) s active_at
    else take_counters false e s active_at

unfoldable pub entry_of : Option Entry → String → Entry
unfolding new_entry
entry_of none email = new_entry email
entry_of (some e) email = e

-- applySampleLocked
unfoldable pub apply_sample : Tracker → Sample → Time → Tracker
unfolding entry_of
apply_sample t s active_at =
    Dict.put t s.public_key (apply_entry (entry_of (Dict.get t s.public_key) s.email) s active_at)

unfoldable pub apply_samples : Tracker → List Sample → Time → Tracker
apply_samples t [] now = t
apply_samples t (s ∷ ss) now = apply_samples (apply_sample t s now) ss now

unfoldable pub update_stats_batch : Tracker → List Sample → Time → Tracker
unfolding apply_samples
update_stats_batch t samples now = apply_samples t samples now

-- One round of the loop of GetStats and GetUsersStats, for an entry that is there.
settle : Bool → Tracker → String → Entry → Tracker
settle reset t key e =
    if reset
    then (if e.is_deleted
        then Dict.remove t key
        else Dict.put t key (record e { base_rx = e.current_rx; base_tx = e.current_tx }))
    else t

unfoldable pub report : Bool → Tracker → String → Tracker × List Stat
unfolding settle
report reset t key = elim (Dict.get t key) [
  | none ↦ (t, [])
  | some e ↦ (
    settle reset t key e,
    build_delta_stats e.email key (sub64 e.current_rx e.base_rx) (sub64 e.current_tx e.base_tx),
  )
]

unfoldable pub report_all : Bool → Tracker → List String → Tracker × List Stat
report_all reset t [] = (t, [])
report_all reset t (key ∷ keys) =
    let (t', here) = report reset t key in
    let (t'', later) = report_all reset t' keys in (t'', here ++ later)

unfoldable pub get_stats : Tracker → List String → Bool → Tracker × List Stat
unfolding report_all report
get_stats t keys reset = report_all reset t keys

-- `range st.stats`: each key once, in an order that Go leaves open.
unfoldable pub get_users_stats : Tracker → Bool → Tracker × List Stat
unfolding report_all report
get_users_stats t reset = report_all reset t (Dict.keys t)

-- The entry that GetStatsEntries copies for a key.
collect_entries : Tracker → List String → Dict Entry → Dict Entry
collect_entries t [] result = result
collect_entries t (key ∷ keys) result =
    collect_entries t keys
      (elim (Dict.get t key) [ none ↦ result | some e ↦ Dict.put result key e ])

pub get_stats_entries : Tracker → List String → Dict Entry
unfolding collect_entries
get_stats_entries t keys = collect_entries t keys Dict.empty

unfoldable pub any_active_since : Tracker → List String → Time → Bool
any_active_since t [] cutoff = false
any_active_since t (key ∷ keys) cutoff =
    let rest = any_active_since t keys cutoff in
    elim (Dict.get t key) [
      | none ↦ rest
      | some e ↦ if ltb cutoff e.last_active_time then true else rest
    ]

-- if prev, ok := result[ip]; !ok || ts > prev { result[ip] = ts }
keep_newest : Dict Int64 → String → Int64 → Dict Int64
keep_newest result ip ts = elim (Dict.get result ip) [
  | none ↦ Dict.put result ip ts
  | some prev ↦ if slt prev ts then Dict.put result ip ts else result
]

note_endpoint : Dict Int64 → Option Entry → Dict Int64
unfolding keep_newest
note_endpoint result none = result
note_endpoint result (some e) =
    if e.endpoint_ip == "" || nat_beq e.last_active_time 0
    then result
    else keep_newest result e.endpoint_ip (unix e.last_active_time)

endpoint_loop : Tracker → List String → Dict Int64 → Dict Int64
unfolding note_endpoint
endpoint_loop t [] result = result
endpoint_loop t (key ∷ keys) result = endpoint_loop t keys (note_endpoint result (Dict.get t key))

unfoldable pub endpoint_activity : Tracker → List String → Dict Int64
unfolding endpoint_loop
endpoint_activity t keys = endpoint_loop t keys Dict.empty

unfoldable pub mark_deleted : Entry → Entry
mark_deleted e = record e {
  last_delta_rx = sub64 e.current_rx e.base_rx;
  last_delta_tx = sub64 e.current_tx e.base_tx;
  is_deleted = true;
  last_active_time = 0;
}

unfoldable pub remove_stats : Tracker → String → Tracker
unfolding mark_deleted
remove_stats t key = elim (Dict.get t key) [ none ↦ t | some e ↦ Dict.put t key (mark_deleted e) ]

pub clear_all_stats : Tracker → Tracker
clear_all_stats t = Dict.empty

pub is_settled : Entry → Bool
is_settled e = e.is_deleted && nat_beq e.current_rx e.base_rx && nat_beq e.current_tx e.base_tx

cleanup_key : Tracker → String → Tracker
unfolding is_settled
cleanup_key t key = elim (Dict.get t key) [
  | none ↦ t
  | some e ↦ if is_settled e then Dict.remove t key else t
]

cleanup_loop : Tracker → List String → Tracker
unfolding cleanup_key
cleanup_loop t [] = t
cleanup_loop t (key ∷ keys) = cleanup_loop (cleanup_key t key) keys

unfoldable pub cleanup_deleted_entries : Tracker → Tracker
unfolding cleanup_loop
cleanup_deleted_entries t = cleanup_loop t (Dict.keys t)
