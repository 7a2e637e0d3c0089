-- ===== src/Stats/Tracker/Pending.antt =====
-- pkg/stats/tracker.go: what a sample does to the traffic that a user has yet to be billed for.
use pasarguard_node.Prelude.{◌+◌, ◌^◌, ◌<◌, String, ◌≡◌, arith, ◌||◌, if◌then◌else◌}
use pasarguard_node.Int64.{Int64, IsInt64, add64, sub64}
use pasarguard_node.Stats.Tracker.{
  Entry, Sample, Time, has_last_delta, rolled_back, at_least_zero, new_entry, mark_deleted,
  apply_entry,
}

-- The traffic since the last reset.
abbrev pub pending_rx : Entry → Int64
pending_rx e = sub64 e.current_rx e.base_rx

abbrev pub pending_tx : Entry → Int64
pending_tx e = sub64 e.current_tx e.base_tx

pub record IsEntry (e : Entry) : Type 0 where
  pub current_rx : IsInt64 e.current_rx
  pub current_tx : IsInt64 e.current_tx
  pub base_rx : IsInt64 e.base_rx
  pub base_tx : IsInt64 e.base_tx
  pub last_delta_rx : IsInt64 e.last_delta_rx
  pub last_delta_tx : IsInt64 e.last_delta_tx

pub record IsSample (s : Sample) : Type 0 where
  pub rx : IsInt64 s.rx
  pub tx : IsInt64 s.tx

-- What is pending in one direction after a sample: the delta kept from before a deletion, what was
-- pending if a counter fell, and what was pending with the growth otherwise.
abbrev pub after_sample : Entry → Sample → Int64 → Int64 → Int64 → Int64
after_sample e s last_delta pending growth =
    if has_last_delta e
    then last_delta
    else if rolled_back e s
    then at_least_zero pending
    else add64 pending growth

-- In both directions and on every branch, a sample leaves pending the delta that a deletion kept,
-- else what was pending and not negative if a counter fell, else what was pending plus the growth.
pub apply_entry-pending :
    (e : Entry) (s : Sample) (now : Time)
    → IsEntry e
    → IsSample s
    → (pending_rx (apply_entry e s now)
        ≡ after_sample e s e.last_delta_rx (pending_rx e) (sub64 s.rx e.current_rx))
      × (pending_tx (apply_entry e s now)
          ≡ after_sample e s e.last_delta_tx (pending_tx e) (sub64 s.tx e.current_tx))
unfolding apply_entry
apply_entry-pending e s now he hs = (ground arith, ground arith)

-- A sound entry: nothing negative is pending, and the kept delta of a deleted entry is what is
-- pending, while an entry that is not deleted keeps none.
pub record IsSound (e : Entry) : Type 0 where
  pub words : IsEntry e
  pub rx : pending_rx e < 2 ^ 63
  pub tx : pending_tx e < 2 ^ 63
  pub kept_rx : e.last_delta_rx ≡ (if e.is_deleted then pending_rx e else 0)
  pub kept_tx : e.last_delta_tx ≡ (if e.is_deleted then pending_tx e else 0)

-- The traffic that a sample adds: none where it restores a deleted entry or a counter fell.
abbrev pub growth_rx : Entry → Sample → Int64
growth_rx e s = if has_last_delta e || rolled_back e s then 0 else sub64 s.rx e.current_rx

abbrev pub growth_tx : Entry → Sample → Int64
growth_tx e s = if has_last_delta e || rolled_back e s then 0 else sub64 s.tx e.current_tx

pub new_entry-IsSound : (email : String) → IsSound (new_entry email)
unfolding new_entry
new_entry-IsSound email = ground arith

pub mark_deleted-IsSound : (e : Entry) → IsSound e → IsSound (mark_deleted e)
unfolding mark_deleted
mark_deleted-IsSound e h = ground arith

module _ (e : Entry) (s : Sample) (now : Time) (he : IsSound e) (hs : IsSample s)
    (room_rx : pending_rx e + growth_rx e s < 2 ^ 63)
    (room_tx : pending_tx e + growth_tx e s < 2 ^ 63) where
  pub pending_rx-apply_entry : pending_rx (apply_entry e s now) ≡ pending_rx e + growth_rx e s
  unfolding has_last_delta
  pending_rx-apply_entry = ground (arith, apply_entry-pending e s now he.words hs)

  pub pending_tx-apply_entry : pending_tx (apply_entry e s now) ≡ pending_tx e + growth_tx e s
  unfolding has_last_delta
  pending_tx-apply_entry = ground (arith, apply_entry-pending e s now he.words hs)

  apply_entry-words : IsEntry (apply_entry e s now)
  unfolding apply_entry
  apply_entry-words = ground arith

  pub apply_entry-IsSound : IsSound (apply_entry e s now)
  apply_entry-IsSound = record {
    words = apply_entry-words;
    rx = omega (arith, pending_rx-apply_entry);
    tx = omega (arith, pending_tx-apply_entry);
    kept_rx = unfold apply_entry in ground arith;
    kept_tx = unfold apply_entry in ground arith;
  }
