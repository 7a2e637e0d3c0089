-- ===== src/Stats/Tracker/Activity.antt =====
-- pkg/stats/tracker.go: who is online, and from where.
use pasarguard_node.Prelude.{
  String, ◌≡◌, refl, Option, none, some, List, [], ◌∷◌, arith, ◌==◌, ◌||◌, eq_iff, nat_beq,
  if◌then◌else◌,
}
use pasarguard_node.Int64.{Int64, slt}
use pasarguard_node.Dict
use pasarguard_node.Dict.{get-put, get-empty}
use pasarguard_node.Stats.Tracker.{
  Entry, Time, Tracker, unix, mark_deleted, any_active_since, remove_stats, note_endpoint,
  endpoint_loop, endpoint_activity,
}
use pasarguard_node.Stats.Tracker.Effects.{get-remove_stats}

-- The keys of a user but one.
pub all_but : String → List String → List String
all_but k [] = []
all_but k (j ∷ js) = let rest = all_but k js in if k == j then rest else j ∷ rest

-- After a key is removed, the keys of a user are active exactly if one of the other keys was
-- active before.
pub any_active_since-remove_stats :
    (t : Tracker) (k : String) (keys : List String) (cutoff : Time)
    → any_active_since (remove_stats t k) keys cutoff ≡ any_active_since t (all_but k keys) cutoff
unfolding any_active_since all_but mark_deleted
any_active_since-remove_stats t k [] cutoff = refl
any_active_since-remove_stats t k (j ∷ js) cutoff =
    ground (arith, get-remove_stats t k j, any_active_since-remove_stats t k js cutoff)

-- The later of two timestamps.
abbrev pub later : Option Int64 → Option Int64 → Option Int64
later none b = b
later (some a) none = some a
later (some a) (some b) = if slt a b then some b else some a

-- When an entry was last seen at an address.
pub seen_at : String → Option Entry → Option Int64
seen_at ip none = none
seen_at ip (some e) =
    if e.endpoint_ip == "" || nat_beq e.last_active_time 0
    then none
    else if e.endpoint_ip == ip
    then some (unix e.last_active_time)
    else none

pub newest_at : Tracker → List String → String → Option Int64
newest_at t [] ip = none
newest_at t (k ∷ ks) ip = later (seen_at ip (Dict.get t k)) (newest_at t ks ip)

get-note_endpoint :
    (result : Dict.Dict Int64) (o : Option Entry) (ip : String)
    → Dict.get (note_endpoint result o) ip ≡ later (Dict.get result ip) (seen_at ip o)
unfolding note_endpoint seen_at
get-note_endpoint result none ip = ground arith
get-note_endpoint result (some e) ip =
    ground
      (arith, get-put result e.endpoint_ip ip (unix e.last_active_time), eq_iff e.endpoint_ip ip)

later_assoc : (a b c : Option Int64) → later (later a b) c ≡ later a (later b c)
later_assoc a b c = ground arith

get-endpoint_loop :
    (t : Tracker) (keys : List String) (result : Dict.Dict Int64) (ip : String)
    → Dict.get (endpoint_loop t keys result) ip ≡ later (Dict.get result ip) (newest_at t keys ip)
unfolding endpoint_loop newest_at
get-endpoint_loop t [] result ip = ground arith
get-endpoint_loop t (k ∷ ks) result ip = cc (
  get-endpoint_loop t ks (note_endpoint result (Dict.get t k)) ip,
  get-note_endpoint result (Dict.get t k) ip,
  later_assoc (Dict.get result ip) (seen_at ip (Dict.get t k)) (newest_at t ks ip),
)

-- EndpointActivity maps each address to the newest time at which one of the keys was seen there,
-- and no other address to anything.
pub endpoint_activity-newest :
    (t : Tracker) (keys : List String) (ip : String)
    → Dict.get (endpoint_activity t keys) ip ≡ newest_at t keys ip
unfolding endpoint_activity
endpoint_activity-newest t keys ip = rw (get-endpoint_loop, get-empty)
