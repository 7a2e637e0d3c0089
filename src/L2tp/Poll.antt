-- ===== src/L2tp/Poll.antt =====
-- backend/l2tp/stats.go: the poll that turns the counters of PPP interfaces into counters per user.
-- The sessions and the closing records that the pppd hooks left, the interface counters and the
-- time are arguments; o.mu makes the poll one step. The records that it reads are deleted.
pub mod Growth
pub mod Moved
mod Examples
use pasarguard_node.Prelude.{
  String, Bool, true, false, not, ◌||◌, Option, none, some, List, [], ◌∷◌, ◌==◌, if◌then◌else◌,
  is_some, is_nil, contains,
}
use pasarguard_node.Int64.{Int64, add64, sub64, is_neg}
use pasarguard_node.Dict
use pasarguard_node.Dict.{Dict}
use pasarguard_node.Stats.Tracker.{Tracker, Sample, Time, unix, update_stats_batch}

-- l2tpSession, as far as the poll reads it
pub record Session : Type 0 where
  pub user : String
  pub ifname : String
  pub tunnel_ip : String
  pub client_ip : String
  pub tag : String

pub record FinalRecord : Type 0 where
  pub user : String
  pub tag : String
  pub ifname : String
  pub rx : Int64
  pub tx : Int64

pub record Reading : Type 0 where
  pub rx : Int64
  pub tx : Int64

-- The part of the struct L2TP that the poll keeps.
pub record Poll : Type 0 where
  pub inbound_tag : String
  pub if_seen : Dict Reading
  pub cum_rx : Dict Int64
  pub cum_tx : Dict Int64
  pub total_rx : Int64
  pub total_tx : Int64
  pub online_ips : Dict (Dict Int64)
  pub stats_tracker : Tracker

-- What one poll has gathered.
pub record Tick : Type 0 where
  pub seen : Dict Reading
  pub growth_rx : Dict Int64
  pub growth_tx : Dict Int64
  pub per_user : Dict (List Session)

pub amount : Option Int64 → Int64
amount none = 0
amount (some v) = v

-- m[key] += d
pub add_to : Dict Int64 → String → Int64 → Dict Int64
unfolding amount
add_to m key d = Dict.put m key (add64 (amount (Dict.get m key)) d)

pub is_own : String → String → Bool
is_own inbound_tag tag = tag == "" || tag == inbound_tag

pub own_sessions : String → List Session → List Session
unfolding is_own
own_sessions tag [] = []
own_sessions tag (s ∷ ss) =
    let rest = own_sessions tag ss in if is_own tag s.tag then s ∷ rest else rest

pub own_finals : String → List FinalRecord → List FinalRecord
unfolding is_own
own_finals tag [] = []
own_finals tag (f ∷ fs) =
    let rest = own_finals tag fs in if is_own tag f.tag then f ∷ rest else rest

sessions_of : Option (List Session) → List Session
sessions_of none = []
sessions_of (some ss) = ss

-- The sessions of each user, in order.
pub group : List Session → Dict (List Session) → Dict (List Session)
unfolding sessions_of
group [] m = m
group (s ∷ ss) m =
    let rest = group ss m in Dict.put rest s.user (s ∷ sessions_of (Dict.get rest s.user))

pub at_least_zero : Int64 → Int64
at_least_zero d = if is_neg d then 0 else d

-- What an ended session moved since its interface was last read.
pub final_growth : Option Reading → FinalRecord → Reading
unfolding at_least_zero
final_growth none fin = record { rx = at_least_zero fin.rx; tx = at_least_zero fin.tx }
final_growth (some last) fin = record {
  rx = at_least_zero (sub64 fin.rx last.rx);
  tx = at_least_zero (sub64 fin.tx last.tx);
}

-- if _, live := perUser[user]; !live { perUser[user] = nil }
keep_user : Dict (List Session) → String → Dict (List Session)
keep_user m user = if is_some (Dict.get m user) then m else Dict.put m user []

pub settle_final : FinalRecord → Tick → Tick
unfolding final_growth add_to keep_user
settle_final fin t =
    let grown = final_growth (Dict.get t.seen fin.ifname) fin in
    record {
      seen = Dict.remove t.seen fin.ifname;
      growth_rx = add_to t.growth_rx fin.user grown.rx;
      growth_tx = add_to t.growth_tx fin.user grown.tx;
      per_user = keep_user t.per_user fin.user;
    }

pub settle_finals : List FinalRecord → Tick → Tick
unfolding settle_final
settle_finals [] t = t
settle_finals (fin ∷ fins) t = settle_finals fins (settle_final fin t)

pub reading_or_zero : Option Reading → Reading
reading_or_zero none = record { rx = 0; tx = 0 }
reading_or_zero (some last) = last

-- A counter that fell was started anew.
pub grown_counter : Int64 → Int64 → Int64
grown_counter now last = if is_neg (sub64 now last) then now else sub64 now last

pub session_growth : Option Reading → Reading → Reading
unfolding reading_or_zero grown_counter
session_growth last now = record {
  rx = grown_counter now.rx (reading_or_zero last).rx;
  tx = grown_counter now.tx (reading_or_zero last).tx;
}

pub read_session : Reading → Session → Tick → Tick
unfolding session_growth add_to
read_session now s t =
    let grown = session_growth (Dict.get t.seen s.ifname) now in
    record t {
      seen = Dict.put t.seen s.ifname now;
      growth_rx = add_to t.growth_rx s.user grown.rx;
      growth_tx = add_to t.growth_tx s.user grown.tx;
    }

pub read_sessions : (String → Reading) → List Session → Tick → Tick
unfolding read_session
read_sessions iface_bytes [] t = t
read_sessions iface_bytes (s ∷ ss) t =
    read_sessions iface_bytes ss (read_session (iface_bytes s.ifname) s t)

ifnames : List Session → List String
ifnames [] = []
ifnames (s ∷ ss) = s.ifname ∷ ifnames ss

drop_absent : List String → List String → Dict Reading → Dict Reading
drop_absent present [] seen = seen
drop_absent present (ifn ∷ ifns) seen =
    drop_absent present ifns (if contains ifn present then seen else Dict.remove seen ifn)

-- The addresses of a user's sessions and the first of them, as the loop over the list finds them.
note_ips : Int64 → List Session → Dict Int64 × String → Dict Int64 × String
note_ips now [] acc = acc
note_ips now (s ∷ ss) (ips, endpoint) =
    let ip = if s.client_ip == "" then s.tunnel_ip else s.client_ip in
    note_ips now ss (
      if ip == "" then ips else Dict.put ips ip now,
      if ip == "" then endpoint else if endpoint == "" then ip else endpoint,
    )

-- What one user adds to the counters.
pub bill_user : Tick → String → Poll → Poll
unfolding add_to amount
bill_user t user o =
    let rx = amount (Dict.get t.growth_rx user) in
    let tx = amount (Dict.get t.growth_tx user) in
    record o {
      cum_rx = add_to o.cum_rx user rx;
      cum_tx = add_to o.cum_tx user tx;
      total_rx = add64 o.total_rx rx;
      total_tx = add64 o.total_tx tx;
    }

pub bill_users : Tick → List String → Poll → Poll
unfolding bill_user
bill_users t [] o = o
bill_users t (user ∷ users) o = bill_users t users (bill_user t user o)

-- onlineIPs, and the samples for the tracker.
list_online : Int64 → Tick → Poll → List String → Dict (Dict Int64) × List Sample
unfolding note_ips sessions_of amount
list_online now t o [] = (Dict.empty, [])
list_online now t o (user ∷ users) =
    let (online, samples) = list_online now t o users in
    let (ips, endpoint) = note_ips now (sessions_of (Dict.get t.per_user user)) (Dict.empty, "") in
    (
      Dict.put online user ips,
      record {
        public_key = user;
        email = user;
        rx = amount (Dict.get o.cum_rx user);
        tx = amount (Dict.get o.cum_tx user);
        endpoint_ip = endpoint;
      }
          ∷ samples,
    )

-- The loops over the ended and the live sessions.
pub gather : (String → Reading) → List Session → List FinalRecord → Poll → Tick
unfolding group settle_finals read_sessions
gather iface_bytes sessions finals o = read_sessions iface_bytes sessions (
    settle_finals finals (record {
      seen = o.if_seen;
      growth_rx = Dict.empty;
      growth_tx = Dict.empty;
      per_user = group sessions Dict.empty;
    }))

-- The end of the poll, for what is gathered.
finish : Time → List Session → Tick → Poll → Poll
unfolding bill_users list_online drop_absent ifnames
finish now sessions t o =
    let users = Dict.keys t.per_user in
    let o' = bill_users t users o in
    let (online, samples) = list_online (unix now) t o' users in
    record o' {
      if_seen = drop_absent (ifnames sessions) (Dict.keys t.seen) t.seen;
      online_ips = online;
      stats_tracker =
          if is_nil samples
          then o.stats_tracker
          else update_stats_batch o.stats_tracker samples now;
    }

pub poll : Time → (String → Reading) → List Session → List FinalRecord → Poll → Poll
unfolding own_sessions own_finals gather finish
poll now iface_bytes sessions finals o =
    let ours = own_sessions o.inbound_tag sessions in
    finish now ours (gather iface_bytes ours (own_finals o.inbound_tag finals) o) o
