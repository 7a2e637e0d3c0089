-- ===== src/Openvpn/Poll.antt =====
-- backend/openvpn/stats.go: the poll that turns the daemon's counters per session into counters per
-- user. The rows that requestStatus answers and extractIP (which cuts the port off an address) are
-- arguments; o.mu makes each operation one step.
pub mod Growth
pub mod Moved
use pasarguard_node.Prelude.{
  ℕ, String, Bool, true, false, not, ◌&&◌, ◌||◌, Option, none, some, List, [], ◌∷◌, ◌++◌, nat_beq,
  ◌==◌, if◌then◌else◌, is_some, contains, is_nil,
}
use pasarguard_node.Int64.{Int64, add64, sub64, is_neg}
use pasarguard_node.Dict
use pasarguard_node.Dict.{Dict}
use pasarguard_node.Stats.Tracker
use pasarguard_node.Stats.Tracker.{Tracker, Sample, Time}

-- As far as the poll reads it: the address in the tunnel is left out.
pub record ClientStatus : Type 0 where
  pub common_name : String
  pub real_address : String
  pub bytes_received : Int64
  pub bytes_sent : Int64
  pub client_id : String

pub record EndedSession : Type 0 where
  pub client_id : String
  pub common_name : String
  pub rx : Int64
  pub tx : Int64

-- The part of the struct OpenVPN that the poll keeps.
pub record Poll : Type 0 where
  pub session_seen : Dict ClientStatus
  pub cn_cumulative : Dict ClientStatus
  pub ended_sessions : List EndedSession
  pub total_rx : Int64
  pub total_tx : Int64
  pub stats_tracker : Tracker

pub record_session_end : Poll → String → String → Int64 → Int64 → Poll
record_session_end o cid common_name rx tx =
    if cid == "" || common_name == "" then o else record o {
      ended_sessions =
          o.ended_sessions
          ++ (record { client_id = cid; common_name = common_name; rx = rx; tx = tx } ∷ []);
    }

-- &clientStatus{CommonName: cn, RealAddress: address}
pub new_status : String → String → ClientStatus
new_status cn address = record {
  common_name = cn;
  real_address = address;
  bytes_received = 0;
  bytes_sent = 0;
  client_id = "";
}

-- The status that stands in the map, or a new one.
pub status_or : ClientStatus → Option ClientStatus → ClientStatus
status_or new none = new
status_or new (some status) = status

pub add_bytes : ClientStatus → Int64 → Int64 → ClientStatus
add_bytes status rx tx = record status {
  bytes_received = add64 status.bytes_received rx;
  bytes_sent = add64 status.bytes_sent tx;
}

-- What a finished session moved since its last row, and nothing below zero.
pub at_least_zero : Int64 → Int64
at_least_zero d = if is_neg d then 0 else d

pub final_growth : Option ClientStatus → EndedSession → Int64 × Int64
unfolding at_least_zero
final_growth none fin = (at_least_zero fin.rx, at_least_zero fin.tx)
final_growth (some prev) fin =
    (at_least_zero (sub64 fin.rx prev.bytes_received), at_least_zero (sub64 fin.tx prev.bytes_sent))

pub fold_ended : Dict ClientStatus → EndedSession → Int64 × Int64 → Dict ClientStatus
unfolding new_status status_or add_bytes
fold_ended per_cn fin (d_rx, d_tx) =
    if nat_beq d_rx 0 && nat_beq d_tx 0
    then per_cn
    else Dict.put per_cn fin.common_name (
        add_bytes (status_or (new_status fin.common_name "") (Dict.get per_cn fin.common_name)) d_rx
          d_tx)

-- The loop of foldEndedSessionsLocked, over the baselines and the growth per common name.
pub fold_ended_sessions :
    List EndedSession
    → Dict ClientStatus
    → Dict ClientStatus
    → Dict ClientStatus × Dict ClientStatus
unfolding final_growth fold_ended
fold_ended_sessions [] seen per_cn = (seen, per_cn)
fold_ended_sessions (fin ∷ ended) seen per_cn =
    fold_ended_sessions ended (Dict.remove seen fin.client_id)
      (fold_ended per_cn fin (final_growth (Dict.get seen fin.client_id) fin))

-- A counter's growth since the last row; a counter that fell started again.
pub grown : Int64 → Int64 → Int64
grown now before = if is_neg (sub64 now before) then now else sub64 now before

pub row_growth : Option ClientStatus → ClientStatus → Int64 × Int64
unfolding grown
row_growth none row = (row.bytes_received, row.bytes_sent)
row_growth (some prev) row =
    (grown row.bytes_received prev.bytes_received, grown row.bytes_sent prev.bytes_sent)

pub with_address : String → ClientStatus → ClientStatus
with_address address status =
    if address == "" then status else record status { real_address = address }

pub fold_row : Dict ClientStatus → ClientStatus → Int64 × Int64 → Dict ClientStatus
unfolding new_status status_or add_bytes with_address
fold_row per_cn row (d_rx, d_tx) = Dict.put per_cn row.common_name (
    with_address row.real_address (
      add_bytes
        (status_or (new_status row.common_name row.real_address) (Dict.get per_cn row.common_name))
        d_rx d_tx))

-- The loop over the rows.
pub fold_rows :
    List ClientStatus
    → Dict ClientStatus
    → Dict ClientStatus
    → Dict ClientStatus × Dict ClientStatus
unfolding row_growth fold_row
fold_rows [] seen per_cn = (seen, per_cn)
fold_rows (row ∷ rows) seen per_cn =
    fold_rows rows (Dict.put seen row.client_id row)
      (fold_row per_cn row (row_growth (Dict.get seen row.client_id) row))

pub client_ids : List ClientStatus → List String
client_ids [] = []
client_ids (row ∷ rows) = row.client_id ∷ client_ids rows

-- The baselines of the sessions that have a row.
pub drop_unseen : List String → List String → Dict ClientStatus → Dict ClientStatus
drop_unseen ids [] seen = seen
drop_unseen ids (cid ∷ cids) seen =
    drop_unseen ids cids (if contains cid ids then seen else Dict.remove seen cid)

-- cum, with its common name's growth added
pub cumulate : String → Option ClientStatus → ClientStatus → ClientStatus
unfolding new_status status_or add_bytes
cumulate cn cum growth =
    add_bytes (status_or (new_status cn "") cum) growth.bytes_received growth.bytes_sent

-- The growth per common name of a poll, and the baselines after it.
pub poll_growth : List ClientStatus → Poll → Dict ClientStatus × Dict ClientStatus
unfolding fold_rows fold_ended_sessions drop_unseen client_ids
poll_growth rows o =
    let (seen, per_cn) = fold_rows rows o.session_seen Dict.empty in
    let (seen', per_cn') = fold_ended_sessions o.ended_sessions seen per_cn in
    (drop_unseen (client_ids rows) (Dict.keys seen') seen', per_cn')

module _ (extract_ip : String → String) where
  sample_of : String → ClientStatus → ClientStatus → Sample
  sample_of cn cum growth = record {
    public_key = cn;
    email = cn;
    rx = cum.bytes_received;
    tx = cum.bytes_sent;
    endpoint_ip = extract_ip growth.real_address;
  }

  pub fold_growth : String → Option ClientStatus → Poll × List Sample → Poll × List Sample
  unfolding cumulate sample_of
  fold_growth cn none (o, samples) = (o, samples)
  fold_growth cn (some growth) (o, samples) =
      let cum = cumulate cn (Dict.get o.cn_cumulative cn) growth in
      (
        record o {
          cn_cumulative = Dict.put o.cn_cumulative cn cum;
          total_rx = add64 o.total_rx growth.bytes_received;
          total_tx = add64 o.total_tx growth.bytes_sent;
        },
        samples ++ (sample_of cn cum growth ∷ []),
      )

  -- The loop over the growth per common name.
  pub fold_growths : Dict ClientStatus → List String → Poll × List Sample → Poll × List Sample
  unfolding fold_growth
  fold_growths per_cn [] acc = acc
  fold_growths per_cn (cn ∷ cns) acc =
      fold_growths per_cn cns (fold_growth cn (Dict.get per_cn cn) acc)

  -- What is done with the samples, if there are any.
  send_samples : Time → Poll × List Sample → Poll
  send_samples now (o, samples) =
      if is_nil samples
      then o
      else record o { stats_tracker = Tracker.update_stats_batch o.stats_tracker samples now }

  -- `none` when there is no management connection, else the rows that it answered.
  pub collect_stats : Time → Option (List ClientStatus) → Poll → Poll
  unfolding poll_growth fold_growths send_samples
  collect_stats now none o = o
  collect_stats now (some rows) o =
      let (seen, per_cn) = poll_growth rows o in
      send_samples now (
        fold_growths per_cn (Dict.keys per_cn)
          (record o { session_seen = seen; ended_sessions = [] }, []))
