-- ===== src/Openvpn/Poll/Growth.antt =====
-- backend/openvpn/stats.go: what a poll adds to the counters of a user.
use pasarguard_node.Prelude.{
  ◌+◌, ◌%◌, ◌^◌, String, ◌≡◌, refl, false, Option, none, some, List, [], ◌∷◌, ◌++◌, ◌==◌,
  if◌then◌else◌, is_some, contains, arith, eq_iff, subst, ap,
}
use pasarguard_node.Int64.{Int64, add64}
use pasarguard_node.Dict
use pasarguard_node.Dict.{
  Dict, get-put, get-remove, get-empty, contains-keys, keys-IsNodup, IsNodup,
}
use pasarguard_node.Openvpn.Poll.{
  ClientStatus, EndedSession, Poll, new_status, status_or, add_bytes, with_address, final_growth,
  fold_ended, fold_ended_sessions, row_growth, fold_row, fold_rows, cumulate, fold_growth,
  fold_growths, poll_growth, send_samples, collect_stats,
}
use pasarguard_node.Stats.Tracker.{Sample, Time}
use pasarguard_node.Openvpn.Poll.Moved.{
  row_moved, ended_moved, row_growth-received, final_growth-received,
}

-- What the sessions moved, by common name.
abbrev pub Moves : Type 0
Moves = List (String × Int64)

abbrev pub total_of : String → Moves → Int64
total_of cn [] = 0
total_of cn ((c, n) ∷ moves) = let rest = total_of cn moves in if c == cn then n + rest else rest

-- Each row's growth of what was received over the row of its session before it.
pub row_moves : List ClientStatus → Dict ClientStatus → Moves × Dict ClientStatus
row_moves [] seen = ([], seen)
row_moves (row ∷ rows) seen =
    let (moves, seen') = row_moves rows (Dict.put seen row.client_id row) in
    ((row.common_name, row_moved (Dict.get seen row.client_id) row) ∷ moves, seen')

-- Each finished session's growth.
pub ended_moves : List EndedSession → Dict ClientStatus → Moves
ended_moves [] seen = []
ended_moves (fin ∷ ended) seen =
    (fin.common_name, ended_moved (Dict.get seen fin.client_id) fin)
    ∷ ended_moves ended (Dict.remove seen fin.client_id)

pub received : Option ClientStatus → Int64
received none = 0
received (some status) = status.bytes_received

received-fold_row :
    (per_cn : Dict ClientStatus) (row : ClientStatus) (d : Int64 × Int64) (cn : String)
    → received (Dict.get (fold_row per_cn row d) cn) ≡ (
        if row.common_name == cn
        then add64 (received (Dict.get per_cn cn)) d.0
        else received (Dict.get per_cn cn))
unfolding received fold_row status_or new_status add_bytes with_address
received-fold_row per_cn row (rx, tx) cn = grind (arith, get-put, eq_iff row.common_name cn)

received-fold_ended :
    (per_cn : Dict ClientStatus) (fin : EndedSession) (d : Int64 × Int64) (cn : String)
    → received (Dict.get (fold_ended per_cn fin d) cn) % 2 ^ 64 ≡ (
        (if fin.common_name == cn
          then received (Dict.get per_cn cn) + d.0
          else received (Dict.get per_cn cn))
        % 2 ^ 64)
unfolding received fold_ended status_or new_status add_bytes
received-fold_ended per_cn fin (rx, tx) cn = grind (arith, get-put, eq_iff fin.common_name cn)

received-fold_rows :
    (rows : List ClientStatus) (seen per_cn : Dict ClientStatus) (cn : String)
    → received (Dict.get (fold_rows rows seen per_cn).1 cn) % 2 ^ 64
      ≡ (received (Dict.get per_cn cn) + total_of cn (row_moves rows seen).0) % 2 ^ 64
unfolding fold_rows row_moves
received-fold_rows [] seen per_cn cn = ground arith
received-fold_rows (row ∷ rows) seen per_cn cn =
    let d = row_growth (Dict.get seen row.client_id) row in
    ground (
      arith,
      received-fold_rows rows (Dict.put seen row.client_id row) (fold_row per_cn row d) cn,
      received-fold_row per_cn row d cn,
      row_growth-received (Dict.get seen row.client_id) row,
    )

received-fold_ended_sessions :
    (ended : List EndedSession) (seen per_cn : Dict ClientStatus) (cn : String)
    → received (Dict.get (fold_ended_sessions ended seen per_cn).1 cn) % 2 ^ 64
      ≡ (received (Dict.get per_cn cn) + total_of cn (ended_moves ended seen)) % 2 ^ 64
unfolding fold_ended_sessions ended_moves
received-fold_ended_sessions [] seen per_cn cn = ground arith
received-fold_ended_sessions (fin ∷ ended) seen per_cn cn =
    let d = final_growth (Dict.get seen fin.client_id) fin in
    ground (
      arith,
      received-fold_ended_sessions ended (Dict.remove seen fin.client_id) (fold_ended per_cn fin d)
          cn,
      received-fold_ended per_cn fin d cn,
      final_growth-received (Dict.get seen fin.client_id) fin,
    )

fold_rows-seen :
    (rows : List ClientStatus) (seen per_cn : Dict ClientStatus)
    → (fold_rows rows seen per_cn).0 ≡ (row_moves rows seen).1
unfolding fold_rows row_moves
fold_rows-seen [] seen per_cn = refl
fold_rows-seen (row ∷ rows) seen per_cn = fold_rows-seen rows (Dict.put seen row.client_id row) _

-- All that a poll finds moved.
pub moves : List ClientStatus → Poll → Moves
moves rows o =
    let (m, seen) = row_moves rows o.session_seen in m ++ ended_moves o.ended_sessions seen

-- Nothing, if there is no management connection.
abbrev pub found : Option (List ClientStatus) → Poll → Moves
found none o = []
found (some rows) o = moves rows o

total_of-append :
    (cn : String) (ms ns : Moves) → total_of cn (ms ++ ns) ≡ total_of cn ms + total_of cn ns
total_of-append cn [] ns = omega arith
total_of-append cn ((c, n) ∷ ms) ns = ground (arith, total_of-append cn ms ns)

received-poll_growth :
    (rows : List ClientStatus) (o : Poll) (cn : String)
    → received (Dict.get (poll_growth rows o).1 cn) % 2 ^ 64 ≡ total_of cn (moves rows o) % 2 ^ 64
unfolding poll_growth moves received
received-poll_growth rows o cn =
    let r = fold_rows rows o.session_seen Dict.empty in
    let e = fold_rows-seen rows o.session_seen Dict.empty in
    let ended =
      subst
        (λ seen.
          received (Dict.get (fold_ended_sessions o.ended_sessions r.0 r.1).1 cn) % 2 ^ 64
          ≡ (received (Dict.get r.1 cn) + total_of cn (ended_moves o.ended_sessions seen)) % 2 ^ 64)
        e (received-fold_ended_sessions o.ended_sessions r.0 r.1 cn) in
    ground (
      arith,
      received-fold_rows rows o.session_seen Dict.empty cn,
      ended,
      total_of-append cn (row_moves rows o.session_seen).0
          (ended_moves o.ended_sessions (row_moves rows o.session_seen).1),
      get-empty {V = ClientStatus} cn,
    )

received-none :
    (d : Dict ClientStatus) (cn : String)
    → is_some (Dict.get d cn) ≡ false
    → received (Dict.get d cn) ≡ 0
unfolding received
received-none d cn h = ground arith

module _ (extract_ip : String → String) where
  received-fold_growth :
      (key cn : String) (growth : Option ClientStatus) (acc : Poll × List Sample)
      → received (Dict.get (fold_growth extract_ip key growth acc).0.cn_cumulative cn) % 2 ^ 64 ≡ (
          (if key == cn
            then received (Dict.get acc.0.cn_cumulative cn) + received growth
            else received (Dict.get acc.0.cn_cumulative cn))
          % 2 ^ 64)
  unfolding fold_growth received cumulate status_or new_status add_bytes
  received-fold_growth key cn none (o, samples) = ground arith
  received-fold_growth key cn (some growth) (o, samples) = grind (arith, get-put, eq_iff key cn)

  received-fold_growths :
      (per_cn : Dict ClientStatus) (keys : List String) (acc : Poll × List Sample) (cn : String)
      → IsNodup keys
      → received (Dict.get (fold_growths extract_ip per_cn keys acc).0.cn_cumulative cn) % 2 ^ 64
        ≡ ((if contains cn keys
              then received (Dict.get acc.0.cn_cumulative cn) + received (Dict.get per_cn cn)
              else received (Dict.get acc.0.cn_cumulative cn))
            % 2 ^ 64)
  unfolding fold_growths
  received-fold_growths per_cn [] acc cn h = refl
  received-fold_growths per_cn (key ∷ keys) acc cn (fresh, h) =
      let next = fold_growth extract_ip key (Dict.get per_cn key) acc in
      ground (
        arith,
        received-fold_growths per_cn keys next cn h,
        received-fold_growth key cn (Dict.get per_cn key) acc,
        eq_iff key cn,
      )

  send_samples-cumulative :
      (now : Time) (acc : Poll × List Sample)
      → (send_samples extract_ip now acc).cn_cumulative ≡ acc.0.cn_cumulative
  unfolding send_samples
  send_samples-cumulative now (o, samples) = ground arith

  -- A poll adds to what was received from a user, modulo 2 ^ 64, what the rows and the finished
  -- sessions of that user moved: all that a session's first row counts, what a later row counts over
  -- the row before or all of it if the count fell, and what a finished session counts over its last
  -- row or nothing if that is below zero.
  pub collect_stats-received :
      (now : Time) (rows : Option (List ClientStatus)) (o : Poll) (cn : String)
      → received (Dict.get (collect_stats extract_ip now rows o).cn_cumulative cn) % 2 ^ 64
        ≡ (received (Dict.get o.cn_cumulative cn) + total_of cn (found rows o)) % 2 ^ 64
  unfolding collect_stats
  collect_stats-received now none o cn = ground arith
  collect_stats-received now (some rows) o cn =
      let g = poll_growth rows o in
      let start : Poll × List Sample = (record o { session_seen = g.0; ended_sessions = [] }, []) in
      ground (
        arith,
        ap (λ d. received (Dict.get d cn))
            (send_samples-cumulative now (fold_growths extract_ip g.1 (Dict.keys g.1) start)),
        received-fold_growths g.1 (Dict.keys g.1) start cn (keys-IsNodup g.1),
        received-poll_growth rows o cn,
        contains-keys g.1 cn,
        received-none g.1 cn,
      )
