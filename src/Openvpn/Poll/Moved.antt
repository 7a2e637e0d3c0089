-- ===== src/Openvpn/Poll/Moved.antt =====
-- backend/openvpn/stats.go: what one session moved between two polls, apart from the code.
use pasarguard_node.Prelude.{◌≡◌, refl, Option, none, some, if◌then◌else◌}
use pasarguard_node.Int64.{Int64, sub64, is_neg}
use pasarguard_node.Openvpn.Poll.{
  ClientStatus, EndedSession, at_least_zero, final_growth, grown, row_growth,
}

-- What a session received by one of its rows: all that the first row counts, what a later one counts
-- over the row before, and all of it again if the count fell.
abbrev pub row_moved : Option ClientStatus → ClientStatus → Int64
row_moved none row = row.bytes_received
row_moved (some before) row =
    let more = sub64 row.bytes_received before.bytes_received in
    if is_neg more then row.bytes_received else more

-- What a finished session received since its last row, and nothing if that is below zero.
abbrev pub ended_moved : Option ClientStatus → EndedSession → Int64
ended_moved none fin = if is_neg fin.rx then 0 else fin.rx
ended_moved (some before) fin =
    let more = sub64 fin.rx before.bytes_received in if is_neg more then 0 else more

pub row_growth-received :
    (before : Option ClientStatus) (row : ClientStatus)
    → (row_growth before row).0 ≡ row_moved before row
unfolding row_growth grown
row_growth-received none row = refl
row_growth-received (some before) row = refl

pub final_growth-received :
    (before : Option ClientStatus) (fin : EndedSession)
    → (final_growth before fin).0 ≡ ended_moved before fin
unfolding final_growth at_least_zero
final_growth-received none fin = refl
final_growth-received (some before) fin = refl
