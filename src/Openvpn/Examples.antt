-- ===== src/Openvpn/Examples.antt =====
-- Tests of the OpenVPN users and polls, and the theorems about them at concrete inputs.
use pasarguard_node.Prelude.{◌+◌, ◌%◌, ◌^◌, ◌≡◌, ◌&&◌, not, Option, some, List, [], ◌∷◌, contains}
use pasarguard_node.Dict
use pasarguard_node.User.{no_proxy, User}
use pasarguard_node.Openvpn.UserStore.{UserStore, new_user_store, replace_all, authorize, has}
use pasarguard_node.Openvpn.UserStore.Allowlist.{admits, last_wanted, replace_all_allowlist}
use pasarguard_node.Openvpn.UserStore.Sessions.{
  Call, connect, release, apply, replace, run, IsConsistent, run-new-IsConsistent,
}
use pasarguard_node.Openvpn.Poll.{ClientStatus, Poll, collect_stats}
use pasarguard_node.Openvpn.Poll.Growth.{received, total_of, found, collect_stats-received}

abbrev alice : User
alice = record {
  email = "alice";
  proxies = some (record no_proxy { openvpn = some (record { serial = "01"; fingerprint = "f" }) });
  inbounds = "ovpn" ∷ [];
}

abbrev revoked : User
revoked = record alice { inbounds = [] }

abbrev one_user : UserStore
one_user = (replace_all (new_user_store "ovpn") (alice ∷ [])).0

replace_all_allowlist_example :
    (authorize (replace_all one_user (revoked ∷ [])).0 "alice" "01"
      ≡ admits (last_wanted one_user (revoked ∷ []) "alice") "01")
    × (contains "alice" (replace_all one_user (revoked ∷ [])).1
        ≡ (has one_user "alice" && not (has (replace_all one_user (revoked ∷ [])).0 "alice")))
replace_all_allowlist_example = replace_all_allowlist one_user (revoked ∷ []) "alice" "01"

abbrev calls : List Call
calls =
    replace (alice ∷ [])
    ∷ connect "alice" "01" "0"
    ∷ connect "alice" "02" "1"
    ∷ release "alice" "7"
    ∷ apply revoked
    ∷ []

run-new-IsConsistent_example : IsConsistent (run (new_user_store "ovpn") calls)
run-new-IsConsistent_example = run-new-IsConsistent "ovpn" calls

abbrev row : ClientStatus
row = record {
  common_name = "alice";
  real_address = "192.0.2.1:1194";
  bytes_received = 100;
  bytes_sent = 50;
  client_id = "0";
}

abbrev first_poll : Poll
first_poll = record {
  session_seen = Dict.put Dict.empty "0" row;
  cn_cumulative = Dict.put Dict.empty "alice" row;
  ended_sessions =
      record { client_id = "0"; common_name = "alice"; rx = 160; tx = 60 }
      ∷ record { client_id = "1"; common_name = "alice"; rx = 5; tx = 5 }
      ∷ [];
  total_rx = 100;
  total_tx = 50;
  stats_tracker = Dict.empty;
}

abbrev rows : Option (List ClientStatus)
rows = some (record row { bytes_received = 150 } ∷ [])

collect_stats-received_example :
    received (Dict.get (collect_stats (λ a. a) 9 rows first_poll).cn_cumulative "alice") % 2 ^ 64
    ≡ (received (Dict.get first_poll.cn_cumulative "alice")
        + total_of "alice" (found rows first_poll))
      % 2 ^ 64
collect_stats-received_example = collect_stats-received (λ a. a) 9 rows first_poll "alice"
