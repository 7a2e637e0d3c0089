-- ===== src/L2tp/Poll/Examples.antt =====
-- A poll that finds an ended session and a live one on one interface.
use pasarguard_node.Prelude.{◌+◌, ◌%◌, ◌^◌, ◌≡◌, String, [], ◌∷◌}
use pasarguard_node.Dict
use pasarguard_node.L2tp.Poll.{Session, FinalRecord, Reading, Poll, amount, poll}
use pasarguard_node.L2tp.Poll.Moved.{ours, our_finals}
use pasarguard_node.L2tp.Poll.Growth.{finals_rx, forget, sessions_rx, poll-received}

abbrev counters : String → Reading
counters ifname = record { rx = 7; tx = 9 }

abbrev session : Session
session = record {
  user = "bob";
  ifname = "ppp0";
  tunnel_ip = "10.9.0.2";
  client_ip = "";
  tag = "l2tp";
}

abbrev ended_session : FinalRecord
ended_session = record { user = "alice"; tag = ""; ifname = "ppp0"; rx = 30; tx = 40 }

abbrev before : Poll
before = record {
  inbound_tag = "l2tp";
  if_seen = Dict.put Dict.empty "ppp0" (record { rx = 10; tx = 10 });
  cum_rx = Dict.empty;
  cum_tx = Dict.empty;
  total_rx = 0;
  total_tx = 0;
  online_ips = Dict.empty;
  stats_tracker = Dict.empty;
}

poll-received_example :
    let live_ones = ours "l2tp" (session ∷ []) in
    let fins = our_finals "l2tp" (ended_session ∷ []) in
    amount (Dict.get (poll 1 counters (session ∷ []) (ended_session ∷ []) before).cum_rx "alice")
      % 2 ^ 64
    ≡ (amount (Dict.get before.cum_rx "alice")
        + (finals_rx "alice" before.if_seen fins
            + sessions_rx counters "alice" (forget before.if_seen fins) live_ones))
      % 2 ^ 64
poll-received_example = poll-received 1 counters (session ∷ []) (ended_session ∷ []) before "alice"
