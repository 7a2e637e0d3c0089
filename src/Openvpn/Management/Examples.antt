-- ===== src/Openvpn/Management/Examples.antt =====
-- Lines of a management connection, and the theorems about a client's block at concrete inputs.
use pasarguard_node.Prelude.{
  ◌≡◌, refl, String, ◌==◌, if◌then◌else◌, true, false, none, some, List, [], ◌∷◌, ◌++◌,
}
use pasarguard_node.Int64.{Int64}
use pasarguard_node.Dict
use pasarguard_node.User.{no_proxy, User}
use pasarguard_node.Openvpn.UserStore.{UserStore, new_user_store, replace_all, release_session}
use pasarguard_node.Openvpn.Management.{
  Client, Event, connects, disconnects, env_end, env, row, status_end, parse_line, text_or_empty,
}
use pasarguard_node.Openvpn.Management.Blocks.{
  run, vars_after, answer, asked, totals, connect_block, disconnect_block,
}

abbrev alice : User
alice = record {
  email = "alice";
  proxies = some (record no_proxy { openvpn = some (record { serial = "01"; fingerprint = "f" }) });
  inbounds = "ovpn" ∷ [];
}

abbrev store : UserStore
store = (replace_all (new_user_store "ovpn") (alice ∷ [])).0

abbrev number : String → Int64
number s = if s == "7" then 7 else 0

abbrev client : Client
client = record {
  connected = true;
  pending_cid = "";
  pending_kid = "";
  pending_env = none;
  pending_disconnect = false;
  status_buf = [];
  last_status = [];
  status_ready = false;
  decider = some store;
  sent = [];
  reports = [];
}

abbrev events : List Event
events =
    env (some ("common_name", "alice"))
    ∷ row none
    ∷ status_end
    ∷ env (some ("tls_serial_0", "02"))
    ∷ env (some ("bytes_received", "7"))
    ∷ []

connect_block_example :
    (m' : Client) × (run number (connects "3" "0" ∷ (events ++ env_end ∷ [])) client ≡ m')
    × (m'.sent ≡ answer number "3" "0" (asked number store "3" (vars_after events Dict.empty)) ∷ [])
    × (m'.decider ≡ some (asked number store "3" (vars_after events Dict.empty)).0)
    × (m'.reports ≡ [])
    × (m'.pending_env ≡ none)
connect_block_example = connect_block number client store refl "3" refl events tt refl "0"

disconnect_block_example :
    (m' : Client) × (run number (disconnects "3" ∷ (events ++ env_end ∷ [])) client ≡ m')
    × (m'.reports ≡ totals number "3" (vars_after events Dict.empty) ∷ [])
    × (m'.decider
        ≡ some (
            release_session store
              (text_or_empty (Dict.get (vars_after events Dict.empty) "common_name"))
              "3"))
    × (m'.sent ≡ [])
    × (m'.pending_disconnect ≡ false)
disconnect_block_example = disconnect_block number client store refl "3" refl events tt

parse_line_reads : parse_line number ">CLIENT:CONNECT,3,0" ≡ connects "3" "0"
unfolding parse_line
parse_line_reads = refl

parse_line_reads_env :
    parse_line number ">CLIENT:ENV,common_name=a=b" ≡ env (some ("common_name", "a=b"))
unfolding parse_line
parse_line_reads_env = refl
