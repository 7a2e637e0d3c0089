-- ===== src/Openvpn/Management.antt =====
-- backend/openvpn/mgmt.go: the management connection of an OpenVPN daemon, which asks whether a client
-- may connect and reports clients that left. ParseInt is an argument. The commands that are sent
-- stand newest first, and so do the reports to onSessionEnd.
pub mod Blocks
mod Examples
use text.Mathlib.Text.{starts_with}
use Prim.Native.Char.{Char, code}
use pasarguard_node.Prelude.{
  ℕ, String, Bool, true, false, not, ◌&&◌, ◌||◌, Option, none, some, List, [], ◌∷◌, ◌++◌, ◌==◌,
  if◌then◌else◌, nat_beq, is_some,
}
use pasarguard_node.Int64.{Int64}
use pasarguard_node.Dict
use pasarguard_node.Dict.{Dict}
use pasarguard_node.Openvpn.Poll.{ClientStatus}
use pasarguard_node.Openvpn.UserStore.{UserStore, try_connect, release_session}

pub data Command : Type 0 where
  client_auth_nt : String → String → Command
  client_deny : String → String → String → Command
  kill_name : String → Command
  client_kill : String → Command

pub record Report : Type 0 where
  pub client_id : String
  pub common_name : String
  pub rx : Int64
  pub tx : Int64

pub record Client : Type 0 where
  pub connected : Bool
  pub pending_cid : String
  pub pending_kid : String
  pub pending_env : Option (Dict String)
  pub pending_disconnect : Bool
  pub status_buf : List ClientStatus
  pub last_status : List ClientStatus
  pub status_ready : Bool
  pub decider : Option UserStore
  pub sent : List Command
  pub reports : List Report

-- What a line says.
pub data Event : Type 0 where
  connects : String → String → Event
  disconnects : String → Event
  env_end : Event
  env : Option (String × String) → Event
  row : Option ClientStatus → Event
  status_end : Event
  other : Event

-- The parts before and behind the first separator, if there is one.
unfoldable pub cut : ℕ → String → Option (String × String)
cut sep String.[] = none
cut sep (String.◌∷◌ c s) =
    let rest = cut sep s in
    if nat_beq (code c) sep
    then some ("", s)
    else elim rest [ none ↦ none | some (k, v) ↦ some (String.◌∷◌ c k, v) ]

-- strings.SplitN(s, ",", 2): the second part is empty if there is none.
unfoldable pub halves : String → Option (String × String) → String × String
halves s none = (s, "")
halves s (some parts) = parts

unfoldable pub behind : String → Option (String × String) → String
behind s none = s
behind s (some (k, v)) = v

-- line[strings.IndexByte(line, ',')+1:]
unfoldable pub behind_comma : String → String
unfolding behind cut
behind_comma line = behind line (cut 44 line)

unfoldable pub push_char : Char → List String → List String
push_char c [] = String.◌∷◌ c String.[] ∷ []
push_char c (f ∷ fs) = String.◌∷◌ c f ∷ fs

-- strings.Split(line, "\t")
unfoldable pub split_tabs : String → List String
unfolding push_char
split_tabs String.[] = "" ∷ []
split_tabs (String.◌∷◌ c s) =
    let rest = split_tabs s in if nat_beq (code c) 9 then "" ∷ rest else push_char c rest

-- Sends nothing without a connection.
unfoldable pub send : Command → Client → Client
send c m = if m.connected then record m { sent = c ∷ m.sent } else m

unfoldable pub kill : String → Client → Client
unfolding send
kill common_name m = if common_name == "" then m else send (kill_name common_name) m

unfoldable pub kill_client : String → Client → Client
unfolding send
kill_client cid m = if cid == "" then m else send (client_kill cid) m

-- An absent key of the environment reads as the empty text.
unfoldable pub text_or_empty : Option String → String
text_or_empty none = ""
text_or_empty (some s) = s

unfoldable pub answer_connect : String → String → UserStore × (Bool × String) → Client → Client
unfolding send
answer_connect cid kid (store, (allowed, reason)) m =
    send (if allowed then client_auth_nt cid kid else client_deny cid kid reason)
      (record m { decider = some store })

unfoldable pub decide : String → String → Dict String → Client → Client
unfolding answer_connect text_or_empty send
decide cid kid vars m = elim m.decider [
  | none ↦ send (client_deny cid kid "unauthorized") m
  | some store ↦
      answer_connect cid kid
        (try_connect store (text_or_empty (Dict.get vars "common_name"))
          (text_or_empty (Dict.get vars "tls_serial_0")) cid)
        m
]

unfoldable pub finish_connect : Client → Client
unfolding decide
finish_connect m =
    let cleared = record m { pending_cid = ""; pending_kid = ""; pending_env = none } in
    elim m.pending_env [
      | none ↦ cleared
      | some vars ↦
          if m.pending_cid == "" then cleared else decide m.pending_cid m.pending_kid vars cleared
    ]

module _ (parse_int : String → Int64) where
  -- onSessionEnd is not nil: openvpn.go sets it before the connection is read.
  unfoldable pub report : String → Dict String → Client → Client
  unfolding text_or_empty
  report cid vars m =
      let cn = text_or_empty (Dict.get vars "common_name") in
      record m {
        reports =
            record {
              client_id = cid;
              common_name = cn;
              rx = parse_int (text_or_empty (Dict.get vars "bytes_received"));
              tx = parse_int (text_or_empty (Dict.get vars "bytes_sent"));
            }
            ∷ m.reports;
        decider = elim m.decider [ none ↦ none | some store ↦ some (release_session store cn cid) ];
      }

  unfoldable pub finish_disconnect : Client → Client
  unfolding report
  finish_disconnect m =
      let cleared = record m {
        pending_cid = "";
        pending_kid = "";
        pending_env = none;
        pending_disconnect = false;
      } in
      elim m.pending_env [
        | none ↦ cleared
        | some vars ↦ if m.pending_cid == "" then cleared else report m.pending_cid vars cleared
      ]

  unfoldable pub put_env : Option (String × String) → Option (Dict String) → Option (Dict String)
  put_env none pending = pending
  put_env (some (k, v)) none = none
  put_env (some (k, v)) (some vars) = some (Dict.put vars k v)

  unfoldable pub add_row : Option ClientStatus → List ClientStatus → List ClientStatus
  add_row none rows = rows
  add_row (some cs) rows = rows ++ cs ∷ []

  unfoldable pub handle : Event → Client → Client
  unfolding finish_connect finish_disconnect put_env add_row
  handle (connects cid kid) m = record m {
    pending_cid = cid;
    pending_kid = kid;
    pending_disconnect = false;
    pending_env = some Dict.empty;
  }
  handle (disconnects cid) m = record m {
    pending_cid = cid;
    pending_kid = "";
    pending_disconnect = true;
    pending_env = some Dict.empty;
  }
  handle env_end m = if m.pending_disconnect then finish_disconnect m else finish_connect m
  handle (env pair) m = record m { pending_env = put_env pair m.pending_env }
  handle (row status) m = record m { status_buf = add_row status m.status_buf }
  handle status_end m = record m {
    last_status = m.status_buf;
    status_buf = [];
    status_ready = true;
  }
  handle other m = m

  -- A row of at least 11 fields.
  unfoldable pub parse_fields : List String → Option ClientStatus
  parse_fields
        (_ ∷ (name ∷ (real ∷ (virtual ∷ (v6 ∷ (rx ∷ (tx ∷ (since ∷ (t ∷ (user ∷ (id ∷ _))))))))))) =
      some (record {
        common_name = name;
        real_address = real;
        bytes_received = parse_int rx;
        bytes_sent = parse_int tx;
        client_id = id;
      })
  parse_fields _ = none

  unfoldable pub parse_line : String → Event
  unfolding behind_comma halves cut split_tabs parse_fields
  parse_line line =
      if starts_with line ">CLIENT:CONNECT," || starts_with line ">CLIENT:REAUTH,"
      then (let parts = halves (behind_comma line) (cut 44 (behind_comma line)) in
          connects parts.0 parts.1)
      else if starts_with line ">CLIENT:DISCONNECT,"
      then disconnects (halves (behind_comma line) (cut 44 (behind_comma line))).0
      else if starts_with line ">CLIENT:ENV,"
      then (if behind_comma line == "END" then env_end else env (cut 61 (behind_comma line)))
      else if starts_with line "CLIENT_LIST\t"
      then row (parse_fields (split_tabs line))
      else if line == "END"
      then status_end
      else other

  unfoldable pub handle_line : String → Client → Client
  unfolding handle parse_line
  handle_line line m = handle (parse_line line) m
