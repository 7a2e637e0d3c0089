-- ===== src/Openvpn/Management/Blocks.antt =====
-- backend/openvpn/mgmt.go: a client's block of lines, with other output in between.
use pasarguard_node.Prelude.{
  String, ◌≡◌, refl, ◌∙◌, ap, Bool, true, false, none, some, List, [], ◌∷◌, ◌++◌, arith, ◌==◌,
  if◌then◌else◌,
}
use pasarguard_node.Int64.{Int64}
use pasarguard_node.Dict
use pasarguard_node.Dict.{Dict}
use pasarguard_node.Openvpn.UserStore.{UserStore, try_connect, release_session}
use pasarguard_node.Openvpn.Management.{
  Command, client_auth_nt, client_deny, Report, Client, Event, connects, disconnects, env_end, env,
  row, status_end, other, text_or_empty, send, decide, answer_connect, finish_connect,
  finish_disconnect, report, put_env, handle,
}

-- The variables that the events set, after those that are set.
abbrev pub vars_after : List Event → Dict String → Dict String
vars_after [] vars = vars
vars_after (env (some (k, v)) ∷ events) vars = vars_after events (Dict.put vars k v)
vars_after (_ ∷ events) vars = vars_after events vars

-- Output within a block: variables, and the rows and the end of a status.
abbrev pub AllWithin : List Event → Type 0
AllWithin [] = Unit
AllWithin (env pair ∷ events) = AllWithin events
AllWithin (row status ∷ events) = AllWithin events
AllWithin (status_end ∷ events) = AllWithin events
AllWithin (other ∷ events) = AllWithin events
AllWithin (connects cid kid ∷ events) = ⊥
AllWithin (disconnects cid ∷ events) = ⊥
AllWithin (env_end ∷ events) = ⊥

-- The block of m with the variables, whatever became of the status.
record IsPending (m : Client) (vars : Dict String) (m' : Client) : Type 0 where
  same_connected : m'.connected ≡ m.connected
  same_cid : m'.pending_cid ≡ m.pending_cid
  same_kid : m'.pending_kid ≡ m.pending_kid
  same_disconnect : m'.pending_disconnect ≡ m.pending_disconnect
  same_decider : m'.decider ≡ m.decider
  same_sent : m'.sent ≡ m.sent
  same_reports : m'.reports ≡ m.reports
  has_vars : m'.pending_env ≡ some vars

module _ (parse_int : String → Int64) where
  abbrev pub run : List Event → Client → Client
  run [] m = m
  run (e ∷ events) m = run events (handle parse_int e m)

  run-append : (xs ys : List Event) (m : Client) → run (xs ++ ys) m ≡ run ys (run xs m)
  run-append [] ys m = refl
  run-append (x ∷ xs) ys m = run-append xs ys (handle parse_int x m)

  run-IsPending :
      (events : List Event) (m0 m : Client) (vars : Dict String)
      → AllWithin events
      → IsPending m0 vars m
      → IsPending m0 (vars_after events vars) (run events m)
  unfolding handle put_env
  run-IsPending [] m0 m vars w p = p
  run-IsPending (env none ∷ events) m0 m vars w p =
      let next : IsPending m0 vars (handle parse_int (env none) m) = ground arith in
      run-IsPending events m0 (handle parse_int (env none) m) vars w next
  run-IsPending (env (some (k, v)) ∷ events) m0 m vars w p =
      let set = handle parse_int (env (some (k, v))) m in
      let next : IsPending m0 (Dict.put vars k v) set = ground arith in
      run-IsPending events m0 set (Dict.put vars k v) w next
  run-IsPending (row status ∷ events) m0 m vars w p =
      let next : IsPending m0 vars (handle parse_int (row status) m) = ground arith in
      run-IsPending events m0 (handle parse_int (row status) m) vars w next
  run-IsPending (status_end ∷ events) m0 m vars w p =
      let next : IsPending m0 vars (handle parse_int status_end m) = ground arith in
      run-IsPending events m0 (handle parse_int status_end m) vars w next
  run-IsPending (other ∷ events) m0 m vars w p = run-IsPending events m0 m vars w p
  run-IsPending (connects cid kid ∷ events) m0 m vars w p = absurd w
  run-IsPending (disconnects cid ∷ events) m0 m vars w p = absurd w
  run-IsPending (env_end ∷ events) m0 m vars w p = absurd w

  -- The command that answers a client's block.
  abbrev pub answer : String → String → UserStore × (Bool × String) → Command
  answer cid kid (store, (allowed, reason)) =
      if allowed then client_auth_nt cid kid else client_deny cid kid reason

  abbrev pub asked : UserStore → String → Dict String → UserStore × (Bool × String)
  asked store cid vars =
      try_connect store (text_or_empty (Dict.get vars "common_name"))
        (text_or_empty (Dict.get vars "tls_serial_0")) cid

  answer_connect-fields :
      (cid kid : String) (r : UserStore × (Bool × String)) (c : Client)
      → c.connected ≡ true
      → ((answer_connect cid kid r c).sent ≡ answer cid kid r ∷ c.sent)
        × ((answer_connect cid kid r c).decider ≡ some r.0)
        × ((answer_connect cid kid r c).reports ≡ c.reports)
        × ((answer_connect cid kid r c).pending_env ≡ c.pending_env)
  unfolding answer_connect send
  answer_connect-fields cid kid (store, (allowed, reason)) c h = ground arith

  decide-fields :
      (cid kid : String) (vars : Dict String) (store : UserStore) (c : Client)
      → c.connected ≡ true
      → c.decider ≡ some store
      → ((decide cid kid vars c).sent ≡ answer cid kid (asked store cid vars) ∷ c.sent)
        × ((decide cid kid vars c).decider ≡ some (asked store cid vars).0)
        × ((decide cid kid vars c).reports ≡ c.reports)
        × ((decide cid kid vars c).pending_env ≡ c.pending_env)
  unfolding decide answer_connect
  decide-fields cid kid vars store c h d =
      rw (d, decide) (answer_connect-fields cid kid (asked store cid vars) c h)

  env_end-connect :
      (vars : Dict String) (store : UserStore) (b : Client)
      → b.connected ≡ true
      → b.pending_disconnect ≡ false
      → b.pending_env ≡ some vars
      → (b.pending_cid == "") ≡ false
      → b.decider ≡ some store
      → ((handle parse_int env_end b).sent
          ≡ answer b.pending_cid b.pending_kid (asked store b.pending_cid vars) ∷ b.sent)
        × ((handle parse_int env_end b).decider ≡ some (asked store b.pending_cid vars).0)
        × ((handle parse_int env_end b).reports ≡ b.reports)
        × ((handle parse_int env_end b).pending_env ≡ none)
  unfolding handle
  env_end-connect vars store b con dis has_env cid dec =
      let cleared = record b { pending_cid = ""; pending_kid = ""; pending_env = none } in
      rw (dis, has_env, finish_connect, cid)
        (decide-fields b.pending_cid b.pending_kid vars store cleared con dec)

  -- The totals of a client that left, as its block gives them.
  abbrev pub totals : String → Dict String → Report
  totals cid vars = record {
    client_id = cid;
    common_name = text_or_empty (Dict.get vars "common_name");
    rx = parse_int (text_or_empty (Dict.get vars "bytes_received"));
    tx = parse_int (text_or_empty (Dict.get vars "bytes_sent"));
  }

  env_end-disconnect :
      (vars : Dict String) (store : UserStore) (b : Client)
      → b.pending_disconnect ≡ true
      → b.pending_env ≡ some vars
      → (b.pending_cid == "") ≡ false
      → b.decider ≡ some store
      → ((handle parse_int env_end b).reports ≡ totals b.pending_cid vars ∷ b.reports)
        × ((handle parse_int env_end b).decider
            ≡ some
                (release_session store (text_or_empty (Dict.get vars "common_name")) b.pending_cid))
        × ((handle parse_int env_end b).sent ≡ b.sent)
        × ((handle parse_int env_end b).pending_disconnect ≡ false)
  unfolding handle report
  env_end-disconnect vars store b dis has_env cid dec =
      rw (dis, has_env, finish_disconnect, cid, dec) (refl, refl, refl, refl)

  module _ (m : Client) (store : UserStore) (decides : m.decider ≡ some store) (cid : String)
      (named : (cid == "") ≡ false) (events : List Event) (within : AllWithin events) where
    block-IsPending :
        (e : Event)
        → (handle parse_int e m).pending_env ≡ some Dict.empty
        → IsPending
            (handle parse_int e m)
            (vars_after events Dict.empty)
            (run events (handle parse_int e m))
    block-IsPending e opens =
        let first = handle parse_int e m in
        let fresh : IsPending first Dict.empty first = ground arith in
        run-IsPending events first first Dict.empty within fresh

    -- A connecting client's block, whatever status is reported within it, is answered once: with
    -- what tryConnect says of the common name and the serial that the block sets last. The store is
    -- the one that tryConnect leaves, and nothing is reported. The connection is up, the core has a
    -- store, and the client id is not empty.
    pub connect_block :
        m.connected ≡ true
        → (kid : String)
        → (m' : Client) × (run (connects cid kid ∷ (events ++ env_end ∷ [])) m ≡ m')
          × (m'.sent ≡ answer cid kid (asked store cid (vars_after events Dict.empty)) ∷ m.sent)
          × (m'.decider ≡ some (asked store cid (vars_after events Dict.empty)).0)
          × (m'.reports ≡ m.reports)
          × (m'.pending_env ≡ none)
    unfolding handle
    connect_block is_connected kid =
        let first = handle parse_int (connects cid kid) m in
        let before = run events first in
        let p = block-IsPending (connects cid kid) refl in
        let vars = vars_after events Dict.empty in
        let r =
          env_end-connect vars store before (p.same_connected ∙ is_connected) p.same_disconnect
            p.has_vars (ap (λ c. c == "") p.same_cid ∙ named) (p.same_decider ∙ decides) in
        let same_cid : before.pending_cid ≡ cid = p.same_cid in
        let same_kid : before.pending_kid ≡ kid = p.same_kid in
        let same_sent : before.sent ≡ m.sent = p.same_sent in
        (
          handle parse_int env_end before,
          run-append events (env_end ∷ []) first,
          r.0 ∙ cc (same_cid, same_kid, same_sent),
          r.1 ∙ cc same_cid,
          r.2 ∙ p.same_reports,
          r.3,
        )

    -- A block of a client that left, whatever status is reported within it, is reported once with
    -- the totals that the block sets last, releases the client's session, and sends nothing. The
    -- core has a store, and the client id is not empty.
    pub disconnect_block :
        (m' : Client) × (run (disconnects cid ∷ (events ++ env_end ∷ [])) m ≡ m')
        × (m'.reports ≡ totals cid (vars_after events Dict.empty) ∷ m.reports)
        × (m'.decider
            ≡ some (
                release_session store
                  (text_or_empty (Dict.get (vars_after events Dict.empty) "common_name"))
                  cid))
        × (m'.sent ≡ m.sent)
        × (m'.pending_disconnect ≡ false)
    unfolding handle
    disconnect_block =
        let first = handle parse_int (disconnects cid) m in
        let before = run events first in
        let p = block-IsPending (disconnects cid) refl in
        let vars = vars_after events Dict.empty in
        let r =
          env_end-disconnect vars store before p.same_disconnect p.has_vars
            (ap (λ c. c == "") p.same_cid ∙ named) (p.same_decider ∙ decides) in
        let same_cid : before.pending_cid ≡ cid = p.same_cid in
        let same_reports : before.reports ≡ m.reports = p.same_reports in
        (
          handle parse_int env_end before,
          run-append events (env_end ∷ []) first,
          r.0 ∙ cc (same_cid, same_reports),
          r.1 ∙ cc same_cid,
          r.2 ∙ p.same_sent,
          r.3,
        )
