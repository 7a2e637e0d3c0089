-- ===== src/L2tp/Poll/Growth.antt =====
-- backend/l2tp/stats.go: what a poll adds to what a user received.
use pasarguard_node.Prelude.{
  ℕ, ◌+◌, ◌%◌, ◌^◌, String, ◌≡◌, refl, ◌∙◌, ap, sym, Bool, false, ◌||◌, none, List, [], ◌∷◌, arith,
  ◌==◌, eq_iff, if◌then◌else◌, is_some, contains, Bool-cases, inl, inr,
}
use pasarguard_node.Int64.{Int64}
use pasarguard_node.Stats.Tracker.{Time}
use pasarguard_node.Dict
use pasarguard_node.Dict.{Dict, get-put, get-empty, contains-keys, keys-IsNodup, IsNodup}
use pasarguard_node.L2tp.Poll.{
  Session, FinalRecord, Reading, Poll, Tick, amount, add_to, group, sessions_of, final_growth,
  keep_user, settle_final, settle_finals, session_growth, read_session, read_sessions, bill_user,
  bill_users, own_sessions, own_finals, gather, finish, poll,
}
use pasarguard_node.L2tp.Poll.Moved.{
  final_moved, session_moved, ours, our_finals, own_sessions-ours, own_finals-our_finals,
  final_growth-rx, session_growth-rx,
}

-- What the ended sessions of a user moved, each over the last reading of its interface, which it
-- takes away.
pub finals_rx : String → Dict Reading → List FinalRecord → ℕ
finals_rx e seen [] = 0
finals_rx e seen (fin ∷ fins) =
    (if fin.user == e then final_moved (Dict.get seen fin.ifname) fin else 0)
    + finals_rx e (Dict.remove seen fin.ifname) fins

-- The readings that the ended sessions leave.
pub forget : Dict Reading → List FinalRecord → Dict Reading
forget seen [] = seen
forget seen (fin ∷ fins) = forget (Dict.remove seen fin.ifname) fins

-- What the live sessions of a user moved, each over the last reading of its interface.
pub sessions_rx : (String → Reading) → String → Dict Reading → List Session → ℕ
sessions_rx iface_bytes e seen [] = 0
sessions_rx iface_bytes e seen (s ∷ ss) =
    let now = iface_bytes s.ifname in
    (if s.user == e then session_moved (Dict.get seen s.ifname) now else 0)
    + sessions_rx iface_bytes e (Dict.put seen s.ifname now) ss

ended : String → List FinalRecord → Bool
ended e [] = false
ended e (fin ∷ fins) = fin.user == e || ended e fins

live : String → List Session → Bool
live e [] = false
live e (s ∷ ss) = s.user == e || live e ss

amount-add_to :
    (m : Dict Int64) (key : String) (d : Int64) (e : String)
    → amount (Dict.get (add_to m key d) e) % 2 ^ 64
      ≡ (amount (Dict.get m e) + (if key == e then d else 0)) % 2 ^ 64
unfolding add_to amount
amount-add_to m key d e = grind (arith, get-put, eq_iff key e)

growth-settle_finals :
    (fins : List FinalRecord) (t : Tick) (e : String)
    → amount (Dict.get (settle_finals fins t).growth_rx e) % 2 ^ 64
      ≡ (amount (Dict.get t.growth_rx e) + finals_rx e t.seen fins) % 2 ^ 64
unfolding settle_finals settle_final finals_rx
growth-settle_finals [] t e = omega arith
growth-settle_finals (fin ∷ fins) t e = ground (
  arith,
  growth-settle_finals fins (settle_final fin t) e,
  amount-add_to t.growth_rx fin.user (final_growth (Dict.get t.seen fin.ifname) fin).rx e,
  final_growth-rx (Dict.get t.seen fin.ifname) fin,
)

seen-settle_finals :
    (fins : List FinalRecord) (t : Tick) → (settle_finals fins t).seen ≡ forget t.seen fins
unfolding settle_finals settle_final forget
seen-settle_finals [] t = refl
seen-settle_finals (fin ∷ fins) t = seen-settle_finals fins (settle_final fin t)

users-settle_finals :
    (fins : List FinalRecord) (t : Tick) (e : String)
    → is_some (Dict.get (settle_finals fins t).per_user e)
      ≡ (is_some (Dict.get t.per_user e) || ended e fins)
unfolding settle_finals settle_final keep_user ended
users-settle_finals [] t e = ground arith
users-settle_finals (fin ∷ fins) t e = ground (
  arith,
  users-settle_finals fins (settle_final fin t) e,
  get-put t.per_user fin.user e [],
  eq_iff fin.user e,
)

growth-read_sessions :
    (iface_bytes : String → Reading) (ss : List Session) (t : Tick) (e : String)
    → amount (Dict.get (read_sessions iface_bytes ss t).growth_rx e) % 2 ^ 64
      ≡ (amount (Dict.get t.growth_rx e) + sessions_rx iface_bytes e t.seen ss) % 2 ^ 64
unfolding read_sessions read_session sessions_rx
growth-read_sessions iface_bytes [] t e = omega arith
growth-read_sessions iface_bytes (s ∷ ss) t e = ground (
  arith,
  growth-read_sessions iface_bytes ss (read_session (iface_bytes s.ifname) s t) e,
  amount-add_to t.growth_rx s.user
      (session_growth (Dict.get t.seen s.ifname) (iface_bytes s.ifname)).rx e,
  session_growth-rx (Dict.get t.seen s.ifname) (iface_bytes s.ifname),
)

users-read_sessions :
    (iface_bytes : String → Reading) (ss : List Session) (t : Tick)
    → (read_sessions iface_bytes ss t).per_user ≡ t.per_user
unfolding read_sessions read_session
users-read_sessions iface_bytes [] t = refl
users-read_sessions iface_bytes (s ∷ ss) t =
    users-read_sessions iface_bytes ss (read_session (iface_bytes s.ifname) s t)

users-group :
    (ss : List Session) (m : Dict (List Session)) (e : String)
    → is_some (Dict.get (group ss m) e) ≡ (is_some (Dict.get m e) || live e ss)
unfolding group live
users-group [] m e = ground arith
users-group (s ∷ ss) m e = ground (
  arith,
  users-group ss m e,
  get-put (group ss m) s.user e (s ∷ sessions_of (Dict.get (group ss m) s.user)),
)

none_ended :
    (fins : List FinalRecord) (seen : Dict Reading) (e : String)
    → ended e fins ≡ false
    → finals_rx e seen fins ≡ 0
unfolding ended finals_rx
none_ended [] seen e h = refl
none_ended (fin ∷ fins) seen e h =
    ground (arith, h, none_ended fins (Dict.remove seen fin.ifname) e)

none_live :
    (iface_bytes : String → Reading) (ss : List Session) (seen : Dict Reading) (e : String)
    → live e ss ≡ false
    → sessions_rx iface_bytes e seen ss ≡ 0
unfolding live sessions_rx
none_live iface_bytes [] seen e h = refl
none_live iface_bytes (s ∷ ss) seen e h =
    ground (arith, h, none_live iface_bytes ss (Dict.put seen s.ifname (iface_bytes s.ifname)) e)

received-bill_users :
    (t : Tick) (users : List String) (o : Poll) (e : String)
    → IsNodup users
    → amount (Dict.get (bill_users t users o).cum_rx e) % 2 ^ 64
      ≡ (amount (Dict.get o.cum_rx e)
          + (if contains e users then amount (Dict.get t.growth_rx e) else 0))
        % 2 ^ 64
unfolding bill_users bill_user
received-bill_users t [] o e d = omega arith
received-bill_users t (user ∷ users) o e (fresh, d) = ground (
  arith,
  fresh,
  received-bill_users t users (bill_user t user o) e d,
  amount-add_to o.cum_rx user (amount (Dict.get t.growth_rx user)) e,
  eq_iff user e,
)

amount-none : amount none ≡ 0
unfolding amount
amount-none = refl

growth-gather :
    (iface_bytes : String → Reading) (ss : List Session) (fins : List FinalRecord) (o : Poll)
    (e : String)
    → amount (Dict.get (gather iface_bytes ss fins o).growth_rx e) % 2 ^ 64
      ≡ (finals_rx e o.if_seen fins + sessions_rx iface_bytes e (forget o.if_seen fins) ss) % 2 ^ 64
unfolding gather
growth-gather iface_bytes ss fins o e =
    let t : Tick = record {
      seen = o.if_seen;
      growth_rx = Dict.empty;
      growth_tx = Dict.empty;
      per_user = group ss Dict.empty;
    } in
    let nothing : amount (Dict.get t.growth_rx e) ≡ 0 =
      ap amount (get-empty {V = Int64} e) ∙ amount-none in
    let late = growth-read_sessions iface_bytes ss (settle_finals fins t) e in
    let same =
      ap (λ (m : Dict Reading). sessions_rx iface_bytes e m ss) (seen-settle_finals fins t) in
    omega (arith, nothing, growth-settle_finals fins t e, late, same)

users-gather :
    (iface_bytes : String → Reading) (ss : List Session) (fins : List FinalRecord) (o : Poll)
    (e : String)
    → contains e (Dict.keys (gather iface_bytes ss fins o).per_user) ≡ (live e ss || ended e fins)
unfolding gather
users-gather iface_bytes ss fins o e =
    let t : Tick = record {
      seen = o.if_seen;
      growth_rx = Dict.empty;
      growth_tx = Dict.empty;
      per_user = group ss Dict.empty;
    } in
    ground (
      arith,
      contains-keys (gather iface_bytes ss fins o).per_user e,
      ap (λ (m : Dict (List Session)). is_some (Dict.get m e))
          (users-read_sessions iface_bytes ss (settle_finals fins t)),
      users-settle_finals fins t e,
      users-group ss Dict.empty e,
      get-empty {V = List Session} e,
    )

-- A poll adds to what was received from a user, as a sum of 64 bits, what the ended sessions of
-- this core received, each over the last reading of its interface or nothing if that is below zero,
-- and then what its live sessions received: all that a first reading counts, and what a later one
-- counts over the last or all of it if the count fell. An interface that an ended session had starts
-- anew. A core's sessions are those with its tag or with none.
pub poll-received :
    (now : Time) (iface_bytes : String → Reading) (sessions : List Session)
    (finals : List FinalRecord) (o : Poll) (e : String)
    → let live_ones = ours o.inbound_tag sessions in
      let fins = our_finals o.inbound_tag finals in
      amount (Dict.get (poll now iface_bytes sessions finals o).cum_rx e) % 2 ^ 64
      ≡ (amount (Dict.get o.cum_rx e)
          + (finals_rx e o.if_seen fins
              + sessions_rx iface_bytes e (forget o.if_seen fins) live_ones))
        % 2 ^ 64
unfolding poll finish
poll-received now iface_bytes sessions finals o e =
    let live_ones = own_sessions o.inbound_tag sessions in
    let fins = own_finals o.inbound_tag finals in
    let same = own_sessions-ours o.inbound_tag sessions in
    let same_fins = own_finals-our_finals o.inbound_tag finals in
    let t = gather iface_bytes live_ones fins o in
    let billed = received-bill_users t (Dict.keys t.per_user) o e (keys-IsNodup t.per_user) in
    rw (sym same, sym same_fins)
      elim (Bool-cases (live e live_ones || ended e fins)) [
        | inl there ↦ ground (
          arith,
          billed,
          users-gather iface_bytes live_ones fins o e,
          there,
          growth-gather iface_bytes live_ones fins o e,
        )
        | inr absent ↦ ground (
          arith,
          billed,
          users-gather iface_bytes live_ones fins o e,
          absent,
          none_ended fins o.if_seen e,
          none_live iface_bytes live_ones (forget o.if_seen fins) e,
        )
      ]
