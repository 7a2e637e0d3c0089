-- ===== src/WireGuard/Start/Launched.antt =====
-- backend/wireguard/wireguard.go: what New leaves, if it succeeds, and the histories from there
-- on.
use pasarguard_node.Prelude.{
  String, ◌≡◌, sym, ◌∙◌, ap, subst, Option, none, some, List, inl, inr, Option-cases,
}
use pasarguard_node.Dict
use pasarguard_node.Dict.{Dict}
use pasarguard_node.User.{User}
use pasarguard_node.Stats.Tracker.{Time}
use pasarguard_node.WireGuard.Types.{WgTypes}
use pasarguard_node.WireGuard.Users.{normalize_users}
use pasarguard_node.WireGuard.Users.Normal.{
  AllSent, normalize_users-AreApart, normalize_users-AllListed,
}
use pasarguard_node.WireGuard.PeerStore.{PeerStore, new_peer_store, init, get_by_key}
use pasarguard_node.WireGuard.PeerStore.OneToOne.{IsOneToOne}
use pasarguard_node.WireGuard.Desired
use pasarguard_node.WireGuard.Desired.{DesiredPeer, collect_desired_peers, Result-cases}
use pasarguard_node.WireGuard.Desired.Distinct.{IsCanonical, collect_desired_peers-IsSorted}
use pasarguard_node.WireGuard.Desired.Wanted.{collect_desired_peers_valid}
use pasarguard_node.WireGuard.Diff.Cases.{targeted}
use pasarguard_node.WireGuard.Manager.{Kernel, Manager}
use pasarguard_node.WireGuard.Interface.{Netlink, InitError, initialize_with_peers}
use pasarguard_node.WireGuard.SyncParts.{build_target_peer_configs}
use pasarguard_node.WireGuard.Sync.{WireGuard}
use pasarguard_node.WireGuard.Sync.History.{Event, AreClean, run, run-IsOneToOne}
use pasarguard_node.WireGuard.Start.{
  Settings, Made, made, refused, Started, running, failed, start_diff, start_peers, initialized,
  launch, with_key, with_config, new_wireguard,
}
use pasarguard_node.WireGuard.Start.Stored.{start_store}

module _ (nl : Netlink) {w : WgTypes} {k : Kernel w} where
  -- The start ran through with the wanted peers, and the store has been filled with them.
  abbrev IsFilled : Settings w → WireGuard k → Dict (DesiredPeer w) → Type 0
  IsFilled c s desired = s.peer_store ≡ init new_peer_store (start_peers c desired)

  initialized_cases :
      (c : Settings w) (desired : Dict (DesiredPeer w)) (answer : Option String)
      (r : Manager k × nl.Host × Option InitError) (s : WireGuard k)
      → (initialized nl c desired answer r).1 ≡ running s
      → IsFilled c s desired
  unfolding initialized
  initialized_cases c desired answer (m, h, some e) s f = cc
  initialized_cases c desired answer (m, h, none) s f = ap store_of (sym f)
    where
      store_of : Started k → PeerStore w
      store_of (running t) = t.peer_store
      store_of (failed e) = init new_peer_store (start_peers c desired)

  launch_cases :
      (c : Settings w) (key : w.Key) (desired : Dict (DesiredPeer w)) (manager : Made k)
      (answer : Option String) (h : nl.Host) (s : WireGuard k)
      → (launch nl c key desired manager answer h).1 ≡ running s
      → IsFilled c s desired
  unfolding launch
  launch_cases c key desired (refused e) answer h s f = cc
  launch_cases c key desired (made m) answer h s f =
      let (configs, applied) =
        build_target_peer_configs (start_diff c desired).target_peers c.psk in
      initialized_cases c desired answer
        (initialize_with_peers nl c.interface_name key c.listen_port c.address configs m h) s f

  with_config_cases :
      (c : Settings w) (users : List (Option User)) (manager : Made k) (answer : Option String)
      (h : nl.Host) (s : WireGuard k)
      → (with_config nl c users manager answer h).1 ≡ running s
      → (desired : Dict (DesiredPeer w)) × (collect_desired_peers w c.interface_name c.iface_nets
            (normalize_users users)
          ≡ Desired.ok desired)
        × IsFilled c s desired
  unfolding with_config with_key
  with_config_cases c users manager answer h s f = elim (Option-cases c.private_key) [
    | inl gone ↦ cc (rw (gone, with_config) at f)
    | inr (key, here) ↦
        elim (Result-cases
          (collect_desired_peers w c.interface_name c.iface_nets (normalize_users users))) [
            | inr (e, bad) ↦ cc (rw (here, with_config, bad, with_key) at f)
            | inl (desired, good) ↦ (
              desired,
              good,
              launch_cases c key desired manager answer h s
                  (rw (here, with_config, good, with_key) at f),
            )
          ]
  ]

  -- If New succeeds, the users want a set of peers without a clash, and the store is one to one and
  -- has, under each key, exactly the wanted peer, if the texts that a key prints as parse to it and
  -- the users' public keys are written so.
  pub new_wireguard_stores :
      (c : Settings w) (users : List (Option User)) (manager : Made k) (answer : Option String)
      (h : nl.Host) (s : WireGuard k)
      → ((key : w.Key) → w.parse_key (w.key_string key) ≡ some key)
      → AllSent (λ u e. IsCanonical w u) users
      → (new_wireguard nl (some c) users manager answer h).1 ≡ running s
      → (desired : Dict (DesiredPeer w)) × (collect_desired_peers w c.interface_name c.iface_nets
            (normalize_users users)
          ≡ Desired.ok desired)
        × IsOneToOne s.peer_store
        × ((j : String) → get_by_key s.peer_store j ≡ targeted (Dict.get desired j))
  unfolding new_wireguard get_by_key
  new_wireguard_stores c users manager answer h s reads can f =
      let (desired, good, filled) = with_config_cases c users manager answer h s f in
      let sorted =
        collect_desired_peers-IsSorted c.iface_nets c.interface_name (normalize_users users) desired
          good (normalize_users-AllListed (IsCanonical w) users can)
          (normalize_users-AreApart users) in
      let valid =
        collect_desired_peers_valid w c.iface_nets c.interface_name (normalize_users users) desired
          good in
      let (single, stored) = start_store c desired reads sorted (λ i p m. (valid i p m).2) in
      (
        desired,
        good,
        subst IsOneToOne (sym filled) single,
        λ j. ap (λ (ps : PeerStore w). Dict.get ps.peers j) filled ∙ stored j,
      )

  -- From a New that succeeds on, over any history of syncs, updates, polls and restarts, failed ones
  -- included, emails and keys of the store stay one to one, if the texts that a key prints as parse
  -- to it and the users of New and of every full sync have public keys written so.
  pub run-new_wireguard-IsOneToOne :
      (c : Settings w) (users : List (Option User)) (manager : Made k) (answer : Option String)
      (h : nl.Host) (s : WireGuard k) (es : List (Time × Event))
      → ((key : w.Key) → w.parse_key (w.key_string key) ≡ some key)
      → AllSent (λ u e. IsCanonical w u) users
      → (new_wireguard nl (some c) users manager answer h).1 ≡ running s
      → AreClean w es
      → IsOneToOne (run es s).peer_store
  run-new_wireguard-IsOneToOne c users manager answer h s es reads can f clean =
      let (_, _, single, _) = new_wireguard_stores c users manager answer h s reads can f in
      run-IsOneToOne es s clean single
