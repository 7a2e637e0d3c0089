-- ===== src/WireGuard/Start/Examples.antt =====
-- A start on a host without networks, and the theorems about it.
use pasarguard_node.Prelude.{
  String, ◌≡◌, ◌⊎◌, refl, Bool, true, false, Option, none, some, List, [], ◌∷◌,
}
use pasarguard_node.Dict
use pasarguard_node.Dict.{Dict}
use pasarguard_node.User.{User}
use pasarguard_node.Stats.Tracker
use pasarguard_node.Stats.Tracker.{Time}
use pasarguard_node.WireGuard.TestData.{texts, user, wanted, quiet, manager}
use pasarguard_node.WireGuard.Users.{
  should_include_user_in_interface, is_complete, is_empty, collect_last, list_values,
  normalize_users,
}
use pasarguard_node.WireGuard.PeerStore.{new_peer_store, init, get_by_key}
use pasarguard_node.WireGuard.PeerStore.OneToOne.{IsOneToOne}
use pasarguard_node.WireGuard.Desired
use pasarguard_node.WireGuard.Desired.{
  DesiredPeer, collect_desired_peers, collect_users, collect_user, gather, claim, settle_user,
  other_holder, other_owner, peer_ip_allowed_on_interface, in_pools,
}
use pasarguard_node.WireGuard.Diff.Cases.{targeted}
use pasarguard_node.WireGuard.Manager.{configure}
use pasarguard_node.WireGuard.Interface.{
  Lookup, found, not_found, lookup_failed, not_up, Netlink, cleanup_existing_interface, parse_addrs,
  add_addrs, bring_up, clean_up_on_error, initialize_with_peers,
}
use pasarguard_node.WireGuard.Interface.Removal.{
  IsLawful, IsRemovable, is_early, initialize_with_peers-removed,
}
use pasarguard_node.WireGuard.Sync.{WireGuard}
use pasarguard_node.WireGuard.Sync.History.{Event, synced_all, updated, polled, restarted, run}
use pasarguard_node.WireGuard.Start.{Settings, made, running, start_peers, new_wireguard}
use pasarguard_node.WireGuard.Start.Launched.{new_wireguard_stores, run-new_wireguard-IsOneToOne}

abbrev look_up : Bool → Lookup Bool
look_up true = found true
look_up false = not_found

-- Whether the one interface is there; `up` says whether it can be set up.
abbrev host : Option String → Netlink
host up = record {
  Host = Bool;
  Addr = String;
  Link = Bool;
  parse_addr = λ text. some text;
  link_by_name = λ name there. look_up there;
  link_add = λ name there. (true, none);
  link_del = λ link there. (false, none);
  addr_add = λ link addr there. (there, none);
  link_set_up = λ link there. (there, up);
}

abbrev settings : Settings texts
settings = record {
  interface_name = "wg0";
  iface_nets = [];
  private_key = some "private";
  psk = none;
  listen_port = 51820;
  address = "10.0.0.1/24" ∷ [];
}

abbrev sent : List (Option User)
sent = some (user "alice" "k1" "10.0.0.2/32") ∷ none ∷ []

abbrev desired : Dict (DesiredPeer texts)
desired = Dict.put Dict.empty "k1" (wanted "alice" "k1" "10.0.0.2/32")

abbrev launched : WireGuard quiet
launched = record {
  interface_name = "wg0";
  iface_nets = [];
  private_key = some "private";
  psk = none;
  listen_port = 51820;
  running = true;
  manager = some manager;
  peer_store = init new_peer_store (start_peers settings desired);
  stats_tracker = Tracker.new;
}

starts :
    (new_wireguard (host none) (some settings) sent (made manager) none false).1 ≡ running launched
unfolding new_wireguard normalize_users collect_last is_complete is_empty list_values
    collect_desired_peers collect_users collect_user gather claim settle_user other_holder
    other_owner peer_ip_allowed_on_interface should_include_user_in_interface Dict.put Dict.get
    Dict.empty Dict.keys initialize_with_peers parse_addrs cleanup_existing_interface add_addrs
    bring_up clean_up_on_error configure
starts = refl

new_wireguard_stores_example :
    (wishes : Dict (DesiredPeer texts)) × (collect_desired_peers texts "wg0" []
        (normalize_users sent)
      ≡ Desired.ok wishes)
    × IsOneToOne launched.peer_store
    × ((j : String) → get_by_key launched.peer_store j ≡ targeted (Dict.get wishes j))
new_wireguard_stores_example =
    new_wireguard_stores (host none) settings sent (made manager) none false launched (λ key. refl)
      ((λ key e. cc), tt) starts

abbrev history : List (Time × Event)
history =
    (1, synced_all sent)
    ∷ (2, updated (some (user "bob" "k1" "10.0.0.3/32") ∷ []))
    ∷ (3, polled)
    ∷ (4, restarted)
    ∷ []

run-new_wireguard-IsOneToOne_example : IsOneToOne (run history launched).peer_store
run-new_wireguard-IsOneToOne_example =
    run-new_wireguard-IsOneToOne (host none) settings sent (made manager) none false launched
      history (λ key. refl) ((λ key e. cc), tt) starts (((λ key e. cc), tt), (tt, (tt, (tt, tt))))

-- The interface can be added, but not set up.
abbrev refuses : Netlink
refuses = host (some "operation not permitted")

refuses-IsLawful : IsLawful refuses "wg0"
refuses-IsLawful = record { deleted = λ link h f e. refl; refused = λ h e f g. cc }

refuses-IsRemovable : IsRemovable refuses "wg0"
refuses-IsRemovable = record { looked_up = not_failed; deletable = λ link h e. refl }
  where
    not_failed : (h : Bool) (e : String) → ¬ (look_up h ≡ lookup_failed e)
    not_failed true e = cc
    not_failed false e = cc

-- The device is added and configured, cannot be set up, and is taken away again.
initialize_with_peers-removed_example :
    let r =
      initialize_with_peers refuses "wg0" {k = quiet} "private" 51820
        ("10.0.0.1/24" ∷ [])
        []
        manager
        false in
    ((is_early (not_up "operation not permitted") ≡ true) × (r.1 ≡ false))
    ⊎ (refuses.link_by_name "wg0" r.1 ≡ not_found)
unfolding initialize_with_peers parse_addrs cleanup_existing_interface add_addrs bring_up
    clean_up_on_error configure
initialize_with_peers-removed_example =
    initialize_with_peers-removed refuses "wg0" refuses-IsLawful refuses-IsRemovable "private" 51820
      ("10.0.0.1/24" ∷ []) [] manager false (not_up "operation not permitted") refl
