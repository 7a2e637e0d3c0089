-- ===== src/WireGuard/Start/Stored.antt =====
-- backend/wireguard/wireguard.go: what the store holds after a start.
use pasarguard_node.Prelude.{
  String, ◌≡◌, ◌≢◌, refl, sym, ◌∙◌, ap, true, none, some, List, [], inl, inr, Bool-cases, arith,
  map, contains, Option-cases, length, nat_beq,
}
use pasarguard_node.Dict
use pasarguard_node.Dict.{Dict, IsNodup, keys-IsNodup, get-empty}
use pasarguard_node.Sorting.{sort_strings}
use pasarguard_node.WireGuard.Types.{WgTypes, PeerInfo}
use pasarguard_node.WireGuard.Users.{list_values}
use pasarguard_node.WireGuard.PeerStore.{new_peer_store, init}
use pasarguard_node.WireGuard.PeerStore.OneToOne.{IsOneToOne, new_peer_store-IsOneToOne}
use pasarguard_node.WireGuard.PeerStore.Replace.{AreDistinct, last_under, init_lem}
use pasarguard_node.WireGuard.Desired.{DesiredPeer}
use pasarguard_node.WireGuard.Desired.Distinct.{IsSorted}
use pasarguard_node.WireGuard.Diff.{build_sync_diff, finish_diff, target_of}
use pasarguard_node.WireGuard.Diff.Cases.{targeted}
use pasarguard_node.WireGuard.Diff.Patch.{
  IsReady, OwnKeys, upserts, get-upserts, upserts-OwnKeys, found_upserts,
}
use pasarguard_node.WireGuard.SyncParts.{existing_by_key, build_target_peer_configs}
use pasarguard_node.WireGuard.Diff.Keys.{get-target_peers}
use pasarguard_node.WireGuard.Sync.Targets.{get-existing_by_key, contains-build_target_peer_configs}
use pasarguard_node.WireGuard.Sync.Agreement.{ready}
use pasarguard_node.WireGuard.Start.{
  Settings, filter_upserts_by_applied_keys, start_diff, start_peers,
}
use pasarguard_node.WireGuard.Start.Listed.{
  sort_strings-IsNodup, last_under-map, AreDistinct-list_values, keep_applied-all,
}

module _ {w : WgTypes} (c : Settings w) (desired : Dict (DesiredPeer w))
    (reads : (key : w.Key) → w.parse_key (w.key_string key) ≡ some key) (sorted : IsSorted desired)
    (nets : (j : String) (d : DesiredPeer w)
      → Dict.get desired j ≡ some d
      → d.allowed_ip_nets ≢ []) where
  abbrev nobody : Dict (PeerInfo w)
  nobody = existing_by_key new_peer_store

  nobody-IsReady : IsReady nobody desired
  nobody-IsReady = ready new_peer_store desired reads new_peer_store-IsOneToOne sorted nets

  get-nobody : (k : String) → Dict.get nobody k ≡ none
  unfolding new_peer_store
  get-nobody k =
      get-existing_by_key new_peer_store k new_peer_store-IsOneToOne.own_key ∙ get-empty k

  abbrev written : Dict (PeerInfo w)
  written = upserts c.psk nobody desired nobody-IsReady

  get-written : (k : String) → Dict.get written k ≡ targeted (Dict.get desired k)
  get-written k = elim (Option-cases (Dict.get desired k)) [
    | inl gone ↦
        ground (arith, gone, get-nobody k, get-upserts c.psk nobody desired nobody-IsReady k)
    | inr (d, there) ↦ ground (
      arith,
      there,
      get-nobody k,
      get-upserts c.psk nobody desired nobody-IsReady k,
      nobody-IsReady.has_net k d there,
    )
  ]

  written_cases :
      (k : String) (p : PeerInfo w)
      → Dict.get written k ≡ some p
      → (d : DesiredPeer w) × (Dict.get desired k ≡ some d) × (target_of d ≡ p)
  written_cases k p m = elim (Option-cases (Dict.get desired k)) [
    | inl gone ↦ cc (get-written k, gone, m)
    | inr (d, there) ↦
        let same : some (target_of d) ≡ some p =
          ap targeted (sym there) ∙ sym (get-written k) ∙ m in
        (d, there, cc)
  ]

  written-own : OwnKeys written
  written-own = upserts-OwnKeys c.psk nobody desired nobody-IsReady

  written-one_key :
      (j k : String) (p q : PeerInfo w)
      → Dict.get written j ≡ some p
      → Dict.get written k ≡ some q
      → p.email ≡ q.email
      → j ≡ k
  written-one_key j k p q mp mq same =
      let (d, dm, de) = written_cases j p mp in
      let (e, em, ee) = written_cases k q mq in
      sorted.one_key j k d e dm em (ap PeerInfo.email de ∙ same ∙ sym (ap PeerInfo.email ee))

  abbrev applied : List String
  applied = (build_target_peer_configs (start_diff c desired).target_peers c.psk).1

  all_applied :
      (k : String) (p : PeerInfo w) → Dict.get written k ≡ some p → contains k applied ≡ true
  all_applied k p m =
      let (d, there, same) = written_cases k p m in
      ground (
        arith,
        there,
        contains-build_target_peer_configs c.psk (start_diff c desired).target_peers k,
        get-target_peers c.psk nobody desired k,
        nobody-IsReady.has_net k d there,
      )

  start_peers-all : start_peers c desired ≡ map some (start_diff c desired).upsert_peers
  unfolding start_peers filter_upserts_by_applied_keys build_sync_diff finish_diff
  start_peers-all =
      let keys = sort_strings (Dict.keys written) in
      let kept = keep_applied-all written written-own applied all_applied keys in
      elim (Bool-cases (nat_beq (length applied) (length (start_diff c desired).upsert_peers))) [
        | inl same ↦ rw same refl
        | inr differ ↦ rw (differ, kept) refl
      ]

  start_peers-AreDistinct : AreDistinct (start_peers c desired)
  unfolding build_sync_diff finish_diff
  start_peers-AreDistinct = rw start_peers-all (
      AreDistinct-list_values written written-own written-one_key (sort_strings (Dict.keys written))
        (sort_strings-IsNodup (Dict.keys written) (keys-IsNodup written)))

  found : (k : String) → last_under k (start_peers c desired) ≡ targeted (Dict.get desired k)
  unfolding build_sync_diff finish_diff
  found k =
      let keys = sort_strings (Dict.keys written) in
      let distinct =
        AreDistinct-list_values written written-own written-one_key keys
          (sort_strings-IsNodup (Dict.keys written) (keys-IsNodup written)) in
      rw
        (
          start_peers-all,
          last_under-map k (list_values written keys) distinct,
          found_upserts c.psk nobody desired nobody-IsReady k,
        )
        (sym (get-upserts c.psk nobody desired nobody-IsReady k) ∙ get-written k)

  -- The store of a start is one to one and has, under each key, exactly the wanted peer.
  pub start_store :
      IsOneToOne (init new_peer_store (start_peers c desired))
      × ((k : String)
          → Dict.get (init new_peer_store (start_peers c desired)).peers k
            ≡ targeted (Dict.get desired k))
  start_store =
      let (single, stored) = init_lem (start_peers c desired) start_peers-AreDistinct in
      (single, λ k. stored k ∙ found k)
