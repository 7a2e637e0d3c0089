-- ===== src/WireGuard/Sync/Written.antt =====
-- backend/wireguard: the peers that a full sync writes to the store are the wanted ones.
use pasarguard_node.Prelude.{
  String, ◌≡◌, sym, ◌∙◌, Option, none, some, inl, inr, Option-cases, if◌then◌else◌, arith, ap,
}
use pasarguard_node.Dict
use pasarguard_node.Dict.{Dict}
use pasarguard_node.WireGuard.Types.{WgTypes, PeerInfo}
use pasarguard_node.WireGuard.PeerStore.Replace.{AreDistinct, last_under}
use pasarguard_node.WireGuard.Desired.{DesiredPeer}
use pasarguard_node.WireGuard.Desired.Distinct.{IsSorted}
use pasarguard_node.WireGuard.Diff.{build_sync_diff, target_of}
use pasarguard_node.WireGuard.Diff.Cases.{targeted}
use pasarguard_node.WireGuard.Diff.Keys.{get-target_peers}
use pasarguard_node.WireGuard.SyncParts.{build_target_peer_configs}
use pasarguard_node.WireGuard.Sync.Outcome.{targets_of}
use pasarguard_node.WireGuard.Sync.Targets.{
  is_buildable, contains-build_target_peer_configs, last_under-valid_targets,
  valid_targets-AreDistinct,
}

module _ {w : WgTypes} where
  -- A target is a wanted peer.
  pub wanted_target :
      (psk : Option w.Key) (existing : Dict (PeerInfo w)) (desired : Dict (DesiredPeer w))
      (k : String) (p : PeerInfo w)
      → Dict.get (build_sync_diff psk existing desired).target_peers k ≡ some p
      → (d : DesiredPeer w) × (Dict.get desired k ≡ some d) × (target_of d ≡ p)
  wanted_target psk existing desired k p m = elim (Option-cases (Dict.get desired k)) [
    | inl gone ↦ cc (get-target_peers psk existing desired k, m, gone)
    | inr (d, there) ↦
        let same : some (target_of d) ≡ some p =
          ap targeted (sym there) ∙ sym (get-target_peers psk existing desired k) ∙ m in
        (d, there, cc)
  ]

  -- The peers that a full sync puts in the store have emails and keys of their own.
  pub targets_of-AreDistinct :
      (psk : Option w.Key) (existing : Dict (PeerInfo w)) (desired : Dict (DesiredPeer w))
      → IsSorted desired
      → AreDistinct (targets_of (build_sync_diff psk existing desired) psk)
  targets_of-AreDistinct psk existing desired h =
      let diff = build_sync_diff psk existing desired in
      valid_targets-AreDistinct diff.target_peers
        (build_target_peer_configs diff.target_peers psk).1
        (λ k p m.
          let (d, there, same) = wanted_target psk existing desired k p m in
          rw⁻¹ same (h.own_key k d there))
        (λ j k p q mp mq same.
          let (d, dm, de) = wanted_target psk existing desired j p mp in
          let (e, em, ee) = wanted_target psk existing desired k q mq in
          h.one_key j k d e dm em (ap PeerInfo.email de ∙ same ∙ sym (ap PeerInfo.email ee)))

  -- Under each key the full sync puts the wanted peer, if it has a network.
  pub under-targets_of :
      (psk : Option w.Key) (existing : Dict (PeerInfo w)) (desired : Dict (DesiredPeer w))
      (k : String)
      → IsSorted desired
      → last_under k (targets_of (build_sync_diff psk existing desired) psk) ≡ (
          if is_buildable (targeted (Dict.get desired k))
          then targeted (Dict.get desired k)
          else none)
  under-targets_of psk existing desired k h =
      let diff = build_sync_diff psk existing desired in
      ground (
        arith,
        last_under-valid_targets diff.target_peers
            (build_target_peer_configs diff.target_peers psk).1
            (λ k p m.
              let (d, there, same) = wanted_target psk existing desired k p m in
              rw⁻¹ same (h.own_key k d there))
            k,
        contains-build_target_peer_configs psk diff.target_peers k,
        get-target_peers psk existing desired k,
      )
