-- ===== src/WireGuard/Sync/Outcome.antt =====
-- backend/wireguard: what a sync does to the peer store, or the error that it reports.
use pasarguard_node.Prelude.{
  String, ◌≡◌, ◌⊎◌, refl, subst, Option, none, some, List, map, inl, inr, is_nil, Option-cases,
  Bool-cases, arith,
}
use pasarguard_node.Dict
use pasarguard_node.Dict.{Dict}
use pasarguard_node.Stats.Tracker.{Time}
use pasarguard_node.WireGuard.Types.{WgTypes, PeerInfo}
use pasarguard_node.WireGuard.PeerStore.{PeerStore, apply_changes, replace_all}
use pasarguard_node.WireGuard.Diff.{SyncDiff}
use pasarguard_node.WireGuard.Manager.{Kernel, Manager, apply_peers, apply_peers_replace_all}
use pasarguard_node.WireGuard.SyncParts.{
  SyncError, apply_failed, not_started, no_manager, build_target_peer_configs, valid_targets,
}
use pasarguard_node.WireGuard.Sync.{
  WireGuard, with_manager, batch, sample_departing_peers, settle_store, commit, replace_peers,
  apply_partial,
}

module _ {w : WgTypes} where
  -- The peers that a full sync puts in the store.
  abbrev pub targets_of : SyncDiff w → Option w.Key → List (Option (PeerInfo w))
  targets_of diff psk =
      valid_targets diff.target_peers (build_target_peer_configs diff.target_peers psk).1
        (Dict.keys diff.target_peers)

module _ {w : WgTypes} {k : Kernel w} where
  -- An error, with the store as it was, or no error, with the changed store.
  abbrev pub Settles : PeerStore w → PeerStore w → WireGuard k × Option SyncError → Type 0
  Settles old new r =
      ((e : SyncError) × (r.1 ≡ some e) × (r.0.peer_store ≡ old))
      ⊎ ((r.1 ≡ none) × (r.0.peer_store ≡ new))

  pub store-sample_departing_peers :
      (now : Time) (keys : List String) (s : WireGuard k)
      → (sample_departing_peers now keys s).peer_store ≡ s.peer_store
  unfolding sample_departing_peers batch
  store-sample_departing_peers now keys s = ground arith

  commit-Settles :
      (s : WireGuard k) (change : PeerStore w → PeerStore w × List String)
      (r : Manager k × Option String)
      → Settles s.peer_store (change s.peer_store).0 (commit s change r)
  unfolding commit settle_store
  commit-Settles s change (m, none) = inr (refl, refl)
  commit-Settles s change (m, some e) = inl (apply_failed e, refl, refl)

  with_manager-Settles :
      (s : WireGuard k) (new : PeerStore w) (f : Manager k → WireGuard k × Option SyncError)
      → ((m : Manager k) → Settles s.peer_store new (f m))
      → Settles s.peer_store new (with_manager s f)
  unfolding with_manager
  with_manager-Settles s new f h = elim (Bool-cases s.running) [
    | inr stopped ↦ rw (stopped, with_manager) (inl (not_started, refl, refl))
    | inl runs ↦ elim (Option-cases s.manager) [
      | inl gone ↦ rw (runs, gone, with_manager) (inl (no_manager, refl, refl))
      | inr (m, here) ↦ rw (runs, here, with_manager) (h m)
    ]
  ]

  pub replace_peers-Settles :
      (now : Time) (diff : SyncDiff w) (s : WireGuard k)
      → Settles s.peer_store
          (replace_all s.peer_store (targets_of diff s.psk)).0
          (replace_peers now diff s)
  unfolding replace_peers
  replace_peers-Settles now diff s =
      let s' = sample_departing_peers now diff.remove_keys s in
      let (configs, applied) = build_target_peer_configs diff.target_peers s.psk in
      let change : PeerStore w → PeerStore w × List String =
        λ ps. replace_all ps (targets_of diff s.psk) in
      subst (λ (ps : PeerStore w). Settles ps (change ps).0 (replace_peers now diff s))
        (store-sample_departing_peers now diff.remove_keys s)
        (with_manager-Settles s' (change s'.peer_store).0 _
          λ m. commit-Settles s' change (apply_peers_replace_all configs m))

  pub apply_partial-Settles :
      (now : Time) (diff : SyncDiff w) (s : WireGuard k)
      → Settles s.peer_store
          (apply_changes s.peer_store diff.remove_keys (map some diff.upsert_peers)).0
          (apply_partial now diff s)
  unfolding apply_partial
  apply_partial-Settles now diff s =
      let s' = sample_departing_peers now diff.remove_keys s in
      let change : PeerStore w → PeerStore w × List String =
        λ ps. apply_changes ps diff.remove_keys (map some diff.upsert_peers) in
      subst (λ (ps : PeerStore w). Settles ps (change ps).0 (apply_partial now diff s))
        (store-sample_departing_peers now diff.remove_keys s)
        (elim (Bool-cases (is_nil diff.peer_configs)) [
          | inl nothing ↦ rw (nothing, apply_partial) (inr (refl, refl))
          | inr some_configs ↦
              rw (some_configs, apply_partial)
                (with_manager-Settles s' (change s'.peer_store).0 _
                  λ m. commit-Settles s' change (apply_peers diff.peer_configs m))
        ])
