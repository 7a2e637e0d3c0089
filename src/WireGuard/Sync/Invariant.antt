-- ===== src/WireGuard/Sync/Invariant.antt =====
-- backend/wireguard: syncs keep emails and keys one to one, and bring the store to what is wanted.
use pasarguard_node.Prelude.{
  String, ◌≡◌, ◌⊎◌, refl, sym, subst, false, Option, none, some, List, map, inl, inr, Option-cases,
  Bool-cases,
}
use pasarguard_node.Dict
use pasarguard_node.Dict.{Dict}
use pasarguard_node.User.{User}
use pasarguard_node.Stats.Tracker.{Time}
use pasarguard_node.WireGuard.Types.{WgTypes, PeerInfo}
use pasarguard_node.WireGuard.Users.{normalize_users}
use pasarguard_node.WireGuard.Users.Normal.{
  AllSent, normalize_users-AreApart, normalize_users-AllListed,
}
use pasarguard_node.WireGuard.PeerStore.{get_email_map, apply_changes, replace_all}
use pasarguard_node.WireGuard.PeerStore.OneToOne.{IsOneToOne, apply_changes-IsOneToOne}
use pasarguard_node.WireGuard.PeerStore.Replace.{replace_all_lem}
use pasarguard_node.WireGuard.Desired
use pasarguard_node.WireGuard.Desired.{DesiredPeer, collect_desired_peers, Result-cases}
use pasarguard_node.WireGuard.Desired.Distinct.{
  IsCanonical, IsSorted, collect_desired_peers-IsSorted,
}
use pasarguard_node.WireGuard.Diff.{SyncDiff, build_sync_diff}
use pasarguard_node.WireGuard.Manager.{Kernel}
use pasarguard_node.WireGuard.SyncParts.{
  SyncError, clash, existing_by_key, check_owners, existing_subset,
}
use pasarguard_node.WireGuard.Sync.{
  WireGuard, apply_full, reconcile, sync_users_full, sync_users_partial_reconcile,
}
use pasarguard_node.WireGuard.Sync.Outcome.{
  targets_of, replace_peers-Settles, apply_partial-Settles,
}
use pasarguard_node.WireGuard.Sync.Written.{targets_of-AreDistinct}

module _ {w : WgTypes} {k : Kernel w} where
  -- The wanted peers of a full sync, and its diff.
  abbrev pub full_diff : WireGuard k → Dict (DesiredPeer w) → SyncDiff w
  full_diff s desired = build_sync_diff s.psk (existing_by_key s.peer_store) desired

  abbrev pub Fails : WireGuard k → WireGuard k × Option SyncError → Type 0
  Fails s r = (e : SyncError) × (r.1 ≡ some e) × (r.0.peer_store ≡ s.peer_store)

  abbrev pub Fulfils : WireGuard k → WireGuard k × Option SyncError → Dict (DesiredPeer w) → Type 0
  Fulfils s r desired =
      (r.1 ≡ none)
      × (((full_diff s desired).changed ≡ false) × (r.0.peer_store ≡ s.peer_store)
          ⊎ (r.0.peer_store
              ≡ (replace_all s.peer_store (targets_of (full_diff s desired) s.psk)).0))

  apply_full_cases :
      (now : Time) (s : WireGuard k) (desired : Dict (DesiredPeer w))
      → let r = apply_full now (full_diff s desired) s in Fails s r ⊎ Fulfils s r desired
  unfolding apply_full
  apply_full_cases now s desired = elim (Bool-cases (full_diff s desired).changed) [
    | inr same ↦ rw (same, apply_full) (inr (refl, inl (refl, refl)))
    | inl changed ↦
        rw (changed, apply_full)
          (elim (replace_peers-Settles now (full_diff s desired) s) [
            | inl failed ↦ inl failed
            | inr (fine, stored) ↦ inr (fine, inr stored)
          ])
  ]

  pub sync_users_full_cases :
      (now : Time) (users : List (Option User)) (s : WireGuard k)
      → let r = sync_users_full now users s in
        Fails s r
        ⊎ ((desired : Dict (DesiredPeer w)) × (collect_desired_peers w s.interface_name s.iface_nets
                (normalize_users users)
              ≡ Desired.ok desired)
            × Fulfils s r desired)
  unfolding sync_users_full
  sync_users_full_cases now users s =
      elim (Result-cases
        (collect_desired_peers w s.interface_name s.iface_nets (normalize_users users))) [
          | inr (e, bad) ↦ rw (bad, sync_users_full) (inl (clash e, refl, refl))
          | inl (desired, good) ↦
              rw (good, sync_users_full)
                (elim (apply_full_cases now s desired) [
                  | inl failed ↦ inl failed
                  | inr done ↦ inr (desired, refl, done)
                ])
        ]

  abbrev pub Changes : WireGuard k → WireGuard k × Option SyncError → Type 0
  Changes s r =
      (keys : List String) × (peers : List (Option (PeerInfo w))) × (r.1 ≡ none)
      × (r.0.peer_store ≡ (apply_changes s.peer_store keys peers).0)

  reconcile_cases :
      (now : Time) (touched : List String) (desired : Dict (DesiredPeer w)) (s : WireGuard k)
      → let r = reconcile now touched desired s in Fails s r ⊎ Changes s r
  unfolding reconcile
  reconcile_cases now touched desired s =
      let diff = build_sync_diff s.psk (existing_subset s.peer_store touched Dict.empty) desired in
      elim (Option-cases
        (check_owners touched (get_email_map s.peer_store) desired (Dict.keys desired))) [
          | inr (e, taken) ↦ rw (taken, reconcile) (inl (e, refl, refl))
          | inl free ↦
              rw (free, reconcile)
                (elim (apply_partial-Settles now diff s) [
                  | inl failed ↦ inl failed
                  | inr (fine, stored) ↦
                      inr (diff.remove_keys, map some diff.upsert_peers, fine, stored)
                ])
        ]

  pub sync_users_partial_reconcile_cases :
      (now : Time) (users : List (Option User)) (s : WireGuard k)
      → let r = sync_users_partial_reconcile now users s in Fails s r ⊎ Changes s r
  unfolding sync_users_partial_reconcile
  sync_users_partial_reconcile_cases now users s =
      elim (Result-cases
        (collect_desired_peers w s.interface_name s.iface_nets (normalize_users users))) [
          | inr (e, bad) ↦ rw (bad, sync_users_partial_reconcile) (inl (clash e, refl, refl))
          | inl (desired, good) ↦
              rw (good, sync_users_partial_reconcile)
                (reconcile_cases now (map User.email (normalize_users users)) desired s)
        ]

  pub desired-IsSorted :
      (users : List (Option User)) (s : WireGuard k) (desired : Dict (DesiredPeer w))
      → AllSent (λ u e. IsCanonical w u) users
      → collect_desired_peers w s.interface_name s.iface_nets (normalize_users users)
        ≡ Desired.ok desired
      → IsSorted desired
  desired-IsSorted users s desired can good =
      collect_desired_peers-IsSorted s.iface_nets s.interface_name (normalize_users users) desired
        good (normalize_users-AllListed (IsCanonical w) users can) (normalize_users-AreApart users)

  pub sync_users_full-IsOneToOne :
      (now : Time) (users : List (Option User)) (s : WireGuard k)
      → AllSent (λ u e. IsCanonical w u) users
      → IsOneToOne s.peer_store
      → IsOneToOne (sync_users_full now users s).0.peer_store
  sync_users_full-IsOneToOne now users s can h = elim (sync_users_full_cases now users s) [
    | inl (e, _, stored) ↦ subst IsOneToOne (sym stored) h
    | inr (desired, good, (_, inl (_, stored))) ↦ subst IsOneToOne (sym stored) h
    | inr (desired, good, (_, inr stored)) ↦
        subst IsOneToOne (sym stored)
          (replace_all_lem s.peer_store (targets_of (full_diff s desired) s.psk) (
            targets_of-AreDistinct s.psk (existing_by_key s.peer_store) desired
              (desired-IsSorted users s desired can good))).0
  ]

  pub sync_users_partial_reconcile-IsOneToOne :
      (now : Time) (users : List (Option User)) (s : WireGuard k)
      → IsOneToOne s.peer_store
      → IsOneToOne (sync_users_partial_reconcile now users s).0.peer_store
  sync_users_partial_reconcile-IsOneToOne now users s h =
      elim (sync_users_partial_reconcile_cases now users s) [
        | inl (e, _, stored) ↦ subst IsOneToOne (sym stored) h
        | inr (keys, peers, _, stored) ↦
            subst IsOneToOne (sym stored) (apply_changes-IsOneToOne s.peer_store keys peers h)
      ]
