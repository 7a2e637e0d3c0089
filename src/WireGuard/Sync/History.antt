-- ===== src/WireGuard/Sync/History.antt =====
-- backend/wireguard: the peer store over any history of syncs, polls and restarts.
use pasarguard_node.Prelude.{
  String, ◌≡◌, refl, sym, subst, Bool, true, false, Option, none, some, List, [], ◌∷◌, inl, inr,
  arith, Option-cases, Bool-cases,
}
use pasarguard_node.User.{User}
use pasarguard_node.Stats.Tracker.{Time}
use pasarguard_node.WireGuard.Types.{WgTypes}
use pasarguard_node.WireGuard.Users.Normal.{AllSent}
use pasarguard_node.WireGuard.PeerStore.OneToOne.{IsOneToOne}
use pasarguard_node.WireGuard.PeerStore.{get_all}
use pasarguard_node.WireGuard.Diff.{PeerConfig}
use pasarguard_node.WireGuard.Desired.Distinct.{IsCanonical}
use pasarguard_node.WireGuard.Manager.{Kernel, Manager, apply_config}
use pasarguard_node.WireGuard.SyncParts.{SyncError, restart_configs, order_peers}
use pasarguard_node.WireGuard.Sync.{
  WireGuard, with_manager, answer_of, apply_restart, restart, sync_user, sync_users_full,
  sync_users_partial_reconcile, then_restart, update_users_and_restart, update_connected_peers,
  batch,
}
use pasarguard_node.WireGuard.Sync.Invariant.{
  sync_users_full_cases, sync_users_partial_reconcile_cases, sync_users_full-IsOneToOne,
  sync_users_partial_reconcile-IsOneToOne,
}

-- UpdateUsers is `updated`, SyncUsers is `synced_all`.
pub data Event : Type 0 where
  synced : Option User → Event
  synced_all updated updated_and_restarted : List (Option User) → Event
  polled restarted : Event

abbrev pub restarts_after : Event → Bool
restarts_after (updated_and_restarted users) = true
restarts_after _ = false

module _ (w : WgTypes) where
  -- What the keys of an event's users must be: SyncUsers needs them written the way a key prints.
  abbrev pub IsClean : Event → Type 0
  IsClean (synced_all users) = AllSent (λ u e. IsCanonical w u) users
  IsClean _ = Unit

  abbrev pub AreClean : List (Time × Event) → Type 0
  AreClean [] = Unit
  AreClean ((now, e) ∷ es) = IsClean e × AreClean es

module _ {w : WgTypes} {k : Kernel w} where
  unfoldable pub step : Time → Event → WireGuard k → WireGuard k × Option SyncError
  step now (synced user) s = sync_user now user s
  step now (synced_all users) s = sync_users_full now users s
  step now (updated users) s = sync_users_partial_reconcile now users s
  step now (updated_and_restarted users) s = update_users_and_restart now users s
  step now polled s = (update_connected_peers now s, none)
  step now restarted s = restart s

  pub run : List (Time × Event) → WireGuard k → WireGuard k
  run [] s = s
  run ((now, e) ∷ es) s = run es (step now e s).0

  store-update_connected_peers :
      (now : Time) (s : WireGuard k) → (update_connected_peers now s).peer_store ≡ s.peer_store
  unfolding update_connected_peers batch
  store-update_connected_peers now s = ground arith

  store-answer_of :
      (s : WireGuard k) (r : Manager k × Option String)
      → (answer_of s r).0.peer_store ≡ s.peer_store
  unfolding answer_of
  store-answer_of s (m, none) = refl
  store-answer_of s (m, some e) = refl

  store-with_manager :
      (s : WireGuard k) (f : Manager k → WireGuard k × Option SyncError)
      → ((m : Manager k) → (f m).0.peer_store ≡ s.peer_store)
      → (with_manager s f).0.peer_store ≡ s.peer_store
  unfolding with_manager
  store-with_manager s f h = elim (Bool-cases s.running) [
    | inr stopped ↦ rw (stopped, with_manager) refl
    | inl runs ↦ elim (Option-cases s.manager) [
      | inl gone ↦ rw (runs, gone, with_manager) refl
      | inr (m, here) ↦ rw (runs, here, with_manager) (h m)
    ]
  ]

  store-apply_restart :
      (key : w.Key) (r : List (PeerConfig w) × Option String) (s : WireGuard k)
      → (apply_restart key r s).0.peer_store ≡ s.peer_store
  unfolding apply_restart
  store-apply_restart key (configs, some email) s = refl
  store-apply_restart key (configs, none) s =
      store-with_manager s _ λ m. store-answer_of s (apply_config _ m)

  store-restart : (s : WireGuard k) → (restart s).0.peer_store ≡ s.peer_store
  unfolding restart
  store-restart s = elim (Option-cases s.private_key) [
    | inl gone ↦ rw (gone, restart) refl
    | inr (key, here) ↦
        rw (here, restart)
          (store-apply_restart key (restart_configs s.psk (order_peers (get_all s.peer_store))) s)
  ]

  then_restart-IsOneToOne :
      (r : WireGuard k × Option SyncError)
      → IsOneToOne r.0.peer_store
      → IsOneToOne (then_restart r).0.peer_store
  unfolding then_restart
  then_restart-IsOneToOne (s, some e) h = h
  then_restart-IsOneToOne (s, none) h = subst IsOneToOne (sym (store-restart s)) h

  step-IsOneToOne :
      (now : Time) (e : Event) (s : WireGuard k)
      → IsClean w e
      → IsOneToOne s.peer_store
      → IsOneToOne (step now e s).0.peer_store
  unfolding step sync_user update_users_and_restart
  step-IsOneToOne now (synced none) s c h = h
  step-IsOneToOne now (synced (some u)) s c h =
      sync_users_partial_reconcile-IsOneToOne now (some u ∷ []) s h
  step-IsOneToOne now (synced_all users) s c h = sync_users_full-IsOneToOne now users s c h
  step-IsOneToOne now (updated users) s c h = sync_users_partial_reconcile-IsOneToOne now users s h
  step-IsOneToOne now (updated_and_restarted users) s c h =
      then_restart-IsOneToOne (sync_users_partial_reconcile now users s)
        (sync_users_partial_reconcile-IsOneToOne now users s h)
  step-IsOneToOne now polled s c h = subst IsOneToOne (sym (store-update_connected_peers now s)) h
  step-IsOneToOne now restarted s c h = subst IsOneToOne (sym (store-restart s)) h

  -- Over any history of syncs, updates, polls and restarts, failed ones included, emails and keys
  -- of the store stay one to one, if the users of every full sync have public keys written the way
  -- a key prints.
  pub run-IsOneToOne :
      (es : List (Time × Event)) (s : WireGuard k)
      → AreClean w es
      → IsOneToOne s.peer_store
      → IsOneToOne (run es s).peer_store
  unfolding run
  run-IsOneToOne [] s c h = h
  run-IsOneToOne ((now, e) ∷ es) s (c, cs) h =
      run-IsOneToOne es (step now e s).0 cs (step-IsOneToOne now e s c h)

  -- An operation that reports an error leaves the peer store as it was, except for
  -- UpdateUsersAndRestart, whose update may succeed before its restart fails.
  pub step_failed :
      (now : Time) (ev : Event) (s : WireGuard k) (e : SyncError)
      → restarts_after ev ≡ false
      → (step now ev s).1 ≡ some e
      → (step now ev s).0.peer_store ≡ s.peer_store
  unfolding step sync_user
  step_failed now (synced none) s e r h = refl
  step_failed now (synced (some u)) s e r h =
      elim (sync_users_partial_reconcile_cases now (some u ∷ []) s) [
        | inl (_, _, stored) ↦ stored
        | inr (keys, peers, fine, _) ↦ cc (fine, h)
      ]
  step_failed now (synced_all users) s e r h = elim (sync_users_full_cases now users s) [
    | inl (_, _, stored) ↦ stored
    | inr (desired, good, (fine, _)) ↦ cc (fine, h)
  ]
  step_failed now (updated users) s e r h = elim (sync_users_partial_reconcile_cases now users s) [
    | inl (_, _, stored) ↦ stored
    | inr (keys, peers, fine, _) ↦ cc (fine, h)
  ]
  step_failed now (updated_and_restarted users) s e r h = cc
  step_failed now polled s e r h = store-update_connected_peers now s
  step_failed now restarted s e r h = store-restart s
