-- ===== src/WireGuard/Sync/Agreement.antt =====
-- backend/wireguard: after a full sync the store holds what the users want.
use pasarguard_node.Prelude.{
  String, ◌≡◌, ◌≢◌, refl, sym, ◌∙◌, subst, true, false, Option, none, some, List, [], ◌∷◌, inl, inr,
  is_nil, Option-cases, eq_refl,
}
use pasarguard_node.Dict
use pasarguard_node.Dict.{Dict}
use pasarguard_node.User.{User}
use pasarguard_node.Stats.Tracker.{Time}
use pasarguard_node.WireGuard.Types.{WgTypes, PeerInfo}
use pasarguard_node.WireGuard.Users.{normalize_users}
use pasarguard_node.WireGuard.Users.Normal.{AllSent}
use pasarguard_node.WireGuard.PeerStore.{PeerStore, key_of, get_by_key}
use pasarguard_node.WireGuard.PeerStore.OneToOne.{IsOneToOne}
use pasarguard_node.WireGuard.PeerStore.Replace.{replace_all_lem}
use pasarguard_node.WireGuard.Desired
use pasarguard_node.WireGuard.Desired.{DesiredPeer, collect_desired_peers, ok-injective}
use pasarguard_node.WireGuard.Desired.Distinct.{IsCanonical, IsSorted}
use pasarguard_node.WireGuard.Desired.Wanted.{collect_desired_peers_valid}
use pasarguard_node.WireGuard.Diff.{target_of}
use pasarguard_node.WireGuard.Diff.Cases.{targeted}
use pasarguard_node.WireGuard.Diff.Patch.{IsReady, agree, same_nets_refl, build_sync_diff-unchanged}
use pasarguard_node.WireGuard.Manager.{Kernel}
use pasarguard_node.WireGuard.SyncParts.{SyncError, existing_by_key}
use pasarguard_node.WireGuard.Sync.{WireGuard, sync_users_full}
use pasarguard_node.WireGuard.Sync.Outcome.{targets_of}
use pasarguard_node.WireGuard.Sync.Targets.{get-existing_by_key}
use pasarguard_node.WireGuard.Sync.Written.{under-targets_of, targets_of-AreDistinct}
use pasarguard_node.WireGuard.Sync.Invariant.{
  full_diff, Fulfils, sync_users_full_cases, desired-IsSorted,
}

pub is_nil_not {ℓ} : {A : Type ℓ} (l : List A) → l ≢ [] → is_nil l ≡ false
is_nil_not [] h = elim (h refl) [ ]
is_nil_not (x ∷ l) h = refl

module _ {w : WgTypes} where
  pub agree_refl : (o : Option (PeerInfo w)) → agree o o ≡ true
  agree_refl none = refl
  agree_refl (some p) = rw (eq_refl p.email, same_nets_refl w p.allowed_ips) refl

  -- A store whose peers stand under their own keys, and wanted peers with networks.
  pub ready :
      (ps : PeerStore w) (desired : Dict (DesiredPeer w))
      → ((key : w.Key) → w.parse_key (w.key_string key) ≡ some key)
      → IsOneToOne ps
      → IsSorted desired
      → ((j : String) (d : DesiredPeer w) → Dict.get desired j ≡ some d → d.allowed_ip_nets ≢ [])
      → IsReady (existing_by_key ps) desired
  ready ps desired reads h sorted nets = record {
    own_key = sorted.own_key;
    has_net = λ j d m. is_nil_not d.allowed_ip_nets (nets j d m);
    parses = λ j m. elim (Option-cases (Dict.get ps.peers j)) [
      | inl gone ↦ cc (get-existing_by_key ps j h.own_key, gone, m)
      | inr (p, there) ↦
          let under : key_of p ≡ j = rw there at (h.own_key j) in
          rw⁻¹ under (rw (reads p.public_key) refl)
    ];
  }

module _ {w : WgTypes} {k : Kernel w} where
  fulfilled :
      (s : WireGuard k) (r : WireGuard k × Option SyncError) (desired : Dict (DesiredPeer w))
      → ((key : w.Key) → w.parse_key (w.key_string key) ≡ some key)
      → IsOneToOne s.peer_store
      → IsSorted desired
      → ((j : String) (d : DesiredPeer w) → Dict.get desired j ≡ some d → d.allowed_ip_nets ≢ [])
      → Fulfils s r desired
      → (j : String)
      → agree (Dict.get r.0.peer_store.peers j) (targeted (Dict.get desired j)) ≡ true
  fulfilled s r desired reads h sorted nets (_, inl (same, stored)) j =
      rw (stored, ← get-existing_by_key s.peer_store j h.own_key)
        (build_sync_diff-unchanged s.psk (existing_by_key s.peer_store) desired
          (ready s.peer_store desired reads h sorted nets) same j)
  fulfilled s r desired reads h sorted nets (_, inr stored) j =
      let (_, put, _) =
        replace_all_lem s.peer_store (targets_of (full_diff s desired) s.psk)
          (targets_of-AreDistinct s.psk (existing_by_key s.peer_store) desired sorted) in
      rw (stored, put j, under-targets_of s.psk (existing_by_key s.peer_store) desired j sorted)
        (elim (Option-cases (Dict.get desired j)) [
          | inl gone ↦ rw gone refl
          | inr (d, there) ↦
              rw (there, is_nil_not d.allowed_ip_nets (nets j d there))
                (agree_refl (some (target_of d)))
        ])

  -- A full sync that reports no error leaves in a one-to-one store, under every key, a peer that
  -- agrees with the one that the users want, and none where they want none, if the texts that a
  -- key prints as parse to it and the users' public keys are written so.
  pub sync_users_full_agrees :
      (now : Time) (users : List (Option User)) (s : WireGuard k) (desired : Dict (DesiredPeer w))
      → ((key : w.Key) → w.parse_key (w.key_string key) ≡ some key)
      → AllSent (λ u e. IsCanonical w u) users
      → IsOneToOne s.peer_store
      → collect_desired_peers w s.interface_name s.iface_nets (normalize_users users)
        ≡ Desired.ok desired
      → (sync_users_full now users s).1 ≡ none
      → (j : String)
      → agree
          (get_by_key (sync_users_full now users s).0.peer_store j)
          (targeted (Dict.get desired j))
        ≡ true
  unfolding get_by_key
  sync_users_full_agrees now users s desired reads can h good fine j =
      elim (sync_users_full_cases now users s) [
        | inl (e, failed, _) ↦ cc (fine, failed)
        | inr (d, good', done) ↦
            let same : d ≡ desired = ok-injective (sym good' ∙ good) in
            let valid =
              collect_desired_peers_valid w s.iface_nets s.interface_name (normalize_users users)
                desired good in
            fulfilled s (sync_users_full now users s) desired reads h
              (desired-IsSorted users s desired can good) (λ i p m. (valid i p m).2)
              (subst (Fulfils s (sync_users_full now users s)) same done) j
      ]
