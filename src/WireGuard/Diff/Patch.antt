-- ===== src/WireGuard/Diff/Patch.antt =====
-- backend/wireguard/user_common.go: the diff turns the existing peers into the desired ones.
use pasarguard_node.Prelude.{
  is_nil, String, ◌≡◌, ◌∙◌, sym, refl, Bool, true, false, ◌&&◌, Option, none, some, List, [], ◌∷◌,
  arith, ◌==◌, eq_iff, eq_refl, inl, inr, Option-cases, if◌then◌else◌, contains, is_some,
}
use pasarguard_node.Dict
use pasarguard_node.Dict.{Dict, get-put, get-empty, contains-keys}
use pasarguard_node.Sorting.{sort_strings, contains-sort_strings}
use pasarguard_node.WireGuard.Types.{WgTypes, PeerInfo}
use pasarguard_node.WireGuard.Users.{list_values}
use pasarguard_node.WireGuard.Desired.{DesiredPeer}
use pasarguard_node.WireGuard.Diff.{
  SyncDiff, same_nets, target_of, build_targets, build_removals, gather_changes, finish_diff,
  build_sync_diff,
}
use pasarguard_node.WireGuard.Diff.Cases.{or_else, targeted, removal, upsert}
use pasarguard_node.WireGuard.Diff.Keys.{
  removed-gather_changes, upserted-gather_changes, get-build_targets,
}

is_nil→nil {ℓ} : {A : Type ℓ} (l : List A) → is_nil l ≡ true → l ≡ []
is_nil→nil [] h = refl
is_nil→nil (x ∷ l) h = cc

module _ (w : WgTypes) where
  contains-build_removals :
      (keys : List String) (k : String)
      → contains k (build_removals {w = w} keys).0 ≡ (contains k keys && is_some (w.parse_key k))
  unfolding build_removals
  contains-build_removals [] k = refl
  contains-build_removals (key ∷ keys) k = elim (Option-cases (w.parse_key key)) [
    | inl e ↦
        rw (e, build_removals) (ground (arith, e, eq_iff key k, contains-build_removals keys k))
    | inr (p, e) ↦
        rw (e, build_removals) (ground (arith, e, eq_iff key k, contains-build_removals keys k))
  ]

  pub same_nets_refl : (ns : List w.Net) → same_nets w ns ns ≡ true
  same_nets_refl [] = refl
  same_nets_refl (n ∷ ns) = rw (eq_refl, same_nets_refl ns)

module _ {w : WgTypes} where
  -- The first peer of a list under a key.
  abbrev pub find_key : String → List (PeerInfo w) → Option (PeerInfo w)
  find_key k [] = none
  find_key k (p ∷ ps) = if w.key_string p.public_key == k then some p else find_key k ps

  -- Every peer of a map stands under its own key.
  abbrev pub OwnKeys : Dict (PeerInfo w) → Type 0
  OwnKeys d = (k : String) (p : PeerInfo w) → Dict.get d k ≡ some p → w.key_string p.public_key ≡ k

  find_key-list_values :
      (d : Dict (PeerInfo w)) (keys : List String) (k : String)
      → OwnKeys d
      → find_key k (list_values d keys) ≡ (if contains k keys then Dict.get d k else none)
  unfolding list_values
  find_key-list_values d [] k own = refl
  find_key-list_values d (key ∷ keys) k own = elim (Option-cases (Dict.get d key)) [
    | inl e ↦
        rw (e, list_values) (ground (arith, e, eq_iff key k, find_key-list_values d keys k own))
    | inr (p, e) ↦
        rw (e, list_values)
          (ground (arith, e, own key p e, eq_iff key k, find_key-list_values d keys k own))
  ]

  -- Two peers agree in all that the panel decides: the email, and the addresses in their text.
  abbrev pub agree : Option (PeerInfo w) → Option (PeerInfo w) → Bool
  agree none none = true
  agree (some p) (some q) = p.email == q.email && same_nets w p.allowed_ips q.allowed_ips
  agree _ _ = false

  -- What stands under a key when the removals and the upserts of a diff are applied.
  abbrev pub patched : SyncDiff w → Option (PeerInfo w) → String → Option (PeerInfo w)
  patched diff old k =
      or_else (find_key k diff.upsert_peers) (if contains k diff.remove_keys then none else old)

  agree_patch :
      (e t : Option (PeerInfo w))
      → ((p : PeerInfo w) → t ≡ some p → is_nil p.allowed_ips ≡ false)
      → agree (or_else (upsert e t) (if is_some (removal e t) then none else e)) t ≡ true
  agree_patch none none h = refl
  agree_patch none (some t) h =
      ground (arith, h t refl, same_nets_refl w t.allowed_ips, eq_refl t.email)
  agree_patch (some e) none h = refl
  agree_patch (some e) (some t) h =
      ground (arith, h t refl, same_nets_refl w t.allowed_ips, eq_refl t.email)

  upsert-OwnKeys :
      (e t : Option (PeerInfo w)) (k : String)
      → ((p : PeerInfo w) → t ≡ some p → w.key_string p.public_key ≡ k)
      → (p : PeerInfo w) → upsert e t ≡ some p
      → w.key_string p.public_key ≡ k
  upsert-OwnKeys none none k h p q = cc
  upsert-OwnKeys none (some t) k h p q = ground (arith, h t refl)
  upsert-OwnKeys (some e) none k h p q = cc
  upsert-OwnKeys (some e) (some t) k h p q = ground (arith, h t refl)

-- What a diff relies on: a wanted peer stands under the text of its key and has an address, and the
-- keys of the existing peers parse.
pub record IsReady {w : WgTypes} (existing : Dict (PeerInfo w)) (desired : Dict (DesiredPeer w))
    : Type 0 where
  pub own_key :
      (k : String) (d : DesiredPeer w) → Dict.get desired k ≡ some d → w.key_string d.parsed_key ≡ k
  pub has_net :
      (k : String) (d : DesiredPeer w)
      → Dict.get desired k ≡ some d
      → is_nil d.allowed_ip_nets ≡ false
  pub parses : (k : String) → is_some (Dict.get existing k) ≡ true → is_some (w.parse_key k) ≡ true

module _ {w : WgTypes} (psk : Option w.Key) (existing : Dict (PeerInfo w))
    (desired : Dict (DesiredPeer w)) (ready : IsReady existing desired) where
  targeted_cases :
      (o : Option (DesiredPeer w)) (p : PeerInfo w)
      → targeted o ≡ some p
      → (d : DesiredPeer w) × (o ≡ some d) × (p ≡ target_of d)
  targeted_cases none p h = cc
  targeted_cases (some d) p h = (d, refl, cc)

  abbrev pub targets : Dict (PeerInfo w)
  targets = build_targets desired (Dict.keys desired) Dict.empty

  abbrev pub upserts : Dict (PeerInfo w)
  upserts = (gather_changes psk existing targets).upsert_by_key

  abbrev removals : Dict (PeerInfo w)
  removals = (gather_changes psk existing targets).remove_set

  pub get-upserts :
      (k : String)
      → Dict.get upserts k ≡ upsert (Dict.get existing k) (targeted (Dict.get desired k))
  get-upserts k = rw (upserted-gather_changes, get-build_targets)

  get-removals :
      (k : String)
      → Dict.get removals k ≡ removal (Dict.get existing k) (targeted (Dict.get desired k))
  get-removals k = rw (removed-gather_changes, get-build_targets)

  pub upserts-OwnKeys : OwnKeys upserts
  upserts-OwnKeys k p m =
      upsert-OwnKeys (Dict.get existing k) (targeted (Dict.get desired k)) k
        (λ q e.
          let (d, m', e') = targeted_cases (Dict.get desired k) q e in rw e' (ready.own_key k d m'))
        p (sym (get-upserts k) ∙ m)

  pub found_upserts :
      (k : String)
      → find_key k (build_sync_diff psk existing desired).upsert_peers
        ≡ upsert (Dict.get existing k) (targeted (Dict.get desired k))
  unfolding build_sync_diff
  found_upserts k = ground (
    arith,
    find_key-list_values upserts (sort_strings (Dict.keys upserts)) k upserts-OwnKeys,
    contains-sort_strings k (Dict.keys upserts),
    contains-keys upserts k,
    get-upserts k,
  )

  removed_keys :
      (k : String)
      → contains k (build_sync_diff psk existing desired).remove_keys
        ≡ is_some (removal (Dict.get existing k) (targeted (Dict.get desired k)))
  unfolding build_sync_diff
  removed_keys k = ground (
    arith,
    contains-build_removals w (sort_strings (Dict.keys removals)) k,
    contains-sort_strings k (Dict.keys removals),
    contains-keys removals k,
    get-removals k,
    ready.parses k,
  )

  -- Where the wanted peers stand under the text of their keys and have addresses, and the existing
  -- keys parse, the removals and upserts of the diff leave under every key a peer that agrees with
  -- the wanted one, and none where none is wanted.
  pub build_sync_diff-patched :
      (k : String)
      → agree
          (patched (build_sync_diff psk existing desired) (Dict.get existing k) k)
          (targeted (Dict.get desired k))
        ≡ true
  build_sync_diff-patched k =
      rw (found_upserts k, removed_keys k)
        (agree_patch (Dict.get existing k) (targeted (Dict.get desired k)) λ p q.
          let (d, m, e) = targeted_cases (Dict.get desired k) p q in rw e (ready.has_net k d m))

  -- If wanted peers stand under the text of their key and have a network, the keys of the existing
  -- peers parse, and buildSyncDiff reports no change, then under each key the existing peer agrees
  -- with the wanted one in its email and addresses, or neither is there.
  pub build_sync_diff-unchanged :
      (build_sync_diff psk existing desired).changed ≡ false
      → (k : String) → agree (Dict.get existing k) (targeted (Dict.get desired k)) ≡ true
  unfolding build_sync_diff finish_diff
  build_sync_diff-unchanged h k =
      let diff = build_sync_diff psk existing desired in
      let none_removed : diff.remove_keys ≡ [] = is_nil→nil diff.remove_keys (ground arith) in
      let none_written : diff.upsert_peers ≡ [] = is_nil→nil diff.upsert_peers (ground arith) in
      rw (none_removed, none_written) at (build_sync_diff-patched k)
