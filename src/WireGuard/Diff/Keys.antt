-- ===== src/WireGuard/Diff/Keys.antt =====
-- backend/wireguard/user_common.go: what buildSyncDiff decides for each key.
use pasarguard_node.Prelude.{
  String, ◌≡◌, ◌∙◌, refl, Option, List, [], ◌∷◌, arith, ◌==◌, eq_iff, if◌then◌else◌, contains,
}
use pasarguard_node.Dict
use pasarguard_node.Dict.{Dict, get-put, get-empty, contains-keys}
use pasarguard_node.WireGuard.Types.{WgTypes, PeerInfo}
use pasarguard_node.WireGuard.Desired.{DesiredPeer}
use pasarguard_node.WireGuard.Diff.Cases.{
  or_else, targeted, removal, update, addition, upsert, removed-compare_found,
  upserted-compare_found, removed-add_missing, upserted-add_missing, get-build_targets_loop,
}
use pasarguard_node.WireGuard.Diff.{
  Changes, build_targets, compare_key, compare_keys, add_key, add_keys, gather_changes, no_changes,
  build_sync_diff, finish_diff,
}

module _ {w : WgTypes} where
  module _ (psk : Option w.Key) (existing targets : Dict (PeerInfo w)) where
    removed-compare_key :
        (key k : String) (c : Changes w)
        → Dict.get (compare_key psk existing targets key c).remove_set k ≡ (
            if key == k
            then or_else
                (removal (Dict.get existing k) (Dict.get targets k))
                (Dict.get c.remove_set k)
            else Dict.get c.remove_set k)
    unfolding compare_key
    removed-compare_key key k c = ground (
      arith,
      eq_iff key k,
      removed-compare_found psk key k c (Dict.get existing key) (Dict.get targets key),
    )

    upserted-compare_key :
        (key k : String) (c : Changes w)
        → Dict.get (compare_key psk existing targets key c).upsert_by_key k ≡ (
            if key == k
            then or_else
                (update (Dict.get existing k) (Dict.get targets k))
                (Dict.get c.upsert_by_key k)
            else Dict.get c.upsert_by_key k)
    unfolding compare_key
    upserted-compare_key key k c = ground (
      arith,
      eq_iff key k,
      upserted-compare_found psk key k c (Dict.get existing key) (Dict.get targets key),
    )

    upserted-add_key :
        (key k : String) (c : Changes w)
        → Dict.get (add_key psk existing targets key c).upsert_by_key k ≡ (
            if key == k
            then or_else
                (addition (Dict.get existing k) (Dict.get targets k))
                (Dict.get c.upsert_by_key k)
            else Dict.get c.upsert_by_key k)
    unfolding add_key
    upserted-add_key key k c = ground (
      arith,
      eq_iff key k,
      upserted-add_missing psk key k c (Dict.get existing key) (Dict.get targets key),
    )

    removed-compare_keys :
        (keys : List String) (k : String) (c : Changes w)
        → Dict.get (compare_keys psk existing targets keys c).remove_set k ≡ (
            if contains k keys
            then or_else
                (removal (Dict.get existing k) (Dict.get targets k))
                (Dict.get c.remove_set k)
            else Dict.get c.remove_set k)
    unfolding compare_keys
    removed-compare_keys [] k c = refl
    removed-compare_keys (key ∷ keys) k c = ground (
      arith,
      removed-compare_keys keys k (compare_key psk existing targets key c),
      removed-compare_key key k c,
    )

    upserted-compare_keys :
        (keys : List String) (k : String) (c : Changes w)
        → Dict.get (compare_keys psk existing targets keys c).upsert_by_key k ≡ (
            if contains k keys
            then or_else
                (update (Dict.get existing k) (Dict.get targets k))
                (Dict.get c.upsert_by_key k)
            else Dict.get c.upsert_by_key k)
    unfolding compare_keys
    upserted-compare_keys [] k c = refl
    upserted-compare_keys (key ∷ keys) k c = ground (
      arith,
      upserted-compare_keys keys k (compare_key psk existing targets key c),
      upserted-compare_key key k c,
    )

    removed-add_keys :
        (keys : List String) (k : String) (c : Changes w)
        → Dict.get (add_keys psk existing targets keys c).remove_set k ≡ Dict.get c.remove_set k
    unfolding add_keys add_key
    removed-add_keys [] k c = refl
    removed-add_keys (key ∷ keys) k c =
        removed-add_keys keys k (add_key psk existing targets key c)
        ∙ removed-add_missing psk key k c (Dict.get existing key) (Dict.get targets key)

    upserted-add_keys :
        (keys : List String) (k : String) (c : Changes w)
        → Dict.get (add_keys psk existing targets keys c).upsert_by_key k ≡ (
            if contains k keys
            then or_else
                (addition (Dict.get existing k) (Dict.get targets k))
                (Dict.get c.upsert_by_key k)
            else Dict.get c.upsert_by_key k)
    unfolding add_keys
    upserted-add_keys [] k c = refl
    upserted-add_keys (key ∷ keys) k c = ground (
      arith,
      upserted-add_keys keys k (add_key psk existing targets key c),
      upserted-add_key key k c,
    )

    pub removed-gather_changes :
        (k : String)
        → Dict.get (gather_changes psk existing targets).remove_set k
          ≡ removal (Dict.get existing k) (Dict.get targets k)
    unfolding gather_changes
    removed-gather_changes k = ground (
      arith,
      removed-add_keys (Dict.keys targets) k
          (compare_keys psk existing targets (Dict.keys existing) no_changes),
      removed-compare_keys (Dict.keys existing) k no_changes,
      contains-keys existing k,
      get-empty {V = PeerInfo w} k,
    )

    pub upserted-gather_changes :
        (k : String)
        → Dict.get (gather_changes psk existing targets).upsert_by_key k
          ≡ upsert (Dict.get existing k) (Dict.get targets k)
    unfolding gather_changes
    upserted-gather_changes k = ground (
      arith,
      upserted-add_keys (Dict.keys targets) k
          (compare_keys psk existing targets (Dict.keys existing) no_changes),
      upserted-compare_keys (Dict.keys existing) k no_changes,
      contains-keys existing k,
      contains-keys targets k,
      get-empty {V = PeerInfo w} k,
    )

  pub get-build_targets :
      (desired : Dict (DesiredPeer w)) (k : String)
      → Dict.get (build_targets desired (Dict.keys desired) Dict.empty) k
        ≡ targeted (Dict.get desired k)
  get-build_targets desired k = ground (
    arith,
    get-build_targets_loop desired (Dict.keys desired) Dict.empty k,
    contains-keys desired k,
    get-empty {V = PeerInfo w} k,
  )

  pub get-target_peers :
      (psk : Option w.Key) (existing : Dict (PeerInfo w)) (desired : Dict (DesiredPeer w))
      (k : String)
      → Dict.get (build_sync_diff psk existing desired).target_peers k
        ≡ targeted (Dict.get desired k)
  unfolding build_sync_diff finish_diff
  get-target_peers psk existing desired k = get-build_targets desired k
