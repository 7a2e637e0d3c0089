-- ===== src/WireGuard/Diff/Cases.antt =====
-- backend/wireguard/user_common.go: what buildSyncDiff decides, given the peer that is there for a
-- key and the one that is wanted.
use pasarguard_node.Prelude.{
  is_nil, String, ◌≡◌, refl, Option, none, some, List, [], ◌∷◌, arith, ◌==◌, eq_iff, if◌then◌else◌,
  contains,
}
use pasarguard_node.Dict
use pasarguard_node.Dict.{Dict, get-put, get-empty, contains-keys}
use pasarguard_node.WireGuard.Types.{WgTypes, PeerInfo}
use pasarguard_node.WireGuard.Desired.{DesiredPeer}
use pasarguard_node.WireGuard.Diff.{
  Changes, same_nets, target_of, build_targets, build_target, compare_found, add_missing,
}

abbrev pub or_else {ℓ} : {A : Type ℓ} → Option A → Option A → Option A
or_else none b = b
or_else (some a) b = some a

module _ {w : WgTypes} where
  abbrev pub targeted : Option (DesiredPeer w) → Option (PeerInfo w)
  targeted none = none
  targeted (some d) = some (target_of d)

  -- The peer that is removed for a key, given the peer that is there and the one that is wanted.
  abbrev pub removal : Option (PeerInfo w) → Option (PeerInfo w) → Option (PeerInfo w)
  removal none t = none
  removal (some e) none = some e
  removal (some e) (some t) = none

  -- The peer that is written where one is there.
  abbrev pub update : Option (PeerInfo w) → Option (PeerInfo w) → Option (PeerInfo w)
  update none t = none
  update (some e) none = none
  update (some e) (some t) =
      if same_nets w e.allowed_ips t.allowed_ips
      then (if e.email == t.email then none else some t)
      else if is_nil t.allowed_ips
      then none
      else some t

  -- The peer that is written where none is there.
  abbrev pub addition : Option (PeerInfo w) → Option (PeerInfo w) → Option (PeerInfo w)
  addition (some e) t = none
  addition none none = none
  addition none (some t) = if is_nil t.allowed_ips then none else some t

  abbrev pub upsert : Option (PeerInfo w) → Option (PeerInfo w) → Option (PeerInfo w)
  upsert e t = or_else (addition e t) (update e t)

  get-build_target :
      (targets : Dict (PeerInfo w)) (key k : String) (d : Option (DesiredPeer w))
      → Dict.get (build_target targets key d) k
        ≡ (if key == k then or_else (targeted d) (Dict.get targets k) else Dict.get targets k)
  unfolding build_target
  get-build_target targets key k none = ground arith
  get-build_target targets key k (some d) = ground (arith, get-put targets key k (target_of d))

  pub get-build_targets_loop :
      (desired : Dict (DesiredPeer w)) (keys : List String) (targets : Dict (PeerInfo w))
      (k : String)
      → Dict.get (build_targets desired keys targets) k ≡ (
          if contains k keys
          then or_else (targeted (Dict.get desired k)) (Dict.get targets k)
          else Dict.get targets k)
  unfolding build_targets
  get-build_targets_loop desired [] targets k = refl
  get-build_targets_loop desired (key ∷ keys) targets k = ground (
    arith,
    get-build_targets_loop desired keys (build_target targets key (Dict.get desired key)) k,
    get-build_target targets key k (Dict.get desired key),
    eq_iff key k,
  )

  module _ (psk : Option w.Key) (key k : String) (c : Changes w) where
    pub removed-compare_found :
        (e t : Option (PeerInfo w))
        → Dict.get (compare_found psk key e t c).remove_set k ≡ (
            if key == k
            then or_else (removal e t) (Dict.get c.remove_set k)
            else Dict.get c.remove_set k)
    unfolding compare_found
    removed-compare_found none t = ground arith
    removed-compare_found (some e) none = ground (arith, get-put c.remove_set key k e)
    removed-compare_found (some e) (some t) = ground arith

    pub upserted-compare_found :
        (e t : Option (PeerInfo w))
        → Dict.get (compare_found psk key e t c).upsert_by_key k ≡ (
            if key == k
            then or_else (update e t) (Dict.get c.upsert_by_key k)
            else Dict.get c.upsert_by_key k)
    unfolding compare_found
    upserted-compare_found none t = ground arith
    upserted-compare_found (some e) none = ground arith
    upserted-compare_found (some e) (some t) = ground (arith, get-put c.upsert_by_key key k t)

    pub removed-add_missing :
        (e t : Option (PeerInfo w))
        → Dict.get (add_missing psk key e t c).remove_set k ≡ Dict.get c.remove_set k
    unfolding add_missing
    removed-add_missing (some e) t = refl
    removed-add_missing none none = refl
    removed-add_missing none (some t) = ground arith

    pub upserted-add_missing :
        (e t : Option (PeerInfo w))
        → Dict.get (add_missing psk key e t c).upsert_by_key k ≡ (
            if key == k
            then or_else (addition e t) (Dict.get c.upsert_by_key k)
            else Dict.get c.upsert_by_key k)
    unfolding add_missing
    upserted-add_missing (some e) t = ground arith
    upserted-add_missing none none = ground arith
    upserted-add_missing none (some t) = ground (arith, get-put c.upsert_by_key key k t)
