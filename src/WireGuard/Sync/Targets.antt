-- ===== src/WireGuard/Sync/Targets.antt =====
-- backend/wireguard: the peers that a full sync reads from the store and writes to it.
use pasarguard_node.Prelude.{
  String, ◌≡◌, refl, Bool, false, not, ◌&&◌, Option, none, some, List, [], ◌∷◌, inl, inr, is_nil,
  is_some, Option-cases, Bool-cases, if◌then◌else◌, arith, contains, eq_iff,
}
use pasarguard_node.Dict
use pasarguard_node.Dict.{Dict, get-put, get-empty, contains-keys, keys-IsNodup, IsNodup}
use pasarguard_node.Sorting.{sort_strings, contains-sort_strings}
use pasarguard_node.WireGuard.Types.{WgTypes, PeerInfo}
use pasarguard_node.WireGuard.PeerStore.{PeerStore, key_of, get_all, list_peers}
use pasarguard_node.WireGuard.PeerStore.OneToOne.{key_in}
use pasarguard_node.WireGuard.PeerStore.Replace.{AreDistinct, DiffersFrom, last_under}
use pasarguard_node.WireGuard.Diff.{build_add_config_from_peer_info}
use pasarguard_node.WireGuard.SyncParts.{
  put_by_key, existing_by_key, target_configs, build_target_peer_configs, valid_targets,
}

module _ {w : WgTypes} where
  get-put_by_key :
      (peers : Dict (PeerInfo w)) (keys : List String) (acc : Dict (PeerInfo w)) (k : String)
      → ((j : String) → key_in (Dict.get peers j) j ≡ j)
      → Dict.get (put_by_key (list_peers peers keys) acc) k ≡ (
          if contains k keys && is_some (Dict.get peers k)
          then Dict.get peers k
          else Dict.get acc k)
  unfolding list_peers put_by_key
  get-put_by_key peers [] acc k own = refl
  get-put_by_key peers (j ∷ keys) acc k own = elim (Option-cases (Dict.get peers j)) [
    | inl m ↦
        rw (m, list_peers) (ground (arith, m, get-put_by_key peers keys acc k own, eq_iff j k))
    | inr (p, m) ↦
        let under : key_of p ≡ j = rw m at (own j) in
        rw (m, list_peers)
          (ground (
            arith,
            m,
            under,
            get-put_by_key peers keys (Dict.put acc (key_of p) p) k own,
            get-put acc (key_of p) k p,
            eq_iff j k,
          ))
  ]

  -- The map that buildExistingPeersByKeySnapshot builds is the store's.
  pub get-existing_by_key :
      (ps : PeerStore w) (k : String)
      → ((j : String) → key_in (Dict.get ps.peers j) j ≡ j)
      → Dict.get (existing_by_key ps) k ≡ Dict.get ps.peers k
  unfolding existing_by_key get_all
  get-existing_by_key ps k own = ground (
    arith,
    get-put_by_key ps.peers (Dict.keys ps.peers) Dict.empty k own,
    contains-keys ps.peers k,
    get-empty {V = PeerInfo w} k,
  )

  -- A peer that a configuration can be built for.
  abbrev pub is_buildable : Option (PeerInfo w) → Bool
  is_buildable none = false
  is_buildable (some p) = not (is_nil p.allowed_ips)

  contains-target_configs :
      (psk : Option w.Key) (targets : Dict (PeerInfo w)) (keys : List String) (k : String)
      → contains k (target_configs psk targets keys).1
        ≡ (contains k keys && is_buildable (Dict.get targets k))
  unfolding target_configs build_add_config_from_peer_info
  contains-target_configs psk targets [] k = refl
  contains-target_configs psk targets (j ∷ keys) k =
      ground (arith, contains-target_configs psk targets keys k, eq_iff j k)

  pub contains-build_target_peer_configs :
      (psk : Option w.Key) (targets : Dict (PeerInfo w)) (k : String)
      → contains k (build_target_peer_configs targets psk).1 ≡ is_buildable (Dict.get targets k)
  unfolding build_target_peer_configs
  contains-build_target_peer_configs psk targets k = ground (
    arith,
    contains-target_configs psk targets (sort_strings (Dict.keys targets)) k,
    contains-sort_strings k (Dict.keys targets),
    contains-keys targets k,
  )

  module _ (targets : Dict (PeerInfo w)) (applied : List String)
      (own : (k : String) (p : PeerInfo w) → Dict.get targets k ≡ some p → key_of p ≡ k) where
    under-valid_targets :
        (keys : List String) (k : String)
        → last_under k (valid_targets targets applied keys)
          ≡ (if contains k keys && contains k applied then Dict.get targets k else none)
    unfolding valid_targets
    under-valid_targets [] k = refl
    under-valid_targets (j ∷ keys) k = elim (Option-cases (Dict.get targets j)) [
      | inl m ↦ rw (m, valid_targets) (ground (arith, m, under-valid_targets keys k, eq_iff j k))
      | inr (p, m) ↦
          rw (m, valid_targets)
            (ground (arith, m, own j p m, under-valid_targets keys k, eq_iff j k))
    ]

    pub last_under-valid_targets :
        (k : String)
        → last_under k (valid_targets targets applied (Dict.keys targets))
          ≡ (if contains k applied then Dict.get targets k else none)
    last_under-valid_targets k =
        ground (arith, under-valid_targets (Dict.keys targets) k, contains-keys targets k)

    module _
        (one_key : (j k : String) (p q : PeerInfo w)
          → Dict.get targets j ≡ some p
          → Dict.get targets k ≡ some q
          → p.email ≡ q.email
          → j ≡ k) where
      differs-valid_targets :
          (j : String) (p : PeerInfo w) (keys : List String)
          → Dict.get targets j ≡ some p
          → contains j keys ≡ false
          → DiffersFrom p (valid_targets targets applied keys)
      unfolding valid_targets
      differs-valid_targets j p [] m out = tt
      differs-valid_targets j p (k ∷ keys) m out = elim (Option-cases (Dict.get targets k)) [
        | inl gone ↦
            rw (gone, valid_targets) (differs-valid_targets j p keys m (ground (arith, out)))
        | inr (q, there) ↦
            let rest = differs-valid_targets j p keys m (ground (arith, out)) in
            elim (Bool-cases (contains k applied)) [
              | inr bad ↦ rw (there, bad, valid_targets) rest
              | inl good ↦
                  rw (there, good, valid_targets)
                    (
                      ground
                          (arith, one_key j k p q m there, eq_iff p.email q.email, eq_iff k j, out),
                      ground (
                        arith,
                        own j p m,
                        own k q there,
                        eq_iff (key_of p) (key_of q),
                        eq_iff k j,
                        out,
                      ),
                      rest,
                    )
            ]
      ]

      AreDistinct-valid_targets :
          (keys : List String) → IsNodup keys → AreDistinct (valid_targets targets applied keys)
      unfolding valid_targets
      AreDistinct-valid_targets [] d = tt
      AreDistinct-valid_targets (j ∷ keys) (fresh, d) = elim (Option-cases (Dict.get targets j)) [
        | inl gone ↦ rw (gone, valid_targets) (AreDistinct-valid_targets keys d)
        | inr (p, there) ↦
            let rest = AreDistinct-valid_targets keys d in
            elim (Bool-cases (contains j applied)) [
              | inr bad ↦ rw (there, bad, valid_targets) rest
              | inl good ↦
                  rw (there, good, valid_targets) (differs-valid_targets j p keys there fresh, rest)
            ]
      ]

      pub valid_targets-AreDistinct :
          AreDistinct (valid_targets targets applied (Dict.keys targets))
      valid_targets-AreDistinct =
          AreDistinct-valid_targets (Dict.keys targets) (keys-IsNodup targets)
