-- ===== src/WireGuard/PeerStore/Replace.antt =====
-- backend/wireguard/peer_store.go: what ReplaceAll makes of a list of peers.
use pasarguard_node.Prelude.{
  String, ◌≡◌, ◌≢◌, refl, false, not, ◌&&◌, Option, none, some, List, [], ◌∷◌, arith, ◌==◌, eq_iff,
  if◌then◌else◌, contains, is_some,
}
use pasarguard_node.Dict
use pasarguard_node.Dict.{Dict, get-put, get-empty, contains-keys}
use pasarguard_node.WireGuard.Types.{WgTypes, PeerInfo}
use pasarguard_node.WireGuard.PeerStore.{
  PeerStore, new_peer_store, key_of, set_peer, init, missing_keys, replace_all,
}
use pasarguard_node.WireGuard.PeerStore.OneToOne.{IsOneToOne, new_peer_store-IsOneToOne}

module _ {w : WgTypes} where
  abbrev pub DiffersFrom : PeerInfo w → List (Option (PeerInfo w)) → Type 0
  DiffersFrom p [] = Unit
  DiffersFrom p (none ∷ qs) = DiffersFrom p qs
  DiffersFrom p (some q ∷ qs) =
      ((p.email == q.email) ≡ false) × ((key_of p == key_of q) ≡ false) × DiffersFrom p qs

  -- No two peers of a list share an email or a key.
  abbrev pub AreDistinct : List (Option (PeerInfo w)) → Type 0
  AreDistinct [] = Unit
  AreDistinct (none ∷ ps) = AreDistinct ps
  AreDistinct (some p ∷ ps) = DiffersFrom p ps × AreDistinct ps

  abbrev AreNew : PeerStore w → List (Option (PeerInfo w)) → Type 0
  AreNew s [] = Unit
  AreNew s (none ∷ ps) = AreNew s ps
  AreNew s (some p ∷ ps) =
      (Dict.get s.email_to_key p.email ≡ none) × (Dict.get s.peers (key_of p) ≡ none) × AreNew s ps

  set_peer-AreNew :
      (s : PeerStore w) (p : PeerInfo w) (ps : List (Option (PeerInfo w)))
      → DiffersFrom p ps
      → AreNew s ps
      → AreNew (set_peer s p) ps
  unfolding set_peer
  set_peer-AreNew s p [] d h = tt
  set_peer-AreNew s p (none ∷ ps) d h = set_peer-AreNew s p ps d h
  set_peer-AreNew s p (some q ∷ ps) (d, k, ds) (h, g, hs) =
      (rw (get-put, d) h, rw (get-put, k) g, set_peer-AreNew s p ps ds hs)

  set_peer-IsOneToOne :
      (s : PeerStore w) (p : PeerInfo w)
      → IsOneToOne s
      → Dict.get s.email_to_key p.email ≡ none
      → Dict.get s.peers (key_of p) ≡ none
      → IsOneToOne (set_peer s p)
  unfolding set_peer
  set_peer-IsOneToOne s p h f g = record {
    to_peer = λ e k. ground (
      arith,
      get-put s.peers (key_of p) k p,
      get-put s.email_to_key p.email e (key_of p),
      eq_iff p.email e,
      eq_iff (key_of p) k,
      h.to_peer e k,
    );
    to_key = λ e k. ground (
      arith,
      get-put s.peers (key_of p) k p,
      get-put s.email_to_key p.email e (key_of p),
      eq_iff p.email e,
      eq_iff (key_of p) k,
      h.to_key e k,
    );
    own_key = λ k. ground (arith, get-put s.peers (key_of p) k p, h.own_key k, eq_iff (key_of p) k);
  }

  init-IsOneToOne :
      (s : PeerStore w) (ps : List (Option (PeerInfo w)))
      → IsOneToOne s
      → AreNew s ps
      → AreDistinct ps
      → IsOneToOne (init s ps)
  unfolding init
  init-IsOneToOne s [] h n d = h
  init-IsOneToOne s (none ∷ ps) h n d = init-IsOneToOne s ps h n d
  init-IsOneToOne s (some p ∷ ps) h n d =
      init-IsOneToOne (set_peer s p) ps (set_peer-IsOneToOne s p h n.0 n.1)
        (set_peer-AreNew s p ps d.0 n.2) d.1

  AreNew-new_peer_store : (ps : List (Option (PeerInfo w))) → AreNew new_peer_store ps
  unfolding new_peer_store
  AreNew-new_peer_store [] = tt
  AreNew-new_peer_store (none ∷ ps) = AreNew-new_peer_store ps
  AreNew-new_peer_store (some p ∷ ps) =
      (get-empty p.email, get-empty (key_of p), AreNew-new_peer_store ps)

  -- The last peer of a list that stands under a key.
  abbrev pub last_under : String → List (Option (PeerInfo w)) → Option (PeerInfo w)
  last_under k [] = none
  last_under k (none ∷ ps) = last_under k ps
  last_under k (some p ∷ ps) = elim (last_under k ps) [
    | none ↦ if key_of p == k then some p else none
    | some q ↦ some q
  ]

  get-init :
      (s : PeerStore w) (ps : List (Option (PeerInfo w))) (k : String)
      → Dict.get (init s ps).peers k
        ≡ (elim (last_under k ps) [ none ↦ Dict.get s.peers k | some p ↦ some p ])
  unfolding init set_peer
  get-init s [] k = refl
  get-init s (none ∷ ps) k = get-init s ps k
  get-init s (some p ∷ ps) k =
      ground (arith, get-init (set_peer s p) ps k, get-put s.peers (key_of p) k p)

  get-init_new :
      (ps : List (Option (PeerInfo w))) (k : String)
      → Dict.get (init new_peer_store ps).peers k ≡ last_under k ps
  unfolding new_peer_store
  get-init_new ps k = ground (arith, get-init new_peer_store ps k, get-empty {V = PeerInfo w} k)

  contains-missing_keys :
      (fresh : Dict (PeerInfo w)) (keys : List String) (k : String)
      → contains k (missing_keys fresh keys) ≡ (contains k keys && not (is_some (Dict.get fresh k)))
  unfolding missing_keys
  contains-missing_keys fresh [] k = refl
  contains-missing_keys fresh (j ∷ keys) k =
      ground (arith, contains-missing_keys fresh keys k, eq_iff j k)

  -- Init fills a new store with peers of which no two share an email or a key.
  pub init_lem :
      (ps : List (Option (PeerInfo w)))
      → AreDistinct ps
      → IsOneToOne (init new_peer_store ps)
        × ((k : String) → Dict.get (init new_peer_store ps).peers k ≡ last_under k ps)
  init_lem ps d = (
    init-IsOneToOne new_peer_store ps new_peer_store-IsOneToOne (AreNew-new_peer_store ps) d,
    λ k. get-init_new ps k,
  )

  -- ReplaceAll, given peers of which no two share an email or a key, makes the store one to one,
  -- puts exactly these peers in it, and returns exactly the keys of the old store that are gone.
  pub replace_all_lem :
      (s : PeerStore w) (ps : List (Option (PeerInfo w)))
      → AreDistinct ps
      → let r = replace_all s ps in
        IsOneToOne r.0
        × ((k : String) → Dict.get r.0.peers k ≡ last_under k ps)
        × ((k : String)
            → contains k r.1 ≡ (is_some (Dict.get s.peers k) && not (is_some (last_under k ps))))
  unfolding replace_all
  replace_all_lem s ps d =
      let (single, stored) = init_lem ps d in
      (single, stored, λ k. rw (contains-missing_keys, contains-keys, stored k))

  -- ReplaceAll with two peers of one email under two keys gives a store that is not one to one.
  pub replace_all_shared_email :
      (s : PeerStore w) (p q : PeerInfo w)
      → p.email ≡ q.email
      → key_of p ≢ key_of q
      → ¬ IsOneToOne (replace_all s (some p ∷ some q ∷ [])).0
  unfolding replace_all init set_peer new_peer_store
  replace_all_shared_email s p q same differ h = ground (
    arith,
    h.to_key p.email (key_of p),
    get-put Dict.empty (key_of p) (key_of p) p,
    get-put (Dict.put Dict.empty (key_of p) p) (key_of q) (key_of p) q,
    get-put (Dict.put Dict.empty p.email (key_of p)) q.email p.email (key_of q),
    eq_iff (key_of p) (key_of p),
    eq_iff (key_of q) (key_of p),
    eq_iff q.email p.email,
  )
