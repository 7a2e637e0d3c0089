-- ===== src/WireGuard/PeerStore/OneToOne.antt =====
-- backend/wireguard/peer_store.go: "a 1:1 mapping between User (Email) and WireGuard Public Key".
use pasarguard_node.Prelude.{
  inl, inr, Option-cases, String, ◌≡◌, ◌↔◌, Bool, true, false, Option, none, some, List, [], ◌∷◌,
  arith, ◌==◌, eq_iff, if◌then◌else◌,
}
use pasarguard_node.Dict
use pasarguard_node.Dict.{get-put, get-remove, get-empty}
use pasarguard_node.WireGuard.Types.{WgTypes, PeerInfo}
use pasarguard_node.WireGuard.PeerStore.{
  PeerStore, new_peer_store, key_of, remove_key, upsert_peer, upsert_peers, remove_keys,
  apply_changes, get_by_email, get_by_key,
}

-- Whether an optional text is there and is the given one.
abbrev pub is_text : Option String → String → Bool
is_text none k = false
is_text (some j) k = j == k

is_text_iff : (o : Option String) (k : String) → (is_text o k ≡ true) ↔ (o ≡ some k)
is_text_iff none k = (λ h. cc, λ h. cc)
is_text_iff (some j) k = (λ h. ground (arith, eq_iff j k), λ h. ground (arith, eq_iff j k))

module _ {w : WgTypes} where
  abbrev pub email_in : Option (PeerInfo w) → Option String
  email_in none = none
  email_in (some p) = some p.email

  abbrev pub key_in : Option (PeerInfo w) → String → String
  key_in none k = k
  key_in (some p) k = key_of p

  -- Each email has the key under which its peer stands, and each peer stands under its own key.
  pub record IsOneToOne (ps : PeerStore w) : Type 0 where
    pub to_peer :
        (e k : String)
        → Dict.get ps.email_to_key e ≡ some k
        → email_in (Dict.get ps.peers k) ≡ some e
    pub to_key :
        (e k : String)
        → email_in (Dict.get ps.peers k) ≡ some e
        → Dict.get ps.email_to_key e ≡ some k
    pub own_key : (k : String) → key_in (Dict.get ps.peers k) k ≡ k

  pub new_peer_store-IsOneToOne : IsOneToOne new_peer_store
  unfolding new_peer_store
  new_peer_store-IsOneToOne = record {
    to_peer = λ e k h. grind (arith, get-empty);
    to_key = λ e k h. grind (arith, get-empty);
    own_key = λ k. grind (arith, get-empty);
  }

  get-remove_key :
      (ps : PeerStore w) (key k : String)
      → Dict.get (remove_key ps key).peers k ≡ (if key == k then none else Dict.get ps.peers k)
  unfolding remove_key
  get-remove_key ps key k = ground (arith, get-remove ps.peers key k, eq_iff key k)

  email-remove_key :
      (ps : PeerStore w) (key e : String)
      → Dict.get (remove_key ps key).email_to_key e ≡ (
          if is_text (email_in (Dict.get ps.peers key)) e then none else Dict.get ps.email_to_key e)
  unfolding remove_key
  email-remove_key ps key e = grind (arith, get-remove)

  remove_key-IsOneToOne :
      (ps : PeerStore w) (key : String) → IsOneToOne ps → IsOneToOne (remove_key ps key)
  remove_key-IsOneToOne ps key h = record {
    to_peer = λ e k. ground (
      arith,
      get-remove_key ps key k,
      email-remove_key ps key e,
      eq_iff key k,
      h.to_peer e k,
      is_text_iff (email_in (Dict.get ps.peers key)) e,
    );
    to_key = λ e k. ground (
      arith,
      get-remove_key ps key k,
      email-remove_key ps key e,
      eq_iff key k,
      h.to_key e k,
      h.to_key e key,
      is_text_iff (email_in (Dict.get ps.peers key)) e,
    );
    own_key = λ k. ground (arith, get-remove_key ps key k, h.own_key k);
  }

  get-upsert_peer :
      (ps : PeerStore w) (p : PeerInfo w) (k : String)
      → Dict.get (upsert_peer ps p).peers k ≡ (
          if key_of p == k
          then some p
          else if is_text (Dict.get ps.email_to_key p.email) k
          then none
          else Dict.get ps.peers k)
  unfolding upsert_peer
  get-upsert_peer ps p k = grind (arith, get-put, get-remove, eq_iff)

  email-upsert_peer :
      (ps : PeerStore w) (p : PeerInfo w) (e : String)
      → Dict.get (upsert_peer ps p).email_to_key e ≡ (
          if p.email == e
          then some (key_of p)
          else if is_text (email_in (Dict.get ps.peers (key_of p))) e
          then none
          else Dict.get ps.email_to_key e)
  unfolding upsert_peer
  email-upsert_peer ps p e = grind (arith, get-put, get-remove, eq_iff)

  upsert_peer-IsOneToOne :
      (ps : PeerStore w) (p : PeerInfo w) → IsOneToOne ps → IsOneToOne (upsert_peer ps p)
  upsert_peer-IsOneToOne ps p h = record {
    to_peer = λ e k. ground (
      arith,
      get-upsert_peer ps p k,
      email-upsert_peer ps p e,
      eq_iff p.email e,
      eq_iff (key_of p) k,
      h.to_peer e k,
      h.to_key e k,
      h.to_peer e (key_of p),
      h.to_key p.email k,
      h.to_peer p.email k,
      h.to_key e (key_of p),
      is_text_iff (Dict.get ps.email_to_key p.email) k,
      is_text_iff (email_in (Dict.get ps.peers (key_of p))) e,
    );
    to_key = λ e k. ground (
      arith,
      get-upsert_peer ps p k,
      email-upsert_peer ps p e,
      eq_iff p.email e,
      eq_iff (key_of p) k,
      h.to_peer e k,
      h.to_key e k,
      h.to_peer e (key_of p),
      h.to_key p.email k,
      h.to_peer p.email k,
      h.to_key e (key_of p),
      is_text_iff (Dict.get ps.email_to_key p.email) k,
      is_text_iff (email_in (Dict.get ps.peers (key_of p))) e,
    );
    own_key = λ k. ground (arith, get-upsert_peer ps p k, h.own_key k, eq_iff (key_of p) k);
  }

  remove_keys-IsOneToOne :
      (ps : PeerStore w) (keys : List String) → IsOneToOne ps → IsOneToOne (remove_keys ps keys).0
  unfolding remove_keys
  remove_keys-IsOneToOne ps [] h = h
  remove_keys-IsOneToOne ps (key ∷ keys) h =
      remove_keys-IsOneToOne (remove_key ps key) keys (remove_key-IsOneToOne ps key h)

  upsert_peers-IsOneToOne :
      (ps : PeerStore w) (peers : List (Option (PeerInfo w)))
      → IsOneToOne ps
      → IsOneToOne (upsert_peers ps peers)
  unfolding upsert_peers
  upsert_peers-IsOneToOne ps [] h = h
  upsert_peers-IsOneToOne ps (none ∷ peers) h = upsert_peers-IsOneToOne ps peers h
  upsert_peers-IsOneToOne ps (some p ∷ peers) h =
      upsert_peers-IsOneToOne (upsert_peer ps p) peers (upsert_peer-IsOneToOne ps p h)

  -- ApplyChanges keeps emails and keys one to one, whatever it is told to remove and to add: keys
  -- that change hands, emails that change keys, and repeated or nil peers included.
  pub apply_changes-IsOneToOne :
      (ps : PeerStore w) (keys : List String) (peers : List (Option (PeerInfo w)))
      → IsOneToOne ps
      → IsOneToOne (apply_changes ps keys peers).0
  unfolding apply_changes
  apply_changes-IsOneToOne ps keys peers h =
      upsert_peers-IsOneToOne _ peers (remove_keys-IsOneToOne ps keys h)

  -- In a one-to-one store a peer is found under its email exactly if it stands under a key and has
  -- that email.
  pub get_by_email-IsOneToOne :
      (ps : PeerStore w) (e : String) (p : PeerInfo w)
      → IsOneToOne ps
      → (get_by_email ps e ≡ some p) ↔ ((get_by_key ps (key_of p) ≡ some p) × (p.email ≡ e))
  unfolding get_by_email get_by_key
  get_by_email-IsOneToOne ps e p h = (
    λ q. elim (Option-cases (Dict.get ps.email_to_key e)) [
      | inl absent ↦ cc (rw (absent, get_by_email) at q)
      | inr (k, found) ↦
          let here : Dict.get ps.peers k ≡ some p = rw (found, get_by_email) at q in
          let own : key_of p ≡ k = rw here at (h.own_key k) in
          let named : some p.email ≡ some e = rw here at (h.to_peer e k found) in (rw own here, cc)
    ],
    λ q. ground (arith, q.0, q.1, h.to_key e (key_of p)),
  )
