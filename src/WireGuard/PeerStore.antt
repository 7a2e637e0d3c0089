-- ===== src/WireGuard/PeerStore.antt =====
-- backend/wireguard/peer_store.go: the peers by public key, and the key of each email. A peer that
-- is nil in a list of pointers is `none`; the copies that the code makes of a peer are the peer.
pub mod OneToOne
pub mod Replace
use pasarguard_node.Prelude.{
  String, not, Option, none, some, List, [], ◌∷◌, ◌++◌, ◌==◌, if◌then◌else◌,
}
use pasarguard_node.Dict
use pasarguard_node.Dict.{Dict}
use pasarguard_node.WireGuard.Types.{WgTypes, PeerInfo}

pub record PeerStore (w : WgTypes) : Type 0 where
  pub peers : Dict (PeerInfo w)
  pub email_to_key : Dict String

module _ {w : WgTypes} where
  open w use {key_string}

  unfoldable pub new_peer_store : PeerStore w
  new_peer_store = record { peers = Dict.empty; email_to_key = Dict.empty }

  -- peerCopy.PublicKey.String()
  abbrev pub key_of : PeerInfo w → String
  key_of p = key_string p.public_key

  set_peer : PeerStore w → PeerInfo w → PeerStore w
  set_peer ps peer = record {
    peers = Dict.put ps.peers (key_of peer) peer;
    email_to_key = Dict.put ps.email_to_key peer.email (key_of peer);
  }

  pub init : PeerStore w → List (Option (PeerInfo w)) → PeerStore w
  unfolding set_peer
  init ps [] = ps
  init ps (none ∷ peers) = init ps peers
  init ps (some peer ∷ peers) = init (set_peer ps peer) peers

  remove_key : PeerStore w → String → PeerStore w
  remove_key ps key = elim (Dict.get ps.peers key) [
    | none ↦ ps
    | some peer ↦ record {
      peers = Dict.remove ps.peers key;
      email_to_key = Dict.remove ps.email_to_key peer.email;
    }
  ]

  -- The keys that are found are returned, in order.
  remove_keys : PeerStore w → List String → PeerStore w × List String
  unfolding remove_key
  remove_keys ps [] = (ps, [])
  remove_keys ps (key ∷ keys) =
      let (ps', removed) = remove_keys (remove_key ps key) keys in
      (ps', elim (Dict.get ps.peers key) [ none ↦ removed | some _ ↦ key ∷ removed ])

  -- if oldKey, exists := ps.emailToKey[email]; exists && oldKey != key { delete(ps.peers, oldKey) }
  drop_old_key : PeerStore w → PeerInfo w → PeerStore w
  drop_old_key ps peer = elim (Dict.get ps.email_to_key peer.email) [
    | none ↦ ps
    | some old_key ↦
        if not (old_key == key_of peer)
        then record ps { peers = Dict.remove ps.peers old_key }
        else ps
  ]

  -- if existing, exists := ps.peers[key]; exists && existing.Email != email { ... }
  drop_old_owner : PeerStore w → PeerInfo w → PeerStore w
  drop_old_owner ps peer = elim (Dict.get ps.peers (key_of peer)) [
    | none ↦ ps
    | some existing ↦
        if not (existing.email == peer.email)
        then record ps { email_to_key = Dict.remove ps.email_to_key existing.email }
        else ps
  ]

  upsert_peer : PeerStore w → PeerInfo w → PeerStore w
  unfolding drop_old_key drop_old_owner set_peer
  upsert_peer ps peer = set_peer (drop_old_owner (drop_old_key ps peer) peer) peer

  upsert_peers : PeerStore w → List (Option (PeerInfo w)) → PeerStore w
  unfolding upsert_peer
  upsert_peers ps [] = ps
  upsert_peers ps (none ∷ peers) = upsert_peers ps peers
  upsert_peers ps (some peer ∷ peers) = upsert_peers (upsert_peer ps peer) peers

  pub apply_changes :
      PeerStore w → List String → List (Option (PeerInfo w)) → PeerStore w × List String
  unfolding remove_keys upsert_peers
  apply_changes ps keys peers =
      let (ps', removed) = remove_keys ps keys in (upsert_peers ps' peers, removed)

  -- for oldKey := range ps.peers { if _, exists := newPeers[oldKey]; !exists { ... } }
  missing_keys : Dict (PeerInfo w) → List String → List String
  missing_keys fresh [] = []
  missing_keys fresh (key ∷ keys) =
      let rest = missing_keys fresh keys in
      elim (Dict.get fresh key) [ none ↦ key ∷ rest | some _ ↦ rest ]

  pub replace_all : PeerStore w → List (Option (PeerInfo w)) → PeerStore w × List String
  unfolding init missing_keys
  replace_all ps peers =
      let fresh = init new_peer_store peers in
      (fresh, missing_keys fresh.peers (Dict.keys ps.peers))

  unfoldable pub get_by_key : PeerStore w → String → Option (PeerInfo w)
  get_by_key ps key = Dict.get ps.peers key

  pub get_by_email : PeerStore w → String → Option (PeerInfo w)
  get_by_email ps email = elim (Dict.get ps.email_to_key email) [
    | none ↦ none
    | some key ↦ Dict.get ps.peers key
  ]

  unfoldable pub list_peers : Dict (PeerInfo w) → List String → List (PeerInfo w)
  list_peers peers [] = []
  list_peers peers (key ∷ keys) =
      let rest = list_peers peers keys in
      elim (Dict.get peers key) [ none ↦ rest | some peer ↦ peer ∷ rest ]

  unfoldable pub get_all : PeerStore w → List (PeerInfo w)
  unfolding list_peers
  get_all ps = list_peers ps.peers (Dict.keys ps.peers)

  map_emails : Dict (PeerInfo w) → List String → Dict String → Dict String
  map_emails peers [] snapshot = snapshot
  map_emails peers (key ∷ keys) snapshot =
      map_emails peers keys (elim (Dict.get peers key) [
        | none ↦ snapshot
        | some peer ↦ Dict.put snapshot key peer.email
      ])

  pub get_email_map : PeerStore w → Dict String
  unfolding map_emails
  get_email_map ps = map_emails ps.peers (Dict.keys ps.peers) Dict.empty
