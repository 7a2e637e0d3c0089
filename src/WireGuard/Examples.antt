-- ===== src/WireGuard/Examples.antt =====
-- The theorems about the WireGuard peers at concrete inputs.
use pasarguard_node.Prelude.{
  ◌≡◌, refl, String, true, Option, none, some, List, [], ◌∷◌, arith, ◌==◌, eq_iff, if◌then◌else◌,
}
use pasarguard_node.Dict
use pasarguard_node.Dict.{Dict, get-put, get-empty}
use pasarguard_node.WireGuard.TestData.{texts, peer, wanted, desired}
use pasarguard_node.WireGuard.Types.{PeerInfo}
use pasarguard_node.WireGuard.PeerStore.{PeerStore, new_peer_store, apply_changes}
use pasarguard_node.WireGuard.PeerStore.OneToOne.{
  IsOneToOne, new_peer_store-IsOneToOne, apply_changes-IsOneToOne,
}
use pasarguard_node.WireGuard.PeerStore.Replace.{AreDistinct}
use pasarguard_node.WireGuard.Diff.{build_sync_diff}
use pasarguard_node.WireGuard.Diff.Cases.{targeted}
use pasarguard_node.WireGuard.Diff.Patch.{IsReady, agree, patched, build_sync_diff-patched}

abbrev changes : List (Option (PeerInfo texts))
changes = some (peer "alice" "k1") ∷ none ∷ some (peer "bob" "k1") ∷ some (peer "bob" "k2") ∷ []

apply_changes-IsOneToOne_example :
    IsOneToOne (apply_changes (new_peer_store {w = texts}) ("k9" ∷ []) changes).0
apply_changes-IsOneToOne_example =
    apply_changes-IsOneToOne (new_peer_store {w = texts}) ("k9" ∷ []) changes
      new_peer_store-IsOneToOne

abbrev store : PeerStore texts
store = (apply_changes (new_peer_store {w = texts}) [] changes).0

abbrev snapshot : List (Option (PeerInfo texts))
snapshot = some (peer "alice" "k1") ∷ none ∷ some (peer "carol" "k3") ∷ []

snapshot-AreDistinct : AreDistinct snapshot
snapshot-AreDistinct = ((refl, refl, record {}), (record {}, record {}))

desired-at :
    (k : String)
    → Dict.get desired k ≡ (
        if "k2" == k
        then some (wanted "bob" "k2" "10.0.0.3/32")
        else if "k1" == k
        then some (wanted "alice" "k1" "10.0.0.2/32")
        else none)
desired-at k = rw (get-put, get-put, get-empty) refl

abbrev existing : Dict (PeerInfo texts)
existing = Dict.put Dict.empty "k1" (peer "alice" "k1")

ready : IsReady {w = texts} existing desired
ready = record {
  own_key = λ k d m. ground (arith, m, desired-at k, eq_iff "k1" k, eq_iff "k2" k);
  has_net = λ k d m. ground (arith, m, desired-at k, eq_iff "k1" k, eq_iff "k2" k);
  parses = λ k h. refl;
}

build_sync_diff-patched_example :
    agree
      (patched {w = texts} (build_sync_diff none existing desired) (Dict.get existing "k2") "k2")
      (targeted (Dict.get desired "k2"))
    ≡ true
build_sync_diff-patched_example =
    build_sync_diff-patched {w = texts} none existing desired ready "k2"
