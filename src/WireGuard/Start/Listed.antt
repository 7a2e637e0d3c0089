-- ===== src/WireGuard/Start/Listed.antt =====
-- backend/wireguard/wireguard.go: the lists of peers and keys that a start goes through.
use pasarguard_node.Prelude.{
  String, ◌≡◌, refl, ◌∙◌, ap, true, false, none, some, List, [], ◌∷◌, inl, inr, arith, map,
  contains, eq_iff, Option-cases,
}
use pasarguard_node.Dict
use pasarguard_node.Dict.{Dict, IsNodup, keys-IsNodup, get-empty}
use pasarguard_node.Sorting.{
  sort_strings, insert_sorted, contains-insert_sorted, contains-sort_strings,
}
use pasarguard_node.WireGuard.Types.{WgTypes, PeerInfo}
use pasarguard_node.WireGuard.Users.{list_values}
use pasarguard_node.WireGuard.PeerStore.{key_of}
use pasarguard_node.WireGuard.PeerStore.Replace.{AreDistinct, DiffersFrom, last_under}
use pasarguard_node.WireGuard.Diff.Patch.{OwnKeys, find_key}
use pasarguard_node.WireGuard.Start.{keep_applied}

insert_sorted-IsNodup :
    (x : String) (ys : List String)
    → contains x ys ≡ false
    → IsNodup ys
    → IsNodup (insert_sorted x ys)
unfolding insert_sorted
insert_sorted-IsNodup x [] new h = (refl, tt)
insert_sorted-IsNodup x (y ∷ ys) new (out, h) = ground (
  arith,
  new,
  out,
  h,
  insert_sorted-IsNodup x ys,
  contains-insert_sorted y x ys,
  eq_iff x y,
  eq_iff y x,
)

pub sort_strings-IsNodup : (xs : List String) → IsNodup xs → IsNodup (sort_strings xs)
unfolding sort_strings
sort_strings-IsNodup [] h = tt
sort_strings-IsNodup (x ∷ xs) (out, h) =
    insert_sorted-IsNodup x (sort_strings xs) (contains-sort_strings x xs ∙ out)
      (sort_strings-IsNodup xs h)

module _ {w : WgTypes} where
  differs-last_under :
      (p : PeerInfo w) (ps : List (PeerInfo w))
      → DiffersFrom p (map some ps)
      → last_under (key_of p) (map some ps) ≡ none
  differs-last_under p [] d = refl
  differs-last_under p (q ∷ ps) (e, k, d) = ground (
    arith,
    differs-last_under p ps d,
    k,
    eq_iff (key_of p) (key_of q),
    eq_iff (key_of q) (key_of p),
  )

  pub last_under-map :
      (k : String) (ps : List (PeerInfo w))
      → AreDistinct (map some ps)
      → last_under k (map some ps) ≡ find_key k ps
  last_under-map k [] d = refl
  last_under-map k (p ∷ ps) (d, ds) =
      ground (arith, last_under-map k ps ds, differs-last_under p ps d, eq_iff (key_of p) k)

  module _ (peers : Dict (PeerInfo w)) (own : OwnKeys peers)
      (one_key : (j k : String) (p q : PeerInfo w)
        → Dict.get peers j ≡ some p
        → Dict.get peers k ≡ some q
        → p.email ≡ q.email
        → j ≡ k) where
    differs-list_values :
        (j : String) (p : PeerInfo w) (keys : List String)
        → Dict.get peers j ≡ some p
        → contains j keys ≡ false
        → DiffersFrom p (map some (list_values peers keys))
    unfolding list_values
    differs-list_values j p [] m out = tt
    differs-list_values j p (k ∷ keys) m out = elim (Option-cases (Dict.get peers k)) [
      | inl gone ↦ rw (gone, list_values) (differs-list_values j p keys m (ground (arith, out)))
      | inr (q, there) ↦
          rw (there, list_values)
            (
              ground (arith, one_key j k p q m there, eq_iff p.email q.email, eq_iff k j, out),
              ground
                  (arith, own j p m, own k q there, eq_iff (key_of p) (key_of q), eq_iff k j, out),
              differs-list_values j p keys m (ground (arith, out)),
            )
    ]

    pub AreDistinct-list_values :
        (keys : List String) → IsNodup keys → AreDistinct (map some (list_values peers keys))
    unfolding list_values
    AreDistinct-list_values [] d = tt
    AreDistinct-list_values (j ∷ keys) (fresh, d) = elim (Option-cases (Dict.get peers j)) [
      | inl gone ↦ rw (gone, list_values) (AreDistinct-list_values keys d)
      | inr (p, there) ↦
          rw (there, list_values)
            (differs-list_values j p keys there fresh, AreDistinct-list_values keys d)
    ]

  module _ (peers : Dict (PeerInfo w)) (own : OwnKeys peers) (applied : List String)
      (all : (k : String) (p : PeerInfo w)
        → Dict.get peers k ≡ some p
        → contains k applied ≡ true) where
    pub keep_applied-all :
        (keys : List String)
        → keep_applied (list_values peers keys) applied ≡ list_values peers keys
    unfolding list_values keep_applied
    keep_applied-all [] = refl
    keep_applied-all (j ∷ keys) = elim (Option-cases (Dict.get peers j)) [
      | inl gone ↦ rw (gone, list_values) (keep_applied-all keys)
      | inr (p, there) ↦
          rw (there, list_values, own j p there, all j p there)
            (ap (λ l. p ∷ l) (keep_applied-all keys))
    ]
