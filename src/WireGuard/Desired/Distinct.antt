-- ===== src/WireGuard/Desired/Distinct.antt =====
-- backend/wireguard/user_common.go: no two of the peers that the users want share an email.
use pasarguard_node.Prelude.{
  String, ◌≡◌, refl, sym, ◌∙◌, subst, ap, false, some, List, [], ◌∷◌, map, ◌==◌, eq_iff, inl, inr,
  Bool-cases, contains, arith,
}
use pasarguard_node.Dict
use pasarguard_node.Dict.{Dict, get-put, get-empty}
use pasarguard_node.User.{User, get_wireguard, get_public_key}
use pasarguard_node.WireGuard.Types.{WgTypes}
use pasarguard_node.WireGuard.Desired.Growth.{Grows, collect_user-Grows}
use pasarguard_node.WireGuard.Users.Normal.{AreApart, AllListed}
use pasarguard_node.WireGuard.Desired.{
  ok, Result-cases, ok-injective, DesiredPeer, Collected, collect_user, collect_users,
  collect_desired_peers,
}

module _ (w : WgTypes) where
  -- The user's public key is the text that its key prints as, if it parses.
  abbrev pub IsCanonical : User → Type 0
  IsCanonical u =
      (key : w.Key)
      → w.parse_key (get_public_key (get_wireguard u)) ≡ some key
      → w.key_string key ≡ get_public_key (get_wireguard u)

module _ {w : WgTypes} where
  -- The wanted peers have emails of their own, and stand under the texts of their keys.
  pub record IsSorted (desired : Dict (DesiredPeer w)) : Type 0 where
    pub one_key :
        (j k : String) (d e : DesiredPeer w)
        → Dict.get desired j ≡ some d
        → Dict.get desired k ≡ some e
        → d.email ≡ e.email
        → j ≡ k
    pub own_key :
        (k : String) (d : DesiredPeer w)
        → Dict.get desired k ≡ some d
        → w.key_string d.parsed_key ≡ k

  abbrev IsFresh : Dict (DesiredPeer w) → String → Type 0
  IsFresh desired email =
      (k : String) (d : DesiredPeer w) → Dict.get desired k ≡ some d → (d.email == email) ≡ false

  abbrev AreFresh : Dict (DesiredPeer w) → List User → Type 0
  AreFresh desired [] = Unit
  AreFresh desired (u ∷ us) = IsFresh desired u.email × AreFresh desired us

  put-IsSorted :
      (old : Dict (DesiredPeer w)) (key : String) (d : DesiredPeer w)
      → IsSorted old
      → IsFresh old d.email
      → w.key_string d.parsed_key ≡ key
      → IsSorted (Dict.put old key d)
  put-IsSorted old key d h fresh own = record {
    one_key = λ j k a b ma mb same. elim (Bool-cases (key == j)) [
      | inl ej ↦ elim (Bool-cases (key == k)) [
        | inl ek ↦ ground (arith, eq_iff key j, eq_iff key k)
        | inr ek ↦
            let same_peer : d ≡ a = cc (rw (get-put, ej) at ma) in
            ground (
              arith,
              ap DesiredPeer.email same_peer,
              same,
              fresh k b (rw (get-put, ek) at mb),
              eq_iff b.email d.email,
            )
      ]
      | inr ej ↦ elim (Bool-cases (key == k)) [
        | inl ek ↦
            let same_peer : d ≡ b = cc (rw (get-put, ek) at mb) in
            ground (
              arith,
              ap DesiredPeer.email same_peer,
              same,
              fresh j a (rw (get-put, ej) at ma),
              eq_iff a.email d.email,
            )
        | inr ek ↦ h.one_key j k a b (rw (get-put, ej) at ma) (rw (get-put, ek) at mb) same
      ]
    ];
    own_key = λ k b m. elim (Bool-cases (key == k)) [
      | inl e ↦
          let same_peer : d ≡ b = cc (rw (get-put, e) at m) in
          subst (λ (a : DesiredPeer w). w.key_string a.parsed_key ≡ k) same_peer
            (own ∙ (eq_iff key k).0 e)
      | inr e ↦ h.own_key k b (rw (get-put, e) at m)
    ];
  }

  put-AreFresh :
      (old : Dict (DesiredPeer w)) (key : String) (d : DesiredPeer w) (us : List User)
      → AreFresh old us
      → contains d.email (map User.email us) ≡ false
      → AreFresh (Dict.put old key d) us
  put-AreFresh old key d [] h out = tt
  put-AreFresh old key d (u ∷ us) (h, hs) out = (
    λ k b m. elim (Bool-cases (key == k)) [
      | inl e ↦
          let same_peer : d ≡ b = cc (rw (get-put, e) at m) in
          ground (
            arith,
            ap DesiredPeer.email same_peer,
            out,
            eq_iff b.email u.email,
            eq_iff u.email b.email,
          )
      | inr e ↦ h k b (rw (get-put, e) at m)
    ],
    put-AreFresh old key d us hs (ground (arith, out)),
  )

  module _ (iface_nets : List w.Net) where
    -- What the loop keeps: the peers so far are sorted, and the users to come are new to them.
    abbrev Keeps : Dict (DesiredPeer w) → List User → Type 0
    Keeps desired us = IsSorted desired × AreFresh desired us

    Grows-Keeps :
        (user : User) (us : List User) (old new : Dict (DesiredPeer w))
        → Grows user old new
        → IsCanonical w user
        → contains user.email (map User.email us) ≡ false
        → Keeps old (user ∷ us)
        → Keeps new us
    Grows-Keeps user us old new (inl same) can out (h, (here, fresh)) =
        subst (λ (m : Dict (DesiredPeer w)). Keeps m us) (sym same) (h, fresh)
    Grows-Keeps user us old new (inr (d, email, parsed, same)) can out (h, (here, fresh)) =
        subst (λ (m : Dict (DesiredPeer w)). Keeps m us) (sym same)
          (
            put-IsSorted old _ d h (rw email here) (can d.parsed_key parsed),
            put-AreFresh old _ d us fresh (rw email out),
          )

    collect_users-IsSorted :
        (name : String) (users : List User) (c c' : Collected w)
        → collect_users w name iface_nets users c ≡ ok c'
        → AllListed (IsCanonical w) users
        → AreApart users
        → Keeps c.desired users
        → IsSorted c'.desired
    unfolding collect_users
    collect_users-IsSorted name [] c c' h can apart keeps =
        subst (λ (m : Collected w). IsSorted m.desired) (ok-injective h) keeps.0
    collect_users-IsSorted name (user ∷ users) c c' h (can, cans) (out, apart) keeps =
        elim (Result-cases (collect_user w name iface_nets user c)) [
          | inr (e, clash) ↦ cc (rw (collect_users, clash) at h)
          | inl (c1, one) ↦
              collect_users-IsSorted name users c1 c' (rw (collect_users, one) at h) cans apart (
                Grows-Keeps user users c.desired c1.desired
                  (collect_user-Grows iface_nets name user c c1 one) can out keeps)
        ]

    AreFresh-empty : (m : Dict (DesiredPeer w)) → m ≡ Dict.empty → (us : List User) → AreFresh m us
    AreFresh-empty m h [] = tt
    AreFresh-empty m h (u ∷ us) =
        (λ k d f. cc (get-empty {V = DesiredPeer w} k, rw h at f), AreFresh-empty m h us)

    -- From users with emails of their own and public keys written the way a key prints,
    -- collectDesiredPeers makes peers with emails of their own that stand under the texts of their
    -- keys.
    pub collect_desired_peers-IsSorted :
        (name : String) (users : List User) (desired : Dict (DesiredPeer w))
        → collect_desired_peers w name iface_nets users ≡ ok desired
        → AllListed (IsCanonical w) users
        → AreApart users
        → IsSorted desired
    unfolding collect_desired_peers
    collect_desired_peers-IsSorted name users desired h can apart =
        elim (Result-cases (collect_users w name iface_nets users start)) [
          | inr (e, clash) ↦ cc (rw (collect_desired_peers, clash) at h)
          | inl (c, all) ↦ subst IsSorted (ok-injective (rw (collect_desired_peers, all) at h)) (
              collect_users-IsSorted name users start c all can apart
                (new-IsSorted, AreFresh-empty Dict.empty refl users))
        ]
      where
        start : Collected w
        start = record { desired = Dict.empty; seen = Dict.empty }

        new-IsSorted : IsSorted Dict.empty
        new-IsSorted = record {
          one_key = λ j k d e m. cc (get-empty {V = DesiredPeer w} j);
          own_key = λ k d m. cc (get-empty {V = DesiredPeer w} k);
        }
