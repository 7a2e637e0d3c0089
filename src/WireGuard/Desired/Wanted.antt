-- ===== src/WireGuard/Desired/Wanted.antt =====
-- backend/wireguard/user_common.go: what holds of every peer that the users want.
use pasarguard_node.Prelude.{
  String, ◌≡◌, ◌≢◌, refl, subst, true, false, some, List, [], ◌∷◌, map, ◌==◌, eq_iff, inl, inr,
  Option-cases, Bool-cases, List-cases, contains,
}
use pasarguard_node.Dict
use pasarguard_node.Dict.{Dict, get-put, get-empty}
use pasarguard_node.User.{User, get_wireguard, get_public_key, get_peer_ips}
use pasarguard_node.WireGuard.Types.{WgTypes}
use pasarguard_node.WireGuard.Users.{should_include_user_in_interface}
use pasarguard_node.WireGuard.Desired.{
  ok, Result-cases, ok-injective, DesiredPeer, Gathered, Collected, peer_ip_allowed_on_interface,
  other_holder, gather, settle_user, collect_user, collect_users, collect_desired_peers,
}
use pasarguard_node.WireGuard.Desired.Claims.{
  Extends, AreClaimed, AreClaimed-Extends, gather-Progress,
}

module _ (w : WgTypes) (iface_nets : List w.Net) where
  -- A peer of the result, under its key.
  pub record IsWanted (seen : Dict String) (key : String) (d : DesiredPeer w) : Type 0 where
    pub under_key : d.public_key ≡ key
    pub parses : w.parse_key key ≡ some d.parsed_key
    pub has_net : d.allowed_ip_nets ≢ []
    pub claimed : AreClaimed w iface_nets seen d.email d.allowed_ip_nets

  abbrev AllWanted : Collected w → Type 0
  AllWanted c =
      (k : String) (d : DesiredPeer w) → Dict.get c.desired k ≡ some d → IsWanted c.seen k d

  IsWanted-Extends :
      (a b : Dict String) (k : String) (d : DesiredPeer w)
      → Extends a b
      → IsWanted a k d
      → IsWanted b k d
  IsWanted-Extends a b k d h q = record {
    under_key = q.under_key;
    parses = q.parses;
    has_net = q.has_net;
    claimed = AreClaimed-Extends w iface_nets a b d.email d.allowed_ip_nets h q.claimed;
  }

  unchanged_wanted :
      (c : Collected w) (seen : Dict String)
      → Extends c.seen seen
      → AllWanted c
      → AllWanted (record c { seen = seen })
  unchanged_wanted c seen x q k d m = IsWanted-Extends c.seen seen k d x (q k d m)

  put_wanted :
      (c : Collected w) (seen : Dict String) (key : String) (new : DesiredPeer w)
      → Extends c.seen seen
      → AllWanted c
      → IsWanted seen key new
      → AllWanted (record { desired = Dict.put c.desired key new; seen = seen })
  put_wanted c seen key new x q n k d m = elim (Bool-cases (key == k)) [
    | inl e ↦
        let same : new ≡ d = cc (rw (get-put, e) at m) in
        subst (λ (j : String). IsWanted seen j d) ((eq_iff key k).0 e)
          (subst (IsWanted seen key) same n)
    | inr e ↦ IsWanted-Extends c.seen seen k d x (q k d (rw (get-put, e) at m))
  ]

  settle_user_wanted :
      (user : User) (parsed : w.Key) (c c' : Collected w) (g : Gathered w)
      → settle_user w user parsed c g ≡ ok c'
      → w.parse_key (get_public_key (get_wireguard user)) ≡ some parsed
      → Extends c.seen g.seen_ips
      → AreClaimed w iface_nets g.seen_ips user.email g.nets
      → AllWanted c
      → AllWanted c'
  unfolding settle_user
  settle_user_wanted user parsed c c' g h p x a q = elim (Bool-cases g.has_invalid_ip) [
    | inl bad ↦
        subst AllWanted (ok-injective (rw (settle_user, bad) at h)) (unchanged_wanted c _ x q)
    | inr good ↦ elim (List-cases g.nets) [
      | inl nothing ↦
          subst AllWanted (ok-injective (rw (settle_user, good, nothing) at h))
            (unchanged_wanted c _ x q)
      | inr (n, ns, nets) ↦
          elim (Option-cases
            (other_holder w c.desired (get_public_key (get_wireguard user)) user.email)) [
              | inr (holder, clash) ↦ cc (rw (settle_user, good, nets, clash) at h)
              | inl free ↦
                  subst AllWanted (ok-injective (rw (settle_user, good, nets, free) at h)) (
                    put_wanted c _ _ _ x q
                      (record { under_key = refl; parses = p; has_net = λ e. cc; claimed = a }))
            ]
    ]
  ]

  collect_user_wanted :
      (name : String) (user : User) (c c' : Collected w)
      → collect_user w name iface_nets user c ≡ ok c'
      → AllWanted c
      → AllWanted c'
  unfolding collect_user
  collect_user_wanted name user c c' h q =
      elim (Bool-cases (should_include_user_in_interface user name)) [
        | inr out ↦ subst AllWanted (ok-injective (rw (collect_user, out) at h)) q
        | inl member ↦ elim (Option-cases (w.parse_key (get_public_key (get_wireguard user)))) [
          | inl bad ↦ subst AllWanted (ok-injective (rw (collect_user, member, bad) at h)) q
          | inr (key, parsed) ↦
              elim (Result-cases
                (gather w user.email iface_nets (get_peer_ips (get_wireguard user)) (start c))) [
                  | inr (e, clash) ↦ cc (rw (collect_user, member, parsed, clash) at h)
                  | inl (g, gathered) ↦
                      let (x, a) =
                        gather-Progress w iface_nets user.email _ (start c) g gathered tt in
                      settle_user_wanted user key c c' g
                        (rw (collect_user, member, parsed, gathered) at h) parsed x a q
                ]
        ]
      ]
    where
      start : Collected w → Gathered w
      start c = record { seen_ips = c.seen; nets = []; has_invalid_ip = false }

  collect_users_wanted :
      (name : String) (users : List User) (c c' : Collected w)
      → collect_users w name iface_nets users c ≡ ok c'
      → AllWanted c
      → AllWanted c'
  unfolding collect_users
  collect_users_wanted name [] c c' h q = subst AllWanted (ok-injective h) q
  collect_users_wanted name (user ∷ users) c c' h q =
      elim (Result-cases (collect_user w name iface_nets user c)) [
        | inr (e, clash) ↦ cc (rw (collect_users, clash) at h)
        | inl (c1, one) ↦
            collect_users_wanted name users c1 c' (rw (collect_users, one) at h)
              (collect_user_wanted name user c c1 one q)
      ]

  pub collect_desired_peers-IsWanted :
      (name : String) (users : List User) (desired : Dict (DesiredPeer w))
      → collect_desired_peers w name iface_nets users ≡ ok desired
      → (seen : Dict String) × ((k : String) (d : DesiredPeer w)
          → Dict.get desired k ≡ some d
          → IsWanted seen k d)
  unfolding collect_desired_peers
  collect_desired_peers-IsWanted name users desired h =
      elim (Result-cases (collect_users w name iface_nets users start)) [
        | inr (e, clash) ↦ cc (rw (collect_desired_peers, clash) at h)
        | inl (c, all) ↦
            let wanted =
              collect_users_wanted name users start c all
                (λ k d m. cc (get-empty {V = DesiredPeer w} k)) in
            let same : c.desired ≡ desired = ok-injective (rw (collect_desired_peers, all) at h) in
            (c.seen, λ k d m. wanted k d (rw same m))
      ]
    where
      start : Collected w
      start = record { desired = Dict.empty; seen = Dict.empty }

  owner_of_claim :
      (seen : Dict String) (email s : String) (ns : List w.Net)
      → AreClaimed w iface_nets seen email ns
      → contains s (map w.net_string ns) ≡ true
      → Dict.get seen s ≡ some email
  owner_of_claim seen email s [] c m = cc
  owner_of_claim seen email s (n ∷ ns) c m = elim (Bool-cases (w.net_string n == s)) [
    | inl e ↦ rw (← (eq_iff (w.net_string n) s).0 e) c.0
    | inr e ↦ owner_of_claim seen email s ns c.2 (rw e at m)
  ]

  -- Where collectDesiredPeers succeeds, two wanted peers that both have a network with one canonical
  -- text belong to the same email.
  pub collect_desired_peers_no_shared_ip :
      (name : String) (users : List User) (desired : Dict (DesiredPeer w))
      → collect_desired_peers w name iface_nets users ≡ ok desired
      → (j k s : String) (d e : DesiredPeer w) → Dict.get desired j ≡ some d
      → Dict.get desired k ≡ some e
      → contains s (map w.net_string d.allowed_ip_nets) ≡ true
      → contains s (map w.net_string e.allowed_ip_nets) ≡ true
      → d.email ≡ e.email
  collect_desired_peers_no_shared_ip name users desired h j k s d e md me sd se =
      let (seen, wanted) = collect_desired_peers-IsWanted name users desired h in
      cc (
        owner_of_claim seen d.email s d.allowed_ip_nets (wanted j d md).claimed sd,
        owner_of_claim seen e.email s e.allowed_ip_nets (wanted k e me).claimed se,
      )

  -- The networks are of the interface's address ranges.
  abbrev pub AreAllowed : List w.Net → Type 0
  AreAllowed [] = Unit
  AreAllowed (n ∷ ns) = (peer_ip_allowed_on_interface w n iface_nets ≡ true) × AreAllowed ns

  AreClaimed-AreAllowed :
      (seen : Dict String) (email : String) (ns : List w.Net)
      → AreClaimed w iface_nets seen email ns
      → AreAllowed ns
  AreClaimed-AreAllowed seen email [] c = tt
  AreClaimed-AreAllowed seen email (n ∷ ns) c = (c.1, AreClaimed-AreAllowed seen email ns c.2)

  -- Where collectDesiredPeers succeeds, every peer stands under its own public key, which parses to
  -- its key, and has at least one network, each within the address ranges of the interface.
  pub collect_desired_peers_valid :
      (name : String) (users : List User) (desired : Dict (DesiredPeer w))
      → collect_desired_peers w name iface_nets users ≡ ok desired
      → (k : String) (d : DesiredPeer w) → Dict.get desired k ≡ some d
      → (d.public_key ≡ k)
        × (w.parse_key k ≡ some d.parsed_key)
        × (d.allowed_ip_nets ≢ [])
        × AreAllowed d.allowed_ip_nets
  collect_desired_peers_valid name users desired h k d m =
      let (seen, wanted) = collect_desired_peers-IsWanted name users desired h in
      let p = wanted k d m in
      (p.under_key, p.parses, p.has_net, AreClaimed-AreAllowed seen d.email _ p.claimed)
