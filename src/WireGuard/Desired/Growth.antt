-- ===== src/WireGuard/Desired/Growth.antt =====
-- backend/wireguard/user_common.go: one user adds at most one wanted peer, with the user's email.
use pasarguard_node.Prelude.{
  String, ◌≡◌, ◌⊎◌, refl, sym, ap, false, some, List, [], inl, inr, Option-cases, Bool-cases,
  List-cases,
}
use pasarguard_node.Dict
use pasarguard_node.Dict.{Dict, get-put, get-empty}
use pasarguard_node.User.{User, get_wireguard, get_public_key, get_peer_ips}
use pasarguard_node.WireGuard.Types.{WgTypes}
use pasarguard_node.WireGuard.Users.{should_include_user_in_interface}
use pasarguard_node.WireGuard.Desired.{
  ok, Result-cases, ok-injective, DesiredPeer, Gathered, Collected, other_holder, gather,
  settle_user, collect_user,
}

module _ {w : WgTypes} where
  -- What one user does to the wanted peers.
  abbrev pub Grows : User → Dict (DesiredPeer w) → Dict (DesiredPeer w) → Type 0
  Grows u old new =
      (new ≡ old)
      ⊎ ((d : DesiredPeer w) × (d.email ≡ u.email)
          × (w.parse_key (get_public_key (get_wireguard u)) ≡ some d.parsed_key)
          × (new ≡ Dict.put old (get_public_key (get_wireguard u)) d))

  module _ (iface_nets : List w.Net) where
    settle_user-Grows :
        (user : User) (parsed : w.Key) (c c' : Collected w) (g : Gathered w)
        → settle_user w user parsed c g ≡ ok c'
        → w.parse_key (get_public_key (get_wireguard user)) ≡ some parsed
        → Grows user c.desired c'.desired
    unfolding settle_user
    settle_user-Grows user parsed c c' g h p = elim (Bool-cases g.has_invalid_ip) [
      | inl bad ↦ inl (ap Collected.desired (sym (ok-injective (rw (settle_user, bad) at h))))
      | inr good ↦ elim (List-cases g.nets) [
        | inl nothing ↦
            inl (ap Collected.desired (sym (ok-injective (rw (settle_user, good, nothing) at h))))
        | inr (n, ns, nets) ↦
            elim (Option-cases
              (other_holder w c.desired (get_public_key (get_wireguard user)) user.email)) [
                | inr (holder, clash) ↦ cc (rw (settle_user, good, nets, clash) at h)
                | inl free ↦ inr (
                  _,
                  refl,
                  p,
                  ap Collected.desired
                      (sym (ok-injective (rw (settle_user, good, nets, free) at h))),
                )
              ]
      ]
    ]

    pub collect_user-Grows :
        (name : String) (user : User) (c c' : Collected w)
        → collect_user w name iface_nets user c ≡ ok c'
        → Grows user c.desired c'.desired
    unfolding collect_user
    collect_user-Grows name user c c' h =
        elim (Bool-cases (should_include_user_in_interface user name)) [
          | inr out ↦ inl (ap Collected.desired (sym (ok-injective (rw (collect_user, out) at h))))
          | inl member ↦ elim (Option-cases (w.parse_key (get_public_key (get_wireguard user)))) [
            | inl bad ↦
                inl
                  (ap Collected.desired (sym (ok-injective (rw (collect_user, member, bad) at h))))
            | inr (key, parsed) ↦
                elim (Result-cases
                  (gather w user.email iface_nets (get_peer_ips (get_wireguard user)) (start c))) [
                    | inr (e, clash) ↦ cc (rw (collect_user, member, parsed, clash) at h)
                    | inl (g, gathered) ↦
                        settle_user-Grows user key c c' g
                          (rw (collect_user, member, parsed, gathered) at h) parsed
                  ]
          ]
        ]
      where
        start : Collected w → Gathered w
        start c = record { seen_ips = c.seen; nets = []; has_invalid_ip = false }
