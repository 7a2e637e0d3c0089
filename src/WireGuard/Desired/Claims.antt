-- ===== src/WireGuard/Desired/Claims.antt =====
-- backend/wireguard/user_common.go: the claims that users make on addresses.
use pasarguard_node.Prelude.{
  String, ◌≡◌, true, some, List, [], ◌∷◌, ◌++◌, arith, eq_iff, eq_refl, inl, inr, Option-cases,
  Bool-cases, subst,
}
use pasarguard_node.Dict
use pasarguard_node.Dict.{Dict, get-put, get-empty}
use pasarguard_node.WireGuard.Types.{WgTypes}
use pasarguard_node.WireGuard.Desired.{
  ok, Result-cases, ok-injective, Gathered, peer_ip_allowed_on_interface, other_owner, claim,
  gather,
}

-- Every claim of the first map stands in the second.
abbrev pub Extends : Dict String → Dict String → Type 0
Extends a b = (k e : String) → Dict.get a k ≡ some e → Dict.get b k ≡ some e

module _ (w : WgTypes) (iface_nets : List w.Net) where
  -- The networks are claimed by the email, and each is allowed on the interface.
  abbrev pub AreClaimed : Dict String → String → List w.Net → Type 0
  AreClaimed seen email [] = Unit
  AreClaimed seen email (n ∷ ns) =
      (Dict.get seen (w.net_string n) ≡ some email)
      × (peer_ip_allowed_on_interface w n iface_nets ≡ true)
      × AreClaimed seen email ns

  pub AreClaimed-Extends :
      (a b : Dict String) (email : String) (ns : List w.Net)
      → Extends a b
      → AreClaimed a email ns
      → AreClaimed b email ns
  AreClaimed-Extends a b email [] h c = tt
  AreClaimed-Extends a b email (n ∷ ns) h c =
      (h (w.net_string n) email c.0, c.1, AreClaimed-Extends a b email ns h c.2)

  AreClaimed-snoc :
      (seen : Dict String) (email : String) (ns : List w.Net) (n : w.Net)
      → AreClaimed seen email ns
      → Dict.get seen (w.net_string n) ≡ some email
      → peer_ip_allowed_on_interface w n iface_nets ≡ true
      → AreClaimed seen email (ns ++ n ∷ [])
  AreClaimed-snoc seen email [] n c h a = (h, a, tt)
  AreClaimed-snoc seen email (m ∷ ns) n c h a = (c.0, c.1, AreClaimed-snoc seen email ns n c.2 h a)

  claim-Extends :
      (email : String) (n : w.Net) (g g' : Gathered w)
      → claim w email n g ≡ ok g'
      → Extends g.seen_ips g'.seen_ips
  unfolding claim other_owner
  claim-Extends email n g g' h k e m = ground (
    arith,
    eq_iff (w.net_string n) k,
    get-put g.seen_ips (w.net_string n) k email,
    eq_iff e email,
  )

  claim_claims :
      (email : String) (n : w.Net) (g g' : Gathered w)
      → claim w email n g ≡ ok g'
      → (Dict.get g'.seen_ips (w.net_string n) ≡ some email) × (g'.nets ≡ g.nets ++ n ∷ [])
  unfolding claim
  claim_claims email n g g' h = (
    ground (
      arith,
      get-put g.seen_ips (w.net_string n) (w.net_string n) email,
      eq_refl (w.net_string n),
    ),
    ground arith,
  )

  -- From one state of the loop to a later one: no claim is lost, and the networks are claimed.
  abbrev pub Progress : String → Gathered w → Gathered w → Type 0
  Progress email g g' = Extends g.seen_ips g'.seen_ips × AreClaimed g'.seen_ips email g'.nets

  claim-Progress :
      (email : String) (n : w.Net) (g g' : Gathered w)
      → claim w email n g ≡ ok g'
      → peer_ip_allowed_on_interface w n iface_nets ≡ true
      → AreClaimed g.seen_ips email g.nets
      → Progress email g g'
  claim-Progress email n g g' h inside c =
      let extends = claim-Extends email n g g' h in
      let (claimed, nets) = claim_claims email n g g' h in
      (
        extends,
        rw nets (
            AreClaimed-snoc g'.seen_ips email g.nets n
              (AreClaimed-Extends g.seen_ips g'.seen_ips email g.nets extends c) claimed inside),
      )

  pub gather-Progress :
      (email : String) (ips : List String) (g g' : Gathered w)
      → gather w email iface_nets ips g ≡ ok g'
      → AreClaimed g.seen_ips email g.nets
      → Progress email g g'
  unfolding gather
  gather-Progress email [] g g' h c = subst (Progress email g) (ok-injective h) (λ k e m. m, c)
  gather-Progress email (ip ∷ ips) g g' h c = elim (Option-cases (w.parse_cidr ip)) [
    | inl bad ↦ subst (Progress email g) (ok-injective (rw (bad, gather) at h)) (λ k e m. m, c)
    | inr (n, parsed) ↦ elim (Bool-cases (peer_ip_allowed_on_interface w n iface_nets)) [
      | inr outside ↦ gather-Progress email ips g g' (rw (parsed, gather, outside) at h) c
      | inl inside ↦ elim (Result-cases (claim w email n g)) [
        | inr (e, clash) ↦ cc (rw (parsed, gather, inside, clash) at h)
        | inl (g1, claimed) ↦
            let (extends, c1) = claim-Progress email n g g1 claimed inside c in
            let (extends', c') =
              gather-Progress email ips g1 g' (rw (parsed, gather, inside, claimed) at h) c1 in
            (λ k e m. extends' k e (extends k e m), c')
      ]
    ]
  ]
