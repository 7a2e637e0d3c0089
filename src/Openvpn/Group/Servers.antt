-- ===== src/Openvpn/Group/Servers.antt =====
-- backend/openvpn: the servers of a core and their subnets.
use pasarguard_node.Prelude.{
  ℕ, ◌+◌, ◌-◌, ◌^◌, ◌≤◌, ◌<◌, ◌≡◌, ◌⊎◌, refl, ◌∙◌, sym, ap, subst, String, Option, some, List, [],
  ◌∷◌, inl, inr, length, leb, arith, Bool-cases, List-cases, true, false,
}
use pasarguard_node.Backend.Composite.{new_composite}
use pasarguard_node.Openvpn.Config.{Config, Listener}
use pasarguard_node.Openvpn.Listeners
use pasarguard_node.Openvpn.Listeners.{
  Addr4, Prefix, SplitError, to_number, split_prefix, split_subnet,
}
use pasarguard_node.Openvpn.Listeners.Blocks.{
  IsInSpace, split_prefix_apart, split_subnet_cases, ok-injective,
}
use pasarguard_node.Openvpn.Group.{
  Launched, up, refused, not_launched, Group, alone, several, failed, derive, only, new_backend,
}
use pasarguard_node.Openvpn.Group.Started.{
  Result-cases, Launched-cases, AreServers, AreServersUpTo, each_down, shutdown_all-each_down,
  start_each_lem,
}

module _ (parse_prefix : String → Option Prefix) (prefix_string : Addr4 × ℕ → String)
    (work_path : Config → Listener → String) where
  module _ {B : Type 0} (new : Config → Launched B) (shutdown : B → B) where
    -- What NewBackend answers for one listener at most, and for more.
    abbrev pub IsOne : Config → Group B → Type 0
    IsOne c (alone b) = new c ≡ up b
    IsOne c (several bs) = false ≡ true
    IsOne c (failed e stopped) =
        (x : String) × (new c ≡ refused x) × (e ≡ not_launched x) × (stopped ≡ [])

    abbrev pub AreSeveral : Config → Group B → Type 0
    AreSeveral c (alone b) = false ≡ true
    AreSeveral c (several r) =
        (bs : List B) × (r ≡ some bs)
        × AreServers parse_prefix prefix_string work_path new shutdown c (length c.listeners)
            c.listeners 0 bs
    AreSeveral c (failed e stopped) =
        (bs : List B) × (stopped
          ≡ each_down parse_prefix prefix_string work_path new shutdown c (length c.listeners) bs)
        × AreServersUpTo parse_prefix prefix_string work_path new shutdown c (length c.listeners)
            c.listeners 0 bs e

    abbrev pub IsGroup : Config → Group B → Type 0
    IsGroup c r =
        ((length c.listeners ≤ 1) × IsOne c r) ⊎ ((1 < length c.listeners) × AreSeveral c r)

    only-IsOne :
        (c : Config) → IsOne c (only parse_prefix prefix_string work_path new shutdown (new c))
    unfolding only
    only-IsOne c = elim (Launched-cases (new c)) [
      | inl (b, runs) ↦ rw (runs, only) runs
      | inr (x, bad) ↦ rw (bad, only) (x, bad, refl, refl)
    ]

    -- Of more than one listener there is a server, so that the composite is not nil.
    composite_of_servers :
        (c : Config) (bs : List B)
        → 1 < length c.listeners
        → AreServers parse_prefix prefix_string work_path new shutdown c
            (length c.listeners)
            c.listeners
            0
            bs
        → new_composite bs ≡ some bs
    unfolding new_composite
    composite_of_servers c (b ∷ bs) many servers = refl
    composite_of_servers c [] many servers = elim (List-cases c.listeners) [
      | inl e ↦ ground (arith, e)
      | inr (l, ls, e) ↦ cc (rw e at servers)
    ]

    -- NewBackend starts the one server of a core with one listener at most, or fails with its error.
    -- For more it starts one server for each listener, in order, with the configuration that derive
    -- makes for its index; or it fails with the error of the first listener that has no such
    -- configuration or does not come up, and the servers of all listeners before it are shut down.
    pub new_backend-IsGroup :
        (c : Config) → IsGroup c (new_backend parse_prefix prefix_string work_path new shutdown c)
    unfolding new_backend
    new_backend-IsGroup c = elim (Bool-cases (leb (length c.listeners) 1)) [
      | inl few ↦ rw (few, new_backend) (inl (ground (arith, few), only-IsOne c))
      | inr more ↦
          let many : 1 < length c.listeners = ground (arith, more) in
          rw (more, new_backend)
            (elim (start_each_lem parse_prefix prefix_string work_path new shutdown c
              (length c.listeners) c.listeners 0 []) [
                | inl (bs, same, servers) ↦
                    rw same (inr (many, (bs, composite_of_servers c bs many servers, servers)))
                | inr (bs, e, same, servers) ↦ rw same (
                    inr (
                      many,
                      (
                        bs,
                        shutdown_all-each_down parse_prefix prefix_string work_path new shutdown c
                            (length c.listeners) bs,
                        servers,
                      ),
                    ))
              ])
    ]

  derive_subnet :
      (c d : Config) (l : Listener) (index total : ℕ)
      → derive parse_prefix prefix_string work_path c l index total ≡ Listeners.ok d
      → split_subnet parse_prefix prefix_string c.server_subnet index total
        ≡ Listeners.ok d.server_subnet
  unfolding derive
  derive_subnet c d l index total h =
      elim (Result-cases (split_subnet parse_prefix prefix_string c.server_subnet index total)) [
        | inr (e, bad) ↦ cc (rw (bad, derive) at h)
        | inl (sub, good) ↦
            good ∙ ap Listeners.ok (ap Config.server_subnet (ok-injective (rw (good, derive) at h)))
      ]

  -- The servers of two listeners hand out addresses of two blocks of the core's subnet, of one length
  -- of at most 24 bits, which have no address in common, if the subnet's addresses are IPv4 addresses.
  pub derive_apart :
      (c d e : Config) (p : Prefix) (l k : Listener) (i j total : ℕ)
      → parse_prefix c.server_subnet ≡ some p
      → IsInSpace p
      → i < j
      → j < total
      → derive parse_prefix prefix_string work_path c l i total ≡ Listeners.ok d
      → derive parse_prefix prefix_string work_path c k j total ≡ Listeners.ok e
      → (a : Addr4) × (b : Addr4) × (n : ℕ) × (n ≤ 24)
        × (d.server_subnet ≡ prefix_string (a, n))
        × (e.server_subnet ≡ prefix_string (b, n))
        × (to_number p.masked ≤ to_number a)
        × (to_number a + 2 ^ (32 - n) ≤ to_number b)
        × (to_number b + 2 ^ (32 - n) ≤ to_number p.masked + 2 ^ (32 - p.bits))
  derive_apart c d e p l k i j total here space before below first second =
      let cases = split_subnet_cases parse_prefix prefix_string c.server_subnet in
      let more : 1 < total = omega (arith, before, below) in
      let ((a, m), at_i, text) =
        cases d.server_subnet p i total more here (derive_subnet c d l i total first) in
      let ((b, n), at_j, text') =
        cases e.server_subnet p j total more here (derive_subnet c e k j total second) in
      let (short, same, low, apart, high) =
        split_prefix_apart p i j total a b m n space before below at_i at_j in
      (
        a,
        b,
        m,
        short,
        text,
        text' ∙ ap (λ x. prefix_string (b, x)) (sym same),
        low,
        apart,
        subst (λ x. to_number b + 2 ^ (32 - x) ≤ to_number p.masked + 2 ^ (32 - p.bits)) (sym same)
            high,
      )
