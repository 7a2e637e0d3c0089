-- ===== src/WireGuard/Desired.antt =====
-- backend/wireguard/user_common.go: the peers that the users want, or the clash that forbids them.
pub mod Claims
pub mod Wanted
pub mod Growth
pub mod Distinct
mod Examples
use pasarguard_node.Prelude.{
  ℕ, String, ◌≡◌, refl, ◌⊎◌, inl, inr, Bool, true, false, not, ◌&&◌, ◌||◌, Option, none, some, List,
  [], ◌∷◌, ◌++◌, leb, nat_beq, ◌==◌, if◌then◌else◌,
}
use pasarguard_node.Dict
use pasarguard_node.Dict.{Dict}
use pasarguard_node.User.{User, get_wireguard, get_public_key, get_peer_ips}
use pasarguard_node.WireGuard.Types.{WgTypes}
use pasarguard_node.WireGuard.Users.{should_include_user_in_interface}

pub data Error : Type 0 where
  -- the address, and the two emails that claim it
  duplicate_ip : String → String → String → Error
  -- the public key, and its two emails
  duplicate_key : String → String → String → Error

pub data Result {ℓ} (A : Type ℓ) : Type ℓ where
  ok : A → Result A
  err : Error → Result A

pub Result-cases {ℓ} :
    {A : Type ℓ} (r : Result A) → ((a : A) × (r ≡ ok a)) ⊎ ((e : Error) × (r ≡ err e))
Result-cases (ok a) = inl (a, refl)
Result-cases (err e) = inr (e, refl)

pub ok-injective {ℓ} : {A : Type ℓ} {a b : A} → ok a ≡ ok b → a ≡ b
ok-injective h = cc

pub record DesiredPeer (w : WgTypes) : Type 0 where
  pub email : String
  pub public_key : String
  pub parsed_key : w.Key
  pub allowed_ip_nets : List w.Net

-- existingEmail, exists := seenIPs[ip]; exists && existingEmail != email
unfoldable pub other_owner : Dict String → String → String → Option String
other_owner owners k email = elim (Dict.get owners k) [
  | none ↦ none
  | some owner ↦ if owner == email then none else some owner
]

module _ (w : WgTypes) where
  open w use {parse_key, net_string, parse_cidr, ip_len, mask_ones, net_contains}

  -- The networks are never nil: they come from ParseCIDR.
  unfoldable pub in_pools : w.Net → List w.Net → Bool
  in_pools peer_net [] = false
  in_pools peer_net (pool ∷ pools) =
      (nat_beq (ip_len peer_net) (ip_len pool)
        && net_contains pool peer_net
        && leb (mask_ones pool) (mask_ones peer_net))
      || in_pools peer_net pools

  unfoldable pub peer_ip_allowed_on_interface : w.Net → List w.Net → Bool
  unfolding in_pools
  peer_ip_allowed_on_interface peer_net [] = true
  peer_ip_allowed_on_interface peer_net (pool ∷ pools) = in_pools peer_net (pool ∷ pools)

  -- What the loop over a user's addresses has gathered: who claims each address, the networks of
  -- this user, and whether an address did not parse.
  pub record Gathered : Type 0 where
    pub seen_ips : Dict String
    pub nets : List w.Net
    pub has_invalid_ip : Bool

  unfoldable pub claim : String → w.Net → Gathered → Result Gathered
  claim email net g = elim (other_owner g.seen_ips (net_string net) email) [
    | some owner ↦ err (duplicate_ip (net_string net) owner email)
    | none ↦ ok (record g {
      seen_ips = Dict.put g.seen_ips (net_string net) email;
      nets = g.nets ++ net ∷ [];
    })
  ]

  unfoldable pub gather : String → List w.Net → List String → Gathered → Result Gathered
  gather email iface_nets [] g = ok g
  gather email iface_nets (peer_ip ∷ peer_ips) g = elim (parse_cidr peer_ip) [
    | none ↦ ok (record g { has_invalid_ip = true })
    | some net ↦ elim (peer_ip_allowed_on_interface net iface_nets) [
      | false ↦ gather email iface_nets peer_ips g
      | true ↦ elim (claim email net g) [
        | err e ↦ err e
        | ok g' ↦ gather email iface_nets peer_ips g'
      ]
    ]
  ]

  pub record Collected : Type 0 where
    pub desired : Dict (DesiredPeer w)
    pub seen : Dict String

  -- existing, exists := desiredPeers[key]; exists && existing.Email != email
  unfoldable pub other_holder : Dict (DesiredPeer w) → String → String → Option String
  other_holder desired k email = elim (Dict.get desired k) [
    | none ↦ none
    | some existing ↦ if existing.email == email then none else some existing.email
  ]

  unfoldable pub settle_user : User → w.Key → Collected → Gathered → Result Collected
  unfolding other_holder
  settle_user user parsed c g =
      let key = get_public_key (get_wireguard user) in
      if g.has_invalid_ip then ok (record c { seen = g.seen_ips }) else elim g.nets [
        | [] ↦ ok (record c { seen = g.seen_ips })
        | _ ∷ _ ↦ elim (other_holder c.desired key user.email) [
          | some holder ↦ err (duplicate_key key holder user.email)
          | none ↦ ok (record {
            desired = Dict.put c.desired key (record {
              email = user.email;
              public_key = key;
              parsed_key = parsed;
              allowed_ip_nets = g.nets;
            });
            seen = g.seen_ips;
          })
        ]
      ]

  unfoldable pub collect_user : String → List w.Net → User → Collected → Result Collected
  unfolding gather claim settle_user
  collect_user interface_name iface_nets user c =
      if should_include_user_in_interface user interface_name
      then elim (parse_key (get_public_key (get_wireguard user))) [
        | none ↦ ok c
        | some parsed ↦
            elim (gather user.email iface_nets (get_peer_ips (get_wireguard user))
              (record { seen_ips = c.seen; nets = []; has_invalid_ip = false })) [
                | err e ↦ err e
                | ok g ↦ settle_user user parsed c g
              ]
      ]
      else ok c

  unfoldable pub collect_users : String → List w.Net → List User → Collected → Result Collected
  unfolding collect_user
  collect_users interface_name iface_nets [] c = ok c
  collect_users interface_name iface_nets (user ∷ users) c =
      elim (collect_user interface_name iface_nets user c) [
        | err e ↦ err e
        | ok c' ↦ collect_users interface_name iface_nets users c'
      ]

  unfoldable pub collect_desired_peers :
      String → List w.Net → List User → Result (Dict (DesiredPeer w))
  unfolding collect_users
  collect_desired_peers interface_name iface_nets users =
      elim (collect_users interface_name iface_nets users
        (record { desired = Dict.empty; seen = Dict.empty })) [
          | err e ↦ err e
          | ok c ↦ ok c.desired
        ]
