-- ===== src/WireGuard/Desired/Examples.antt =====
-- The theorems about the wanted peers at concrete inputs.
use pasarguard_node.Prelude.{◌≡◌, refl, some, List, [], ◌∷◌, arith}
use pasarguard_node.Dict
use pasarguard_node.Dict.{Dict, get-put}
use pasarguard_node.User.{User}
use pasarguard_node.WireGuard.Users.{should_include_user_in_interface}
use pasarguard_node.WireGuard.TestData.{texts, user, wanted}
use pasarguard_node.WireGuard.Desired.{
  ok, DesiredPeer, collect_desired_peers, other_owner, peer_ip_allowed_on_interface, gather,
  in_pools, other_holder, claim, settle_user, collect_user, collect_users,
}
use pasarguard_node.WireGuard.Desired.Wanted.{collect_desired_peers_no_shared_ip}

-- One email with two keys and one address.
abbrev two_keys : List User
two_keys = user "alice" "k1" "10.0.0.2/32" ∷ user "alice" "k2" "10.0.0.2/32" ∷ []

abbrev both : Dict (DesiredPeer texts)
both =
    Dict.put (Dict.put Dict.empty "k1" (wanted "alice" "k1" "10.0.0.2/32")) "k2"
      (wanted "alice" "k2" "10.0.0.2/32")

both_collected : collect_desired_peers texts "wg0" [] two_keys ≡ ok both
unfolding collect_desired_peers Dict.put Dict.empty Dict.get should_include_user_in_interface
    other_owner peer_ip_allowed_on_interface gather in_pools other_holder claim settle_user
    collect_user collect_users
both_collected = refl

first_wanted : Dict.get both "k1" ≡ some (wanted "alice" "k1" "10.0.0.2/32")
first_wanted = grind (arith, get-put)

second_wanted : Dict.get both "k2" ≡ some (wanted "alice" "k2" "10.0.0.2/32")
second_wanted = grind (arith, get-put)

collect_desired_peers_no_shared_ip_example :
    (wanted "alice" "k1" "10.0.0.2/32").email ≡ (wanted "alice" "k2" "10.0.0.2/32").email
collect_desired_peers_no_shared_ip_example =
    collect_desired_peers_no_shared_ip texts [] "wg0" two_keys both both_collected "k1" "k2"
      "10.0.0.2/32" (wanted "alice" "k1" "10.0.0.2/32") (wanted "alice" "k2" "10.0.0.2/32")
      first_wanted second_wanted refl refl

-- Networks that are not equal do not clash, though the first holds the address of the second.
overlapping_accepted :
    collect_desired_peers texts "wg0" []
      (user "alice" "k1" "10.0.0.0/24" ∷ user "bob" "k2" "10.0.0.5/32" ∷ [])
    ≡ ok (
        Dict.put
          (Dict.put Dict.empty "k1" (wanted "alice" "k1" "10.0.0.0/24"))
          "k2"
          (wanted "bob" "k2" "10.0.0.5/32"))
unfolding collect_desired_peers Dict.put Dict.empty Dict.get should_include_user_in_interface
    other_owner peer_ip_allowed_on_interface gather in_pools other_holder claim settle_user
    collect_user collect_users
overlapping_accepted = refl
