-- ===== src/L2tp/Pool.antt =====
-- backend/l2tp/serverconf.go: the range of addresses that xl2tpd gives to its clients. ParseCIDR and
-- the text of an address are arguments.
use Prim.Native.Nat.{bit_or}
use pasarguard_node.Prelude.{
  ℕ, ◌+◌, ◌-◌, ◌%◌, String, Bool, false, Option, none, some, if◌then◌else◌, ltb, nat_beq,
}

-- The four bytes of a net.IP.
pub record Ip : Type 0 where
  pub b0 : ℕ
  pub b1 : ℕ
  pub b2 : ℕ
  pub b3 : ℕ

-- The loop goes from the last byte on, and ends where a byte does not wrap to 0.
unfoldable pub inc : Ip → Ip
inc ip =
    let c3 = (ip.b3 + 1) % 256 in
    let c2 = (ip.b2 + 1) % 256 in
    let c1 = (ip.b1 + 1) % 256 in
    let c0 = (ip.b0 + 1) % 256 in
    if nat_beq c3 0
    then (if nat_beq c2 0
        then (if nat_beq c1 0
            then record { b0 = c0; b1 = c1; b2 = c2; b3 = c3 }
            else record ip { b1 = c1; b2 = c2; b3 = c3 })
        else record ip { b2 = c2; b3 = c3 })
    else record ip { b3 = c3 }

unfoldable pub dec : Ip → Ip
dec ip =
    if nat_beq ip.b3 0
    then (if nat_beq ip.b2 0
        then (if nat_beq ip.b1 0
            then (if nat_beq ip.b0 0
                then record { b0 = 255; b1 = 255; b2 = 255; b3 = 255 }
                else record { b0 = ip.b0 - 1; b1 = 255; b2 = 255; b3 = 255 })
            else record ip { b1 = ip.b1 - 1; b2 = 255; b3 = 255 })
        else record ip { b2 = ip.b2 - 1; b3 = 255 })
    else record ip { b3 = ip.b3 - 1 }

-- bytesCompare(a, b) > 0
unfoldable pub is_after : Ip → Ip → Bool
is_after a b =
    if nat_beq a.b0 b.b0
    then (if nat_beq a.b1 b.b1
        then (if nat_beq a.b2 b.b2
            then (if nat_beq a.b3 b.b3 then false else ltb b.b3 a.b3)
            else ltb b.b2 a.b2)
        else ltb b.b1 a.b1)
    else ltb b.b0 a.b0

-- The addresses from the network's second host to the last, if there are any.
unfoldable pub range_between : Ip → Ip → Option (Ip × Ip)
unfolding inc dec is_after
range_between network bcast =
    let start = inc (inc network) in
    let end = dec bcast in if is_after start end then none else some (start, end)

-- network[i] | ^mask[i]
unfoldable pub broadcast : Ip → Ip → Ip
broadcast network mask = record {
  b0 = bit_or network.b0 (255 - mask.b0);
  b1 = bit_or network.b1 (255 - mask.b1);
  b2 = bit_or network.b2 (255 - mask.b2);
  b3 = bit_or network.b3 (255 - mask.b3);
}

module _ (parse_cidr : String → Option (Ip × Ip)) (show : Ip → String) where
  unfoldable pub show_range : String → Option (Ip × Ip) → String × String
  show_range local_ip none = (local_ip, local_ip)
  show_range local_ip (some (start, end)) = (show start, show end)

  unfoldable pub range_of : String → Option (Ip × Ip) → String × String
  unfolding show_range range_between broadcast
  range_of local_ip none = (local_ip, local_ip)
  range_of local_ip (some (network, mask)) =
      show_range local_ip (range_between network (broadcast network mask))

  -- The network and the mask of an IPv4 pool.
  unfoldable pub pool_range : String → String → String × String
  unfolding range_of
  pool_range pool local_ip = range_of local_ip (parse_cidr pool)
