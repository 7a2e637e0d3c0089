-- ===== src/L2tp/PoolBounds.antt =====
-- backend/l2tp/serverconf.go: addresses as numbers, and the bounds of the range.
use pasarguard_node.Prelude.{
  ℕ, ◌+◌, ◌*◌, ◌≤◌, ◌<◌, ◌≡◌, refl, true, false, none, some, arith, inl, inr, ◌⊎◌, Bool-cases,
}
use pasarguard_node.L2tp.Pool.{Ip, inc, dec, is_after, range_between}

pub record IsAddress (ip : Ip) : Type 0 where
  pub byte0 : ip.b0 < 256
  pub byte1 : ip.b1 < 256
  pub byte2 : ip.b2 < 256
  pub byte3 : ip.b3 < 256

abbrev pub number : Ip → ℕ
number ip = ip.b0 * 16777216 + ip.b1 * 65536 + ip.b2 * 256 + ip.b3

inc-IsAddress : {ip : Ip} → IsAddress ip → IsAddress (inc ip)
unfolding inc
inc-IsAddress a = ground arith

number-inc : {ip : Ip} → IsAddress ip → number ip + 1 < 4294967296 → number (inc ip) ≡ number ip + 1
unfolding inc
number-inc a h = ground arith

dec-IsAddress : {ip : Ip} → IsAddress ip → IsAddress (dec ip)
unfolding dec
dec-IsAddress a = ground arith

number-dec : {ip : Ip} → IsAddress ip → 0 < number ip → number (dec ip) + 1 ≡ number ip
unfolding dec
number-dec a h = ground arith

is_after-number :
    (a b : Ip) → IsAddress a → IsAddress b → is_after a b ≡ false → number a ≤ number b
unfolding is_after
is_after-number a b h k e = ground arith

after-number : (a b : Ip) → IsAddress a → IsAddress b → is_after a b ≡ true → number b < number a
unfolding is_after
after-number a b h k e = ground arith

-- The range goes from the network's address plus 2 to the broadcast address minus 1, or is none as
-- that is empty.
abbrev pub HasBounds : Ip → Ip → Type 0
HasBounds network bcast =
    ((range_between network bcast ≡ none) × (number bcast < number network + 3))
    ⊎ ((start end : Ip) × (range_between network bcast ≡ some (start, end))
        × IsAddress start
        × IsAddress end
        × (number start ≡ number network + 2)
        × (number end + 1 ≡ number bcast)
        × (number start ≤ number end))

module _ (network bcast : Ip) (is_network : IsAddress network) (is_bcast : IsAddress bcast)
    (below : number network + 2 < 4294967296) (above : 0 < number bcast) where
  number-start : number (inc (inc network)) ≡ number network + 2
  number-start = omega (
    arith,
    number-inc is_network (omega arith),
    number-inc (inc-IsAddress is_network) (omega (arith, number-inc is_network (omega arith))),
  )

  -- If the network leaves room for two more addresses and the broadcast address is not 0, the range
  -- goes from the network's address plus 2 to the broadcast address minus 1, both of them addresses,
  -- and there is none just if that is empty.
  pub range_between-HasBounds : HasBounds network bcast
  unfolding range_between
  range_between-HasBounds =
      let start = inc (inc network) in
      let end = dec bcast in
      let is_start = inc-IsAddress (inc-IsAddress is_network) in
      let is_end = dec-IsAddress is_bcast in
      elim (Bool-cases (is_after start end)) [
        | inl e ↦ inl (
          rw e refl,
          omega (
            arith,
            after-number start end is_start is_end e,
            number-start,
            number-dec is_bcast above,
          ),
        )
        | inr e ↦ inr (
          start,
          end,
          rw e refl,
          is_start,
          is_end,
          number-start,
          number-dec is_bcast above,
          is_after-number start end is_start is_end e,
        )
      ]
