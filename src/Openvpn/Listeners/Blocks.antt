-- ===== src/Openvpn/Listeners/Blocks.antt =====
-- backend/openvpn/listeners.go: the blocks lie in the core's subnet, and apart from each other.
use pasarguard_node.Prelude.{
  ℕ, zero, suc, ◌+◌, ◌-◌, ◌*◌, ◌%◌, ◌^◌, ◌<◌, ◌≤◌, ◌≡◌, refl, subst, sym, ◌∙◌, ap, arith, ltb, leb,
  Bool-cases, inl, inr, String, false, Option, some,
}
use native.Mathlib.Nat.{add-mul, mul_comm, mul-le-mul_left, le-mul_of_pos_right, one-le-pow}
use pasarguard_node.Openvpn.Listeners.{
  Addr4, Prefix, Result, ok, err, len_from, bit_len, bits_needed, to_number, to_bytes, split_prefix,
  print_block, split_subnet,
}

to_number-to_bytes : (x : ℕ) → x < 2 ^ 32 → to_number (to_bytes x) ≡ x
unfolding to_number to_bytes
to_number-to_bytes x h = omega arith

pow_suc : (k : ℕ) → 2 ^ suc k ≡ 2 ^ k + 2 ^ k
pow_suc k = omega arith

pow_grows : (k : ℕ) → k < 2 ^ k
pow_grows zero = omega arith
pow_grows (suc k) = omega (arith, pow_grows k, pow_suc k)

pow_add : (a b : ℕ) → 2 ^ (a + b) ≡ 2 ^ a * 2 ^ b
pow_add zero b = grind arith
pow_add (suc a) b =
    let moved : suc a + b ≡ suc (a + b) = omega arith in
    ap (λ m. 2 ^ m) moved
    ∙ pow_suc (a + b)
    ∙ ap (λ m. m + m) (pow_add a b)
    ∙ sym (add-mul (2 ^ a) (2 ^ a) (2 ^ b))
    ∙ ap (λ m. m * 2 ^ b) (sym (pow_suc a))

moved : (fuel k : ℕ) → suc fuel + k ≡ fuel + suc k
moved fuel k = omega arith

len_from_lem : (fuel x k : ℕ) → x < 2 ^ (fuel + k) → x < 2 ^ len_from fuel x k
unfolding len_from
len_from_lem zero x k h = let same : 0 + k ≡ k = omega arith in subst (λ m. x < 2 ^ m) same h
len_from_lem (suc fuel) x k h = elim (Bool-cases (ltb x (2 ^ k))) [
  | inl e ↦ rw (e, len_from) (ground (arith, e))
  | inr e ↦ rw (e, len_from) (len_from_lem fuel x (suc k) (subst (λ m. x < 2 ^ m) (moved fuel k) h))
]

bits_needed_lem : (n : ℕ) → n ≤ 2 ^ bits_needed n
unfolding bits_needed bit_len
bits_needed_lem n = elim (Bool-cases (leb n 1)) [
  | inl small ↦ rw (small, bits_needed) (ground (arith, small))
  | inr large ↦
      rw (large, bits_needed)
        (let same : (n - 1) + 0 ≡ n - 1 = omega arith in
          let fits =
            len_from_lem (n - 1) (n - 1) 0
              (subst (λ m. n - 1 < 2 ^ m) (sym same) (pow_grows (n - 1))) in
          omega (arith, fits))
]

-- A prefix whose addresses are IPv4 addresses.
pub record IsInSpace (p : Prefix) : Type 0 where
  pub length : p.bits ≤ 32
  pub space : to_number p.masked + 2 ^ (32 - p.bits) ≤ 2 ^ 32

-- As many blocks as there are listeners fill at most the prefix.
blocks_fit :
    (bits extra total : ℕ)
    → bits + extra ≤ 24
    → total ≤ 2 ^ extra
    → 2 ^ (32 - (bits + extra)) * total ≤ 2 ^ (32 - bits)
blocks_fit bits extra total short few =
    let same : 32 - bits ≡ (32 - (bits + extra)) + extra = omega (arith, short) in
    let size : 2 ^ (32 - bits) ≡ 2 ^ (32 - (bits + extra)) * 2 ^ extra =
      ap (λ m. 2 ^ m) same ∙ pow_add (32 - (bits + extra)) extra in
    let most = mul-le-mul_left (2 ^ (32 - (bits + extra))) few in omega (arith, size, most)

-- Where a block starts, without wrap-around.
start_of_block :
    (base block index total room : ℕ)
    → index < total
    → 0 < block
    → block * total ≤ room
    → base + room ≤ 2 ^ 32
    → (block * (index % 2 ^ 32) % 2 ^ 32 ≡ block * index)
      × (base + block * index + block ≤ base + room)
start_of_block base block index total room below big fits space =
    let next = mul-le-mul_left block below in
    let more : block * suc index ≡ block * index + block = omega arith in
    let small : index ≤ index * block = le-mul_of_pos_right index big in
    let turned = mul_comm index block in
    let whole : index % 2 ^ 32 ≡ index = omega (arith, next, more, small, turned, fits, space) in
    (
      ap (λ i. block * i % 2 ^ 32) whole ∙ omega (arith, next, more, fits, space),
      omega (arith, next, more, fits),
    )

pub ok-injective {ℓ} : {A : Type ℓ} {a b : A} → ok a ≡ ok b → a ≡ b
ok-injective h = cc

split_prefix_cases :
    (p : Prefix) (index total : ℕ) (a : Addr4) (n : ℕ)
    → split_prefix p index total ≡ ok (a, n)
    → IsInSpace p
    → index < total
    → (n ≡ p.bits + bits_needed total)
      × (n ≤ 24)
      × (to_number a ≡ to_number p.masked + 2 ^ (32 - n) * index)
      × (to_number a + 2 ^ (32 - n) ≤ to_number p.masked + 2 ^ (32 - p.bits))
unfolding split_prefix
split_prefix_cases p index total a n h space below = elim (Bool-cases p.is4) [
  | inr other ↦ cc (rw (other, split_prefix) at h)
  | inl four ↦ elim (Bool-cases (ltb 24 (p.bits + bits_needed total))) [
    | inl long ↦ cc (rw (four, long, split_prefix) at h)
    | inr short ↦
        let base = to_number p.masked in
        let bits' = p.bits + bits_needed total in
        let block = 2 ^ (32 - bits') in
        let x = (base + block * (index % 2 ^ 32) % 2 ^ 32) % 2 ^ 32 in
        let bound : bits' ≤ 24 = ground (arith, short) in
        let big : 0 < block = one-le-pow (32 - bits') 2 (omega arith) in
        let fit = blocks_fit p.bits (bits_needed total) total bound (bits_needed_lem total) in
        let (flat, inside) =
          start_of_block base block index total (2 ^ (32 - p.bits)) below big fit space.space in
        let start : x ≡ base + block * index = omega (arith, flat, inside, big, space.space) in
        let value : to_number (to_bytes x) ≡ base + block * index =
          to_number-to_bytes x (omega arith) ∙ start in
        subst
          (λ (r : Addr4 × ℕ).
            (r.1 ≡ bits')
            × (r.1 ≤ 24)
            × (to_number r.0 ≡ base + 2 ^ (32 - r.1) * index)
            × (to_number r.0 + 2 ^ (32 - r.1) ≤ base + 2 ^ (32 - p.bits)))
          (ok-injective (rw (four, short, split_prefix) at h))
          (refl, bound, value, omega (arith, value, inside))
  ]
]

-- Where the subnet of a core is split for its listeners, and its addresses are IPv4 addresses, the
-- block of each index below their number has a length of at most 24 bits and lies in the subnet,
-- and the blocks of two different indexes have equal lengths and no address in common.
pub split_prefix_apart :
    (p : Prefix) (i j total : ℕ) (a b : Addr4) (m n : ℕ)
    → IsInSpace p
    → i < j
    → j < total
    → split_prefix p i total ≡ ok (a, m)
    → split_prefix p j total ≡ ok (b, n)
    → (m ≤ 24)
      × (m ≡ n)
      × (to_number p.masked ≤ to_number a)
      × (to_number a + 2 ^ (32 - m) ≤ to_number b)
      × (to_number b + 2 ^ (32 - n) ≤ to_number p.masked + 2 ^ (32 - p.bits))
split_prefix_apart p i j total a b m n space before below first second =
    let (mi, short, at_i, _) =
      split_prefix_cases p i total a m first space (omega (arith, before, below)) in
    let (nj, _, at_j, inside) = split_prefix_cases p j total b n second space below in
    let same : m ≡ n = mi ∙ sym nj in
    let next = mul-le-mul_left (2 ^ (32 - m)) before in
    let more : 2 ^ (32 - m) * suc i ≡ 2 ^ (32 - m) * i + 2 ^ (32 - m) = omega arith in
    let at_j' : to_number b ≡ to_number p.masked + 2 ^ (32 - m) * j =
      subst (λ l. to_number b ≡ to_number p.masked + 2 ^ (32 - l) * j) (sym same) at_j in
    (short, same, omega (arith, at_i), omega (arith, at_i, at_j', next, more), inside)

module _ (parse_prefix : String → Option Prefix) (prefix_string : Addr4 × ℕ → String) where
  printed :
      (r : Result (Addr4 × ℕ)) (sub : String)
      → print_block parse_prefix prefix_string r ≡ ok sub
      → (block : Addr4 × ℕ) × (r ≡ ok block) × (sub ≡ prefix_string block)
  unfolding print_block
  printed (ok block) sub h = (block, refl, sym (ok-injective h))
  printed (err e) sub h = cc

  -- A subnet that is split for several listeners is the text of its block.
  pub split_subnet_cases :
      (cidr sub : String) (p : Prefix) (index total : ℕ)
      → 1 < total
      → parse_prefix cidr ≡ some p
      → split_subnet parse_prefix prefix_string cidr index total ≡ ok sub
      → (block : Addr4 × ℕ) × (split_prefix p index total ≡ ok block) × (sub ≡ prefix_string block)
  unfolding split_subnet
  split_subnet_cases cidr sub p index total more here h =
      let many : leb total 1 ≡ false = ground (arith, more) in
      printed (split_prefix p index total) sub (rw (many, split_subnet, here) at h)
