-- ===== src/Openvpn/Listeners.antt =====
-- backend/openvpn/listeners.go: one block of the core's subnet for each listener. ParsePrefix and
-- Prefix.String of Go's package netip are arguments.
pub mod Blocks
mod Examples
use pasarguard_node.Prelude.{
  ℕ, zero, suc, ◌+◌, ◌-◌, ◌*◌, ◌/◌, ◌%◌, ◌^◌, String, Bool, true, false, Option, none, some, ltb,
  leb, if◌then◌else◌,
}

-- An IPv4 address as its bytes, and a prefix as ParsePrefix reads it: the masked address, the
-- length, and whether it is IPv4.
pub record Addr4 : Type 0 where
  pub b0 : ℕ
  pub b1 : ℕ
  pub b2 : ℕ
  pub b3 : ℕ

pub record Prefix : Type 0 where
  pub masked : Addr4
  pub bits : ℕ
  pub is4 : Bool

pub data SplitError : Type 0 where
  not_a_cidr not_ipv4 too_small : SplitError

pub data Result {ℓ} (A : Type ℓ) : Type ℓ where
  ok : A → Result A
  err : SplitError → Result A

-- bits.Len: the least k from here on with x < 2 ^ k.
len_from : ℕ → ℕ → ℕ → ℕ
len_from zero x k = k
len_from (suc fuel) x k = let rest = len_from fuel x (suc k) in if ltb x (2 ^ k) then k else rest

bit_len : ℕ → ℕ
unfolding len_from
bit_len x = len_from x x 0

pub bits_needed : ℕ → ℕ
unfolding bit_len
bits_needed n = if leb n 1 then 0 else bit_len (n - 1)

-- The bytes as one uint32, and back.
pub to_number : Addr4 → ℕ
to_number a = (a.b0 * 2 ^ 24 + a.b1 * 2 ^ 16 + a.b2 * 2 ^ 8 + a.b3) % 2 ^ 32

pub to_bytes : ℕ → Addr4
to_bytes x = record {
  b0 = x / 2 ^ 24 % 256;
  b1 = x / 2 ^ 16 % 256;
  b2 = x / 2 ^ 8 % 256;
  b3 = x % 256;
}

-- The block of an index, as its address and its length.
pub split_prefix : Prefix → ℕ → ℕ → Result (Addr4 × ℕ)
unfolding bits_needed to_number to_bytes
split_prefix p index total =
    let new_bits = p.bits + bits_needed total in
    if p.is4
    then (if ltb 24 new_bits
        then err too_small
        else (let block_size = 2 ^ (32 - new_bits) in
            let start = (to_number p.masked + block_size * (index % 2 ^ 32) % 2 ^ 32) % 2 ^ 32 in
            ok (to_bytes start, new_bits)))
    else err not_ipv4

module _ (parse_prefix : String → Option Prefix) (prefix_string : Addr4 × ℕ → String) where
  print_block : Result (Addr4 × ℕ) → Result String
  print_block (ok block) = ok (prefix_string block)
  print_block (err e) = err e

  pub split_subnet : String → ℕ → ℕ → Result String
  unfolding split_prefix print_block
  split_subnet cidr index total = if leb total 1 then ok cidr else elim (parse_prefix cidr) [
    | none ↦ err not_a_cidr
    | some p ↦ print_block (split_prefix p index total)
  ]
