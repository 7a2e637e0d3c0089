-- ===== src/Int64.antt =====
-- Go's int64 as its bit pattern, a number below 2 ^ 64; the patterns from 2 ^ 63 on are negative.
use pasarguard_node.Prelude.{ℕ, ◌+◌, ◌-◌, ◌%◌, ◌^◌, ◌<◌, ◌≡◌, Bool, arith, ltb, leb}

abbrev pub Int64 : Type 0
Int64 = ℕ

abbrev pub IsInt64 : Int64 → Type 0
IsInt64 a = a < 2 ^ 64

-- a + b and a - b, with Go's wrap-around.
abbrev pub add64 : Int64 → Int64 → Int64
add64 a b = (a + b) % 2 ^ 64

abbrev pub sub64 : Int64 → Int64 → Int64
sub64 a b = (a + 2 ^ 64 - b) % 2 ^ 64

-- a < b as signed numbers: moving both by 2 ^ 63 turns the signed order into that of ℕ.
abbrev pub slt : Int64 → Int64 → Bool
slt a b = ltb ((a + 2 ^ 63) % 2 ^ 64) ((b + 2 ^ 63) % 2 ^ 64)

-- a < 0
abbrev pub is_neg : Int64 → Bool
is_neg a = leb (2 ^ 63) a

-- What is taken off a number twice over gives it back, whatever wraps.
pub sub64-sub64 : (s p : Int64) → IsInt64 s → IsInt64 p → sub64 s (sub64 s p) ≡ p
sub64-sub64 s p hs hp = omega arith
