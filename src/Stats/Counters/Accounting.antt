-- ===== src/Stats/Counters/Accounting.antt =====
-- pkg/stats/interface_counters.go: what the reads of one interface add up to.
use pasarguard_node.Prelude.{
  ◌≡◌, refl, Bool, true, false, List, [], ◌∷◌, arith, inl, inr, Bool-cases, if◌then◌else◌,
}
use pasarguard_node.Int64.{Int64, IsInt64, add64, sub64, slt}
use pasarguard_node.Stats.Counters.{Counters, new, delta}

-- A call of Delta: the interface's counters, and whether the read resets.
pub record Reading : Type 0 where
  pub rx : Int64
  pub tx : Int64
  pub reset : Bool

-- The counters after a sequence of reads, with the sums of what the resetting reads returned.
pub read_all : Counters → List Reading → Counters × (Int64 × Int64)
read_all c [] = (c, (0, 0))
read_all c (r ∷ rs) =
    let (c', d) = delta c r.rx r.tx r.reset in
    let (c'', sums) = read_all c' rs in
    (
      c'',
      (if r.reset then add64 d.0 sums.0 else sums.0, if r.reset then add64 d.1 sums.1 else sums.1),
    )

-- From `rx` and `tx` on no counter falls.
abbrev pub IsAscending : Int64 → Int64 → List Reading → Type 0
IsAscending rx tx [] = Unit
IsAscending rx tx (r ∷ rs) =
    IsInt64 r.rx
    × IsInt64 r.tx
    × (slt r.rx rx ≡ false)
    × (slt r.tx tx ≡ false)
    × IsAscending r.rx r.tx rs

-- The last counters of a sequence.
abbrev pub last_rx : Int64 → List Reading → Int64
last_rx rx [] = rx
last_rx rx (r ∷ rs) = last_rx r.rx rs

abbrev pub last_tx : Int64 → List Reading → Int64
last_tx tx [] = tx
last_tx tx (r ∷ rs) = last_tx r.tx rs

pub record IsBased (c : Counters) (rx tx : Int64) : Type 0 where
  pub set : c.base_set ≡ true
  pub base_rx : IsInt64 c.base_rx
  pub base_tx : IsInt64 c.base_tx
  pub rx_word : IsInt64 rx
  pub tx_word : IsInt64 tx
  pub below_rx : slt rx c.base_rx ≡ false
  pub below_tx : slt tx c.base_tx ≡ false

abbrev Sums : Counters → Int64 → Int64 → List Reading → Type 0
Sums c rx tx rs =
    let r = read_all c rs in
    (add64 r.1.0 (sub64 (last_rx rx rs) r.0.base_rx) ≡ sub64 (last_rx rx rs) c.base_rx)
    × (add64 r.1.1 (sub64 (last_tx tx rs) r.0.base_tx) ≡ sub64 (last_tx tx rs) c.base_tx)
    × IsInt64 r.1.0
    × IsInt64 r.1.1
    × IsInt64 r.0.base_rx
    × IsInt64 r.0.base_tx

-- While no counter falls, Delta keeps its baseline unless the read resets it.
delta_steady :
    (c : Counters) (rx tx : Int64) (r : Reading)
    → IsBased c rx tx
    → IsInt64 r.rx
    → IsInt64 r.tx
    → slt r.rx rx ≡ false
    → slt r.tx tx ≡ false
    → delta c r.rx r.tx r.reset ≡ (
      if r.reset then record c { base_rx = r.rx; base_tx = r.tx } else c,
      (sub64 r.rx c.base_rx, sub64 r.tx c.base_tx),
    )
unfolding delta
delta_steady c rx tx r b wr wt hr ht = ground arith

steady-IsBased :
    (c : Counters) (rx tx : Int64) (r : Reading)
    → IsBased c rx tx
    → IsInt64 r.rx
    → IsInt64 r.tx
    → slt r.rx rx ≡ false
    → slt r.tx tx ≡ false
    → IsBased (if r.reset then record c { base_rx = r.rx; base_tx = r.tx } else c) r.rx r.tx
steady-IsBased c rx tx r b wr wt hr ht = ground arith

last-IsInt64 :
    (rx tx : Int64) (rs : List Reading)
    → IsInt64 rx
    → IsInt64 tx
    → IsAscending rx tx rs
    → IsInt64 (last_rx rx rs) × IsInt64 (last_tx tx rs)
last-IsInt64 rx tx [] wr wt h = (wr, wt)
last-IsInt64 rx tx (r ∷ rs) wr wt h = last-IsInt64 r.rx r.tx rs h.0 h.1 h.4

sums :
    (c : Counters) (rx tx : Int64) (rs : List Reading)
    → IsBased c rx tx
    → IsAscending rx tx rs
    → Sums c rx tx rs
unfolding read_all
sums c rx tx [] b h = omega arith
sums c rx tx (r ∷ rs) b (wr, wt, hr, ht, h) = rw (delta_steady c rx tx r b wr wt hr ht) (
    let ih = sums _ r.rx r.tx rs (steady-IsBased c rx tx r b wr wt hr ht) h in
    let words = last-IsInt64 r.rx r.tx rs wr wt h in
    elim (Bool-cases r.reset) [
      | inl e ↦ let ih' = rw e at ih in rw e (omega (arith, ih'))
      | inr e ↦ let ih' = rw e at ih in rw e (omega (arith, ih'))
    ])

read_all-IsBased :
    (c : Counters) (rx tx : Int64) (rs : List Reading)
    → IsBased c rx tx
    → IsAscending rx tx rs
    → IsBased (read_all c rs).0 (last_rx rx rs) (last_tx tx rs)
unfolding read_all
read_all-IsBased c rx tx [] b h = b
read_all-IsBased c rx tx (r ∷ rs) b (wr, wt, hr, ht, h) =
    rw (delta_steady c rx tx r b wr wt hr ht)
      (read_all-IsBased _ r.rx r.tx rs (steady-IsBased c rx tx r b wr wt hr ht) h)

slt_irreflexive : (a : Int64) → slt a a ≡ false
slt_irreflexive a = ground arith

-- A further read of the same counters.
read_again :
    (c : Counters) (rx tx : Int64)
    → IsBased c rx tx
    → delta c rx tx false ≡ (c, (sub64 rx c.base_rx, sub64 tx c.base_tx))
read_again c rx tx b =
    delta_steady c rx tx (record { rx = rx; tx = tx; reset = false }) b b.rx_word b.tx_word
      (slt_irreflexive rx) (slt_irreflexive tx)

delta-new :
    (rx tx : Int64) (reset : Bool)
    → IsInt64 rx
    → IsInt64 tx
    → delta new rx tx reset ≡ (record { base_rx = rx; base_tx = tx; base_set = true }, (0, 0))
unfolding delta new
delta-new rx tx reset wr wt = ground arith

-- From a new tracker, the first read reports zero, and after any further reads in which no counter
-- falls, the sums that the resetting reads returned and what another read then returns make up the
-- growth of each counter since the first read.
pub read_all-accounting :
    (rx tx : Int64) (reset : Bool) (rs : List Reading)
    → IsInt64 rx
    → IsInt64 tx
    → IsAscending rx tx rs
    → let first = delta new rx tx reset in
      let (c, returned) = read_all first.0 rs in
      let pending = (delta c (last_rx rx rs) (last_tx tx rs) false).1 in
      (first.1 ≡ (0, 0))
      × (add64 returned.0 pending.0 ≡ sub64 (last_rx rx rs) rx)
      × (add64 returned.1 pending.1 ≡ sub64 (last_tx tx rs) tx)
read_all-accounting rx tx reset rs wr wt h = rw (delta-new rx tx reset wr wt) (
    let based : Counters = record { base_rx = rx; base_tx = tx; base_set = true } in
    let start : IsBased based rx tx = ground arith in
    let s = sums based rx tx rs start h in
    rw (read_again _ _ _ (read_all-IsBased based rx tx rs start h)) (refl, s.0, s.1))
