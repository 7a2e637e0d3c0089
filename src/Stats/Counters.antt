-- ===== src/Stats/Counters.antt =====
-- pkg/stats/interface_counters.go: InterfaceCountersTracker, the baseline of one interface.
pub mod Accounting
use pasarguard_node.Prelude.{Bool, true, false, ◌||◌, if◌then◌else◌}
use pasarguard_node.Int64.{Int64, sub64, slt}

pub record Counters : Type 0 where
  pub base_rx : Int64
  pub base_tx : Int64
  pub base_set : Bool

pub new : Counters
new = record { base_rx = 0; base_tx = 0; base_set = false }

-- if !t.baseSet { ... }
set_base : Counters → Int64 → Int64 → Counters
set_base c rx tx = if c.base_set then c else record { base_rx = rx; base_tx = tx; base_set = true }

-- if currentRx < t.baseRx || currentTx < t.baseTx { ... }
follow_rollback : Counters → Int64 → Int64 → Counters
follow_rollback c rx tx =
    if slt rx c.base_rx || slt tx c.base_tx then record c { base_rx = rx; base_tx = tx } else c

pub delta : Counters → Int64 → Int64 → Bool → Counters × (Int64 × Int64)
unfolding set_base follow_rollback
delta c rx tx reset =
    let c' = follow_rollback (set_base c rx tx) rx tx in
    (
      if reset then record c' { base_rx = rx; base_tx = tx } else c',
      (sub64 rx c'.base_rx, sub64 tx c'.base_tx),
    )
