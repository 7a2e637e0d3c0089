-- ===== src/Stats/Tracker/Accounting/Balance.antt =====
-- The balance of one key over some calls: what was reported and what is pending after them is what
-- was pending before them and what they added.
use pasarguard_node.Prelude.{
  ℕ, ◌+◌, String, ◌≡◌, Option, none, some, List, [], ◌∷◌, ◌++◌, arith, ◌==◌, ◌&&◌, if◌then◌else◌,
}
use pasarguard_node.Dict
use pasarguard_node.Stats.Stat.{Stat}
use pasarguard_node.Stats.Tracker.{Entry, Tracker}
use pasarguard_node.Stats.Tracker.Pending.{IsSound, pending_rx, pending_tx}

abbrev pub IsSoundAt : Option Entry → Type 0
IsSoundAt none = Unit
IsSoundAt (some e) = IsSound e

abbrev pub pending_rx_at : Option Entry → ℕ
pending_rx_at none = 0
pending_rx_at (some e) = pending_rx e

abbrev pub pending_tx_at : Option Entry → ℕ
pending_tx_at none = 0
pending_tx_at (some e) = pending_tx e

-- The bytes that a list of stats reports for a key in one direction.
unfoldable pub billed : String → String → List Stat → ℕ
billed key direction [] = 0
billed key direction (st ∷ sts) =
    (if st.link == key && st.direction == direction then st.value else 0) + billed key direction sts

pub billed-append :
    (key direction : String) (xs ys : List Stat)
    → billed key direction (xs ++ ys) ≡ billed key direction xs + billed key direction ys
unfolding billed
billed-append key direction [] ys = omega arith
billed-append key direction (x ∷ xs) ys = omega (arith, billed-append key direction xs ys)

pub record Balanced (key : String) (t t' : Tracker) (stats : List Stat) (grown_rx grown_tx : ℕ)
    : Type 0 where
  pub sound : IsSoundAt (Dict.get t' key)
  pub rx :
      billed key "uplink" stats + pending_rx_at (Dict.get t' key)
      ≡ pending_rx_at (Dict.get t key) + grown_rx
  pub tx :
      billed key "downlink" stats + pending_tx_at (Dict.get t' key)
      ≡ pending_tx_at (Dict.get t key) + grown_tx

pub Balanced-trans :
    {key : String} {t t' t'' : Tracker} {xs ys : List Stat} {a b c d : ℕ}
    → Balanced key t t' xs a b
    → Balanced key t' t'' ys c d
    → Balanced key t t'' (xs ++ ys) (a + c) (b + d)
Balanced-trans {key} {xs = xs} {ys = ys} p q = record {
  sound = q.sound;
  rx = omega (arith, billed-append key "uplink" xs ys, p.rx, q.rx);
  tx = omega (arith, billed-append key "downlink" xs ys, p.tx, q.tx);
}

pub unchanged-Balanced :
    (key : String) (t t' : Tracker) (stats : List Stat)
    → IsSoundAt (Dict.get t key)
    → Dict.get t' key ≡ Dict.get t key
    → billed key "uplink" stats ≡ 0
    → billed key "downlink" stats ≡ 0
    → Balanced key t t' stats 0 0
unchanged-Balanced key t t' stats h e up down = record {
  sound = rw e h;
  rx = rw e (omega arith);
  tx = rw e (omega arith);
}
