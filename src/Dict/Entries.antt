-- ===== src/Dict/Entries.antt =====
-- The cells behind `Dict`: a key keeps the cell that it was first given.
use pasarguard_node.Prelude.{
  String, ◌≡◌, refl, false, Option, none, some, List, [], ◌∷◌, arith, ◌==◌, eq_iff, if◌then◌else◌,
  contains, is_some,
}

pub data Cells {ℓ} (V : Type ℓ) : Type ℓ where
  vacant : Cells V
  cell : String → V → Cells V → Cells V

-- The names of a list are pairwise different.
abbrev pub IsNodup : List String → Type 0
IsNodup [] = Unit
IsNodup (k ∷ ks) = (contains k ks ≡ false) × IsNodup ks

drop_key : String → List String → List String
drop_key k [] = []
drop_key k (j ∷ js) = let rest = drop_key k js in if j == k then rest else j ∷ rest

contains-drop_key :
    (k j : String) (js : List String)
    → contains j (drop_key k js) ≡ (if k == j then false else contains j js)
unfolding drop_key
contains-drop_key k j [] = ground arith
contains-drop_key k j (i ∷ js) =
    ground (arith, eq_iff k j, eq_iff i j, eq_iff i k, contains-drop_key k j js)

drop_key-IsNodup : (k : String) (js : List String) → IsNodup js → IsNodup (drop_key k js)
unfolding drop_key
drop_key-IsNodup k [] h = tt
drop_key-IsNodup k (j ∷ js) h =
    ground (arith, drop_key-IsNodup k js h.1, contains-drop_key k j js, eq_iff k j)

module _ {ℓ} {V : Type ℓ} where
  unfoldable pub find : Cells V → String → Option V
  find vacant name = none
  find (cell key value cells) name =
      let later = find cells name in if key == name then some value else later

  unfoldable pub erase : Cells V → String → Cells V
  erase vacant name = vacant
  erase (cell key value cells) name =
      let kept = erase cells name in if key == name then kept else cell key value kept

  -- In place, or behind the last cell.
  unfoldable pub store : Cells V → String → V → Cells V
  store vacant name new = cell name new vacant
  store (cell key value cells) name new =
      let after = store cells name new in
      if key == name then cell key new cells else cell key value after

  unfoldable pub names : Cells V → List String
  unfolding drop_key
  names vacant = []
  names (cell key value cells) = key ∷ drop_key key (names cells)

  pub find-erase :
      (cells : Cells V) (name other : String)
      → find (erase cells name) other ≡ (if name == other then none else find cells other)
  unfolding erase find
  find-erase vacant name other = ground arith
  find-erase (cell key value cells) name other =
      ground
        (arith, eq_iff name other, eq_iff key name, eq_iff key other, find-erase cells name other)

  pub find-store :
      (cells : Cells V) (name other : String) (new : V)
      → find (store cells name new) other ≡ (if name == other then some new else find cells other)
  unfolding store find
  find-store vacant name other new = ground arith
  find-store (cell key value cells) name other new =
      ground (
        arith,
        eq_iff name other,
        eq_iff key name,
        eq_iff key other,
        find-store cells name other new,
      )

  pub contains-names :
      (cells : Cells V) (name : String) → contains name (names cells) ≡ is_some (find cells name)
  unfolding names find
  contains-names vacant name = refl
  contains-names (cell key value cells) name =
      ground (
        arith,
        eq_iff key name,
        contains-names cells name,
        contains-drop_key key name (names cells),
      )

  pub names-IsNodup : (cells : Cells V) → IsNodup (names cells)
  unfolding names
  names-IsNodup vacant = tt
  names-IsNodup (cell key value cells) = (
    ground (arith, eq_iff key key, contains-drop_key key key (names cells)),
    drop_key-IsNodup key (names cells) (names-IsNodup cells),
  )
