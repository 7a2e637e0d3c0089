-- ===== src/Sorting.antt =====
-- Go's sort.Strings, which orders strings by their bytes.
use Prim.Native.Nat.{Ordering}
use Prim.Native.String.{compare}
use pasarguard_node.Prelude.{
  String, ◌≡◌, refl, Bool, true, false, ◌||◌, List, [], ◌∷◌, arith, ◌==◌, contains, if◌then◌else◌,
}

unfoldable pub is_above : String → String → Bool
is_above a b = elim (compare a b) [ Ordering.gt ↦ true | _ ↦ false ]

unfoldable pub insert_sorted : String → List String → List String
unfolding is_above
insert_sorted x [] = x ∷ []
insert_sorted x (y ∷ ys) =
    let rest = insert_sorted x ys in if is_above x y then y ∷ rest else x ∷ y ∷ ys

unfoldable pub sort_strings : List String → List String
unfolding insert_sorted
sort_strings [] = []
sort_strings (x ∷ xs) = insert_sorted x (sort_strings xs)

pub contains-insert_sorted :
    (k x : String) (ys : List String) → contains k (insert_sorted x ys) ≡ (x == k || contains k ys)
unfolding insert_sorted
contains-insert_sorted k x [] = refl
contains-insert_sorted k x (y ∷ ys) = ground (arith, contains-insert_sorted k x ys)

pub contains-sort_strings :
    (k : String) (xs : List String) → contains k (sort_strings xs) ≡ contains k xs
unfolding sort_strings
contains-sort_strings k [] = refl
contains-sort_strings k (x ∷ xs) =
    ground (arith, contains-sort_strings k xs, contains-insert_sorted k x (sort_strings xs))
