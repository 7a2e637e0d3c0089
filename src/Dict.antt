-- ===== src/Dict.antt =====
-- Go's `map[string]V`. Clients know it by its laws, and iterate over `keys`, which lists each key
-- once. Go leaves the order of iteration open, and no law fixes it.
mod Entries
pub use Entries.{IsNodup}
use pasarguard_node.Prelude.{
  String, ◌≡◌, refl, Option, none, some, List, ◌==◌, if◌then◌else◌, contains, is_some,
}
use Entries.{
  Cells, vacant, find, erase, store, names, find-erase, find-store, contains-names, names-IsNodup,
}

pub record Dict {ℓ} (V : Type ℓ) : Type ℓ where
  cells : Cells V

-- make(map[string]V)
unfoldable pub empty {ℓ} : {V : Type ℓ} → Dict V
empty = record { cells = vacant }

module _ {ℓ} {V : Type ℓ} where
  -- v, ok := m[key]
  unfoldable pub get : Dict V → String → Option V
  unfolding find
  get m key = find m.cells key

  -- m[key] = v
  unfoldable pub put : Dict V → String → V → Dict V
  unfolding store
  put m key v = record { cells = store m.cells key v }

  pub get-put :
      (m : Dict V) (key other : String) (v : V)
      → get (put m key v) other ≡ (if key == other then some v else get m other)
  unfolding put get
  get-put m key other v = find-store m.cells key other v

  -- delete(m, key)
  unfoldable pub remove : Dict V → String → Dict V
  unfolding erase
  remove m key = record { cells = erase m.cells key }

  pub get-remove :
      (m : Dict V) (key other : String)
      → get (remove m key) other ≡ (if key == other then none else get m other)
  unfolding remove get
  get-remove m key other = find-erase m.cells key other

  -- The keys that `range m` visits.
  unfoldable pub keys : Dict V → List String
  unfolding names
  keys m = names m.cells

  pub contains-keys : (m : Dict V) (key : String) → contains key (keys m) ≡ is_some (get m key)
  unfolding keys get
  contains-keys m key = contains-names m.cells key

  pub keys-IsNodup : (m : Dict V) → IsNodup (keys m)
  unfolding keys
  keys-IsNodup m = names-IsNodup m.cells

pub get-empty {ℓ} : {V : Type ℓ} (key : String) → get {V = V} empty key ≡ none
unfolding get empty find
get-empty key = refl
