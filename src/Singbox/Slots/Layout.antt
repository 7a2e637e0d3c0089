-- ===== src/Singbox/Slots/Layout.antt =====
-- backend/singbox/singbox.go: how a push lays the users out over the slots.
use mathlib.Core.List.{append_assoc, append-nil}
use pasarguard_node.Prelude.{
  ℕ, suc, String, ◌≡◌, refl, sym, ap, ◌∙◌, false, not, ◌&&◌, ◌||◌, List, [], ◌∷◌, ◌++◌, arith, ◌==◌,
  eq_iff, if◌then◌else◌, contains, is_some, length, Bool-cases, inl, inr,
}
use pasarguard_node.Dict
use pasarguard_node.Dict.{Dict, get-put, get-empty, contains-keys, keys-IsNodup, IsNodup}
use pasarguard_node.Singbox.Users.{UserCredentials}
use pasarguard_node.Singbox.Slots.{hold, extend, reconcile_slots}

-- What a slot becomes: its email while it is a user's, else free.
abbrev pub kept : Dict UserCredentials → String → String
kept users email =
    if (if email == "" then false else is_some (Dict.get users email)) then email else ""

abbrev pub kept_all : Dict UserCredentials → List String → List String
kept_all users [] = []
kept_all users (email ∷ slots) = kept users email ∷ kept_all users slots

-- The emails that have no place yet.
abbrev pub fresh : Dict ℕ → List String → List String
fresh placed [] = []
fresh placed (e ∷ es) =
    let rest = fresh placed es in if is_some (Dict.get placed e) then rest else e ∷ rest

hold-slots :
    (users : Dict UserCredentials) (index : ℕ) (slots : List String) (placed : Dict ℕ)
    → (hold users index slots placed).0 ≡ kept_all users slots
unfolding hold
hold-slots users index [] placed = refl
hold-slots users index (e ∷ slots) placed =
    ap (λ l. kept users e ∷ l) (hold-slots users (suc index) slots _)

hold-placed :
    (users : Dict UserCredentials) (index : ℕ) (slots : List String) (placed : Dict ℕ) (e : String)
    → is_some (Dict.get (hold users index slots placed).1 e) ≡ (
        is_some (Dict.get placed e)
        || (not (e == "") && contains e slots && is_some (Dict.get users e)))
unfolding hold
hold-placed users index [] placed e = ground arith
hold-placed users index (d ∷ slots) placed e =
    let still = if d == "" then false else is_some (Dict.get users d) in
    ground (
      arith,
      hold-placed users (suc index) slots (if still then Dict.put placed d index else placed) e,
      get-put placed d e index,
      eq_iff d e,
    )

fresh-put :
    (placed : Dict ℕ) (d : String) (n : ℕ) (es : List String)
    → contains d es ≡ false
    → fresh (Dict.put placed d n) es ≡ fresh placed es
fresh-put placed d n [] h = refl
fresh-put placed d n (e ∷ es) h =
    ground (arith, get-put placed d e n, fresh-put placed d n es, eq_iff d e, eq_iff e d)

extend_lem :
    (es slots : List String) (placed : Dict ℕ)
    → IsNodup es
    → extend es slots placed ≡ slots ++ fresh placed es
unfolding extend
extend_lem [] slots placed h = sym (append-nil slots)
extend_lem (e ∷ es) slots placed (out, h) = elim (Bool-cases (is_some (Dict.get placed e))) [
  | inl old ↦ rw (old, extend) (extend_lem es slots placed h)
  | inr new ↦
      rw
        (
          new,
          extend,
          extend_lem es (slots ++ e ∷ []) (Dict.put placed e (length slots)) h,
          fresh-put placed e (length slots) es out,
        )
        (append_assoc slots (e ∷ []) (fresh placed es))
]

abbrev pub places : Dict UserCredentials → List String → Dict ℕ
places users slots = (hold users 0 slots Dict.empty).1

pub reconcile_slots_lem :
    (users : Dict UserCredentials) (slots : List String)
    → reconcile_slots users slots
      ≡ kept_all users slots ++ fresh (places users slots) (Dict.keys users)
unfolding reconcile_slots
reconcile_slots_lem users slots =
    extend_lem (Dict.keys users) (hold users 0 slots Dict.empty).0 (places users slots)
      (keys-IsNodup users)
    ∙ ap (λ l. l ++ fresh (places users slots) (Dict.keys users))
        (hold-slots users 0 slots Dict.empty)

pub has_place :
    (users : Dict UserCredentials) (slots : List String) (e : String)
    → is_some (Dict.get (places users slots) e)
      ≡ (not (e == "") && contains e slots && is_some (Dict.get users e))
has_place users slots e =
    ground (arith, hold-placed users 0 slots Dict.empty e, get-empty {V = ℕ} e)
