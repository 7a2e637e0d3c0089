-- ===== src/Backend/Composite/Merge.antt =====
-- backend/composite.go: what the answers of the backends are merged into.
use pasarguard_node.Prelude.{
  ℕ, ◌≤◌, String, ◌≡◌, refl, Bool, true, false, Option, none, some, List, [], ◌∷◌, ◌++◌, map, arith,
  sym, ◌∙◌, subst, if◌then◌else◌, Bool-cases, is_nil, inl, inr, ltb,
}
use mathlib.Core.List.{append_assoc, append-nil, Memᴰ}
use pasarguard_node.Int64.{Int64, add64}
use pasarguard_node.Backend.{Reply, answer, failure, Query, SysStats, StatRequest, Backend}
use pasarguard_node.Backend.Composite.{
  keep_first, absorb, query_each, fresher, or_error, sys_response, get_sys_stats, get_stats,
  add_online, get_user_online_stats,
}

module _ {A : Type 0} where
  abbrev pub first_failure : List (Reply A) → Option String
  first_failure [] = none
  first_failure (failure e ∷ rs) = some e
  first_failure (answer a ∷ rs) = first_failure rs

  abbrev pub answers : List (Reply A) → List A
  answers [] = []
  answers (failure e ∷ rs) = answers rs
  answers (answer none ∷ rs) = answers rs
  answers (answer (some a) ∷ rs) = a ∷ answers rs

  abbrev pub fold_answers {ℓ} : {S : Type ℓ} → (S → A → S) → S → List A → S
  fold_answers add s [] = s
  fold_answers add s (a ∷ as') = fold_answers add (add s a) as'

abbrev pub replies : {B A : Type 0} → Query B A → List B → List (Reply A)
replies query = map (λ b. (query b).1)

absorb_lem :
    {A S : Type 0} (add : S → A → S) (s : S) (e : Option String) (r : Reply A) (rs : List (Reply A))
    → let acc = absorb add (s, e) r in
      (fold_answers add acc.0 (answers rs) ≡ fold_answers add s (answers (r ∷ rs)))
      × (keep_first acc.1 (first_failure rs) ≡ keep_first e (first_failure (r ∷ rs)))
unfolding absorb
absorb_lem add s none (failure x) rs = (refl, refl)
absorb_lem add s (some e) (failure x) rs = (refl, refl)
absorb_lem add s e (answer none) rs = (refl, refl)
absorb_lem add s e (answer (some a)) rs = (refl, refl)

query_each_lem :
    {B A S : Type 0} (query : Query B A) (add : S → A → S) (bs : List B) (s : S) (e : Option String)
    → (query_each query add bs (s, e)).1 ≡ (
      fold_answers add s (answers (replies query bs)),
      keep_first e (first_failure (replies query bs)),
    )
unfolding query_each
query_each_lem query add [] s none = refl
query_each_lem query add [] s (some e) = refl
query_each_lem query add (b ∷ bs) s e =
    let acc = absorb add (s, e) (query b).1 in
    let ih = query_each_lem query add bs acc.0 acc.1 in
    let (a, f) = absorb_lem add s e (query b).1 (replies query bs) in ih ∙ (λ i. (a i, f i))

-- The lists of the backends that answered, one after another.
abbrev pub concatenated : {A : Type 0} → List (List A) → List A
concatenated [] = []
concatenated (xs ∷ xss) = xs ++ concatenated xss

fold-append :
    {A : Type 0} (xs : List A) (xss : List (List A))
    → fold_answers ◌++◌ xs xss ≡ xs ++ concatenated xss
fold-append xs [] = sym (append-nil xs)
fold-append xs (ys ∷ xss) = fold-append (xs ++ ys) xss ∙ append_assoc xs ys (concatenated xss)

-- The answer when nothing was merged and one failed is that failure, else what was merged.
abbrev pub failure_if_none : {A : Type 0} → Bool → A → Option String → Reply A
failure_if_none true a (some e) = failure e
failure_if_none true a none = answer (some a)
failure_if_none false a e = answer (some a)

or_error_lem :
    {A : Type 0} (nothing : Bool) (a : A) (e : Option String)
    → or_error nothing a e ≡ failure_if_none nothing a e
unfolding or_error
or_error_lem true a none = refl
or_error_lem false a none = refl
or_error_lem true a (some e) = refl
or_error_lem false a (some e) = refl

module _ {B : Type 0} (ops : Backend B) where
  -- GetStats answers the stats of all backends that answered, one after another, and fails, with
  -- the first failure, exactly if there are none of them and a backend failed.
  pub get_stats_lem :
      (request : StatRequest) (bs : List B)
      → (get_stats ops request bs).1
        ≡ failure_if_none
            (is_nil (concatenated (answers (replies (ops.get_stats request) bs))))
            (concatenated (answers (replies (ops.get_stats request) bs)))
            (first_failure (replies (ops.get_stats request) bs))
  unfolding get_stats
  get_stats_lem request bs =
      let q = query_each_lem (ops.get_stats request) ◌++◌ bs [] none in
      let c = fold-append [] (answers (replies (ops.get_stats request) bs)) in
      rw (q, c, or_error_lem)

abbrev pub sum64 : Int64 → List Int64 → Int64
sum64 t [] = t
sum64 t (v ∷ vs) = sum64 (add64 t v) vs

fold-add_online :
    (t : Int64) (vs : List Int64) → fold_answers add_online (t, true) vs ≡ (sum64 t vs, true)
unfolding add_online
fold-add_online t [] = refl
fold-add_online t (v ∷ vs) = fold-add_online (add64 t v) vs

fold-add_online_start :
    (vs : List Int64)
    → fold_answers add_online (0, false) vs ≡ (sum64 0 vs, if is_nil vs then false else true)
unfolding add_online
fold-add_online_start [] = refl
fold-add_online_start (v ∷ vs) = fold-add_online (add64 0 v) vs

if_twice : (c : Bool) → (if (if c then false else true) then false else true) ≡ c
if_twice true = refl
if_twice false = refl

-- Each answer's uptime is at most n.
abbrev pub AtMost : ℕ → List SysStats → Type 0
AtMost n [] = Unit
AtMost n (s ∷ ss) = (s.uptime ≤ n) × AtMost n ss

skip_second : {A : Type 0} {b s x : A} {ss : List A} → Memᴰ b (s ∷ ss) → Memᴰ b (s ∷ x ∷ ss)
skip_second (Memᴰ.head e) = Memᴰ.head e
skip_second (Memᴰ.tail m) = Memᴰ.tail (Memᴰ.tail m)

fold-fresher :
    (s : SysStats) (ss : List SysStats)
    → (b : SysStats) × (fold_answers fresher (some s) ss ≡ some b)
      × Memᴰ b (s ∷ ss)
      × AtMost b.uptime (s ∷ ss)
unfolding fresher
fold-fresher s [] = (s, refl, Memᴰ.head refl, (omega arith, record {}))
fold-fresher s (x ∷ ss) = elim (Bool-cases (ltb s.uptime x.uptime)) [
  | inl h ↦
      let (b, f, m, (x≤b, rest)) = fold-fresher x ss in
      (b, rw (h) f, Memᴰ.tail m, (ground (arith, h, x≤b), (x≤b, rest)))
  | inr h ↦
      let (b, f, m, (s≤b, rest)) = fold-fresher s ss in
      (b, rw (h) f, skip_second m, (s≤b, (ground (arith, h, s≤b), rest)))
]

module _ {B : Type 0} (ops : Backend B) where
  -- GetUserOnlineStats answers the sum of the answers, and fails, with the first failure, exactly
  -- if no backend answered and one failed.
  pub get_user_online_stats_lem :
      (email : String) (bs : List B)
      → let rs = replies (ops.get_user_online_stats email) bs in
        (get_user_online_stats ops email bs).1
        ≡ failure_if_none (is_nil (answers rs)) (sum64 0 (answers rs)) (first_failure rs)
  unfolding get_user_online_stats
  get_user_online_stats_lem email bs =
      let rs = replies (ops.get_user_online_stats email) bs in
      rw
        (
          query_each_lem (ops.get_user_online_stats email) add_online bs (0, false) none,
          fold-add_online_start (answers rs),
          or_error_lem,
          if_twice,
        )
        refl

  -- A response with its error, against the answers of the backends and their first failure.
  abbrev pub IsBest : List SysStats → Option String → SysStats × Option String → Type 0
  IsBest [] failed (s, err) = (s ≡ record { uptime = 0; rest = [] }) × (err ≡ failed)
  IsBest (a ∷ as') failed (s, err) = Memᴰ s (a ∷ as') × AtMost s.uptime (a ∷ as') × (err ≡ none)

  best_lem :
      (as' : List SysStats) (failed : Option String)
      → IsBest as' failed (sys_response (fold_answers fresher none as') failed)
  unfolding fresher
  best_lem [] failed = (refl, refl)
  best_lem (a ∷ as') failed =
      let (b, f, m, most) = fold-fresher a as' in
      subst (λ r. IsBest (a ∷ as') failed (sys_response r failed)) (sym f) (m, most, refl)

  -- GetSysStats answers, without an error, one of the answers whose uptime is the greatest, or, if
  -- no backend answered, an empty response with the first failure.
  pub get_sys_stats_lem :
      (bs : List B)
      → let rs = replies ops.get_sys_stats bs in
        IsBest (answers rs) (first_failure rs) (get_sys_stats ops bs).1
  unfolding get_sys_stats
  get_sys_stats_lem bs =
      let rs = replies ops.get_sys_stats bs in
      subst (λ r. IsBest (answers rs) (first_failure rs) (sys_response r.0 r.1))
        (sym (query_each_lem ops.get_sys_stats fresher bs none none))
        (best_lem (answers rs) (first_failure rs))
