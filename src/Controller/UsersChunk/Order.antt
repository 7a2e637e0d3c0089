-- ===== src/Controller/UsersChunk/Order.antt =====
-- controller/users_chunk.go: the pieces are joined in the order of their indices.
use pasarguard_node.Prelude.{
  ℕ, zero, suc, ◌+◌, ◌≤◌, ◌<◌, ◌^◌, ◌%◌, ◌≡◌, refl, true, false, Option, none, some, List, [], ◌∷◌,
  ◌++◌, ◌∙◌, arith, leb, sym, ap, subst, Bool-cases, Option-cases, inl, inr,
}
use pasarguard_node.User.{User}
use pasarguard_node.Controller.UsersChunk.{
  Error, Result, ok, err, missing_final, missing_index, no_users, Chunks, collect, some_users,
  build_users_from_chunks,
}

after_prefix : Result (List User) → ℕ → Option (List User) → Result (List User)
after_prefix (err e) n chunk = err e
after_prefix (ok users) n none = err (missing_index n)
after_prefix (ok users) n (some chunk) = ok (users ++ chunk)

-- The first n pieces, one after another, or the first that is missing.
pub prefix : Chunks → ℕ → Result (List User)
unfolding after_prefix
prefix chunks zero = ok []
prefix chunks (suc n) = after_prefix (prefix chunks n) n (chunks n)

prefix-err :
    (chunks : Chunks) (i n : ℕ) (e : Error)
    → i ≤ n
    → prefix chunks i ≡ err e
    → prefix chunks n ≡ err e
unfolding prefix after_prefix
prefix-err chunks i zero e i≤n h =
    let same : i ≡ zero = omega arith in subst (λ m. prefix chunks m ≡ err e) same h
prefix-err chunks i (suc n) e i≤n h = elim (Bool-cases (leb i n)) [
  | inl le ↦
      let i≤m : i ≤ n = ground (arith, le) in
      let before = prefix-err chunks i n e i≤m h in rw (before) refl
  | inr gt ↦
      let same : i ≡ suc n = ground (arith, gt) in subst (λ m. prefix chunks m ≡ err e) same h
]

prefix-missing :
    (chunks : Chunks) (i : ℕ) (users : List User)
    → prefix chunks i ≡ ok users
    → chunks i ≡ none
    → prefix chunks (suc i) ≡ err (missing_index i)
unfolding prefix after_prefix
prefix-missing chunks i users h m = rw (h, m) refl

prefix-next :
    (chunks : Chunks) (i : ℕ) (users chunk : List User)
    → prefix chunks i ≡ ok users
    → chunks i ≡ some chunk
    → prefix chunks (suc i) ≡ ok (users ++ chunk)
unfolding prefix after_prefix
prefix-next chunks i users chunk h m = rw (h, m) refl

collect_lem :
    (fuel i last : ℕ) (chunks : Chunks) (users : List User)
    → prefix chunks i ≡ ok users
    → i ≤ suc last
    → suc last < fuel + i
    → suc last < 2 ^ 64
    → collect fuel chunks last i users ≡ prefix chunks (suc last)
unfolding collect
collect_lem zero i last chunks users h reached enough fits = ground arith
collect_lem (suc fuel) i last chunks users h reached enough fits = elim (Bool-cases (leb i last)) [
  | inr past ↦
      let done : i ≡ suc last = ground (arith, past) in
      elim (Option-cases (chunks i)) [
        | inl m ↦ rw (m, past, collect) (sym (subst (λ n. prefix chunks n ≡ ok users) done h))
        | inr (c, m) ↦ rw (m, past, collect) (sym (subst (λ n. prefix chunks n ≡ ok users) done h))
      ]
  | inl inside ↦ elim (Option-cases (chunks i)) [
    | inl m ↦
        let here = prefix-missing chunks i users h m in
        let i≤last : suc i ≤ suc last = ground (arith, inside) in
        rw (m, inside, collect)
          (sym (prefix-err chunks (suc i) (suc last) (missing_index i) i≤last here))
    | inr (c, m) ↦
        let next : (i + 1) % 2 ^ 64 ≡ suc i = ground (arith, inside) in
        let i≤last : suc i ≤ suc last = ground (arith, inside) in
        let less : suc last < fuel + suc i = omega arith in
        rw (m, inside, next, collect)
          (collect_lem fuel (suc i) last chunks (users ++ c) (prefix-next chunks i users c h m)
            i≤last less fits)
  ]
]

-- What the panel is told: the joined list, unless it is empty.
abbrev pub answer_for : Result (List User) → Result (List User)
answer_for (err e) = err e
answer_for (ok []) = err no_users
answer_for (ok (u ∷ us)) = ok (u ∷ us)

some_users-answer_for : (r : Result (List User)) → some_users r ≡ answer_for r
unfolding some_users
some_users-answer_for (err e) = refl
some_users-answer_for (ok []) = refl
some_users-answer_for (ok (u ∷ us)) = refl

-- With fuel for one round more than there are pieces, and if the last index is not the greatest
-- uint64, BuildUsersFromChunks joins the pieces from the first to the last index in order, or
-- reports the first that is missing, and fails if the joined list is empty or no last piece was
-- seen.
pub build_users_from_chunks_lem :
    (fuel last : ℕ) (chunks : Chunks)
    → suc last < fuel
    → suc last < 2 ^ 64
    → (build_users_from_chunks fuel chunks last true ≡ answer_for (prefix chunks (suc last)))
      × (build_users_from_chunks fuel chunks last false ≡ err missing_final)
unfolding build_users_from_chunks prefix
build_users_from_chunks_lem fuel last chunks enough fits =
    let more : suc last < fuel + zero = omega arith in
    let start : zero ≤ suc last = omega arith in
    (
      ap some_users (collect_lem fuel zero last chunks [] refl start more fits)
          ∙ some_users-answer_for (prefix chunks (suc last)),
      refl,
    )
