-- ===== src/Xray/Stripped.antt =====
-- backend/xray/config.go: the inbounds after ApplyAPI's loop.
use pasarguard_node.Prelude.{
  ℕ, zero, suc, ◌-◌, ◌≡◌, refl, ◌∙◌, ap, Bool, true, false, not, ◌&&◌, Option, none, some, List, [],
  ◌∷◌, ◌++◌, arith, if◌then◌else◌, inl, inr, Bool-cases, Option-cases, length, leb,
}
use pasarguard_node.Xray.Accounts.{map_option}
use pasarguard_node.Xray.Inbounds.{Inbound}
use pasarguard_node.Xray.ApplyApi.{
  Slice, first_of, after, cell_at, remove_at, is_api, strip, strip_at, contents, strip_api,
}

abbrev pub no_api : List Inbound → Bool
no_api [] = true
no_api (i ∷ is) = not (is_api i) && no_api is

abbrev pub without_api : List Inbound → List Inbound
without_api [] = []
without_api (i ∷ is) = let rest = without_api is in if is_api i then rest else i ∷ rest

-- No two inbounds have the tag of the API.
abbrev pub AtMostOneApi : List Inbound → Type 0
AtMostOneApi [] = Unit
AtMostOneApi (i ∷ is) = (is_api i ≡ true → no_api is ≡ true) × AtMostOneApi is

pub without_api-none : (is : List Inbound) → no_api is ≡ true → without_api is ≡ is
without_api-none [] h = refl
without_api-none (i ∷ is) h = ground (arith, without_api-none is)

-- A slice with one more cell in front.
abbrev push : Inbound → Slice → Slice
push x s = record { cells = x ∷ s.cells; len = suc s.len }

contents-push : (x : Inbound) (s : Slice) → contents (push x s) ≡ x ∷ contents s
unfolding contents first_of
contents-push x s = refl

after-suc :
    (xs : List Inbound) (i : ℕ) → no_api (after i xs) ≡ true → no_api (after (suc i) xs) ≡ true
unfolding after
after-suc [] zero h = refl
after-suc [] (suc i) h = refl
after-suc (x ∷ xs) zero h = ground arith
after-suc (x ∷ xs) (suc i) h = after-suc xs i h

strip_at-after :
    (xs : List Inbound) (i j : ℕ) (s : Slice)
    → no_api (after i xs) ≡ true
    → strip_at j s (cell_at xs i) ≡ some s
unfolding after strip_at cell_at
strip_at-after [] zero j s h = refl
strip_at-after [] (suc i) j s h = refl
strip_at-after (x ∷ xs) zero j s h = ground arith
strip_at-after (x ∷ xs) (suc i) j s h = strip_at-after xs i j s h

-- The loop passes over cells without the API's tag.
strip-no_api :
    (rounds i : ℕ) (s : Slice) → no_api (after i s.cells) ≡ true → strip rounds i s ≡ some s
unfolding strip
strip-no_api zero i s h = refl
strip-no_api (suc rounds) i s h =
    rw (strip_at-after s.cells i i s h, strip)
      (strip-no_api rounds (suc i) s (after-suc s.cells i h))

remove_at-push :
    (x : Inbound) (i : ℕ) (cells : List Inbound) (len : ℕ)
    → remove_at (suc i) (record { cells = x ∷ cells; len = suc len })
      ≡ map_option (push x) (remove_at i (record { cells = cells; len = len }))
unfolding remove_at first_of after
remove_at-push x i cells zero = ground arith
remove_at-push x i cells (suc len) =
    let below : suc (suc len) - 1 ≡ suc len = omega arith in
    let below' : suc len - 1 ≡ len = omega arith in rw (below, below') (ground arith)

strip_at-push :
    (x : Inbound) (i : ℕ) (s : Slice) (o : Option Inbound)
    → strip_at (suc i) (push x s) o ≡ map_option (push x) (strip_at i s o)
unfolding strip_at
strip_at-push x i s none = refl
strip_at-push x i s (some inbound) = ground (arith, remove_at-push x i s.cells s.len)

-- From the second cell on the loop does what it does on the slice without the first.
strip-push :
    (x : Inbound) (rounds i : ℕ) (s : Slice)
    → strip rounds (suc i) (push x s) ≡ map_option (push x) (strip rounds i s)
unfolding strip cell_at
strip-push x zero i s = refl
strip-push x (suc rounds) i s = elim (Option-cases (strip_at i s (cell_at s.cells i))) [
  | inl e ↦ rw (strip_at-push x i s (cell_at s.cells i), e, strip, cell_at) refl
  | inr (next, e) ↦
      rw (strip_at-push x i s (cell_at s.cells i), e, strip, cell_at)
        (strip-push x rounds (suc i) next)
]

module _ {ℓ} {A : Type ℓ} where
  first_of-append : (xs ys : List A) → first_of (length xs) (xs ++ ys) ≡ xs
  unfolding first_of
  first_of-append [] ys = refl
  first_of-append (x ∷ xs) ys = ap (λ l. x ∷ l) (first_of-append xs ys)

  first_of-length : (xs : List A) → first_of (length xs) xs ≡ xs
  unfolding first_of
  first_of-length [] = refl
  first_of-length (x ∷ xs) = ap (λ l. x ∷ l) (first_of-length xs)

no_api-append :
    (xs ys : List Inbound) → no_api xs ≡ true → no_api ys ≡ true → no_api (xs ++ ys) ≡ true
no_api-append [] ys h k = k
no_api-append (x ∷ xs) ys h k = ground (arith, no_api-append xs ys)

no_api-after : (n : ℕ) (xs : List Inbound) → no_api xs ≡ true → no_api (after n xs) ≡ true
unfolding after
no_api-after zero xs h = h
no_api-after (suc n) [] h = refl
no_api-after (suc n) (x ∷ xs) h = no_api-after n xs (ground arith)

-- After the first cell is removed, none that the loop comes to has the API's tag.
no_api-moved :
    (x : Inbound) (xs : List Inbound)
    → no_api xs ≡ true
    → no_api (after 1 (xs ++ after (length xs) (x ∷ xs))) ≡ true
unfolding after
no_api-moved x [] h = refl
no_api-moved x (y ∷ ys) h =
    no_api-append ys (after (length ys) (y ∷ ys)) (ground arith)
      (no_api-after (length ys) (y ∷ ys) h)

whole : List Inbound → Slice
whole is = record { cells = is; len = length is }

remove_at-first :
    (x : Inbound) (xs : List Inbound)
    → remove_at 0 (whole (x ∷ xs))
      ≡ some (record { cells = xs ++ after (length xs) (x ∷ xs); len = length xs })
unfolding remove_at first_of after whole
remove_at-first x xs =
    let below : suc (length xs) - 1 ≡ length xs = omega arith in
    let in_range : leb 1 (suc (length xs)) ≡ true = ground arith in
    rw (in_range, below, first_of-length xs) refl

strip_at-api :
    (i : Inbound) (j : ℕ) (s : Slice) → is_api i ≡ true → strip_at j s (some i) ≡ remove_at j s
unfolding strip_at
strip_at-api i j s a = rw a refl

strip_at-other :
    (i : Inbound) (j : ℕ) (s : Slice) → is_api i ≡ false → strip_at j s (some i) ≡ some s
unfolding strip_at
strip_at-other i j s a = rw a refl

strip-first :
    (i : Inbound) (is : List Inbound)
    → is_api i ≡ true
    → no_api is ≡ true
    → strip (suc (length is)) 0 (whole (i ∷ is))
      ≡ some (record { cells = is ++ after (length is) (i ∷ is); len = length is })
unfolding strip cell_at whole
strip-first i is a rest =
    let moved : Slice = record { cells = is ++ after (length is) (i ∷ is); len = length is } in
    rw (strip_at-api i 0 (whole (i ∷ is)) a ∙ remove_at-first i is, strip)
      (strip-no_api (length is) 1 moved (no_api-moved i is rest))

strip-other :
    (i : Inbound) (is : List Inbound)
    → is_api i ≡ false
    → strip (suc (length is)) 0 (whole (i ∷ is))
      ≡ map_option (push i) (strip (length is) 0 (whole is))
unfolding strip cell_at whole
strip-other i is a =
    rw (strip_at-other i 0 (whole (i ∷ is)) a, strip) (strip-push i (length is) 0 (whole is))

contents-pushed :
    (i : Inbound) (o : Option Slice)
    → map_option contents (map_option (push i) o)
      ≡ map_option (λ is. i ∷ is) (map_option contents o)
contents-pushed i none = refl
contents-pushed i (some s) = ap some (contents-push i s)

-- If at most one inbound has the tag of the API, the loop takes it out, leaves the others in their
-- order, and does not panic.
pub strip_api-AtMostOneApi :
    (is : List Inbound) → AtMostOneApi is → strip_api is ≡ some (without_api is)
unfolding strip_api contents whole
strip_api-AtMostOneApi [] one = refl
strip_api-AtMostOneApi (i ∷ is) one = elim (Bool-cases (is_api i)) [
  | inl a ↦
      ap (map_option contents) (strip-first i is a (one.0 a))
      ∙ rw (a, first_of-append is (after (length is) (i ∷ is)), without_api-none is (one.0 a)) refl
  | inr a ↦
      ap (map_option contents) (strip-other i is a)
      ∙ contents-pushed i (strip (length is) 0 (whole is))
      ∙ ap (map_option (λ l. i ∷ l)) (strip_api-AtMostOneApi is one.1)
      ∙ rw a refl
]
