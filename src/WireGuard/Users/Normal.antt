-- ===== src/WireGuard/Users/Normal.antt =====
-- backend/wireguard/user_common.go: what normalizeUsers makes of the users.
use pasarguard_node.Prelude.{
  String, ◌≡◌, refl, subst, false, Option, none, some, List, [], ◌∷◌, map, ◌==◌, eq_iff, inl, inr,
  Option-cases, Bool-cases, contains, arith,
}
use pasarguard_node.Dict
use pasarguard_node.Dict.{Dict, get-put, get-empty, keys-IsNodup, IsNodup}
use pasarguard_node.User.{User}
use pasarguard_node.WireGuard.Users.{is_complete, collect_last, list_values, normalize_users}

-- No two users share an email.
abbrev pub AreApart : List User → Type 0
AreApart [] = Unit
AreApart (u ∷ us) = (contains u.email (map User.email us) ≡ false) × AreApart us

-- A property of every user of the request, and of its email.
abbrev pub AllSent : (User → String → Type 0) → List (Option User) → Type 0
AllSent Q [] = Unit
AllSent Q (none ∷ us) = AllSent Q us
AllSent Q (some u ∷ us) = Q u u.email × AllSent Q us

abbrev pub AllListed : (User → Type 0) → List User → Type 0
AllListed P [] = Unit
AllListed P (u ∷ us) = P u × AllListed P us

abbrev AllHeld : (User → String → Type 0) → Dict User → Type 0
AllHeld Q last = (k : String) (u : User) → Dict.get last k ≡ some u → Q u k

module _ (Q : User → String → Type 0) where
  put-AllHeld :
      (last : Dict User) (u : User)
      → AllHeld Q last
      → Q u u.email
      → AllHeld Q (Dict.put last u.email u)
  put-AllHeld last u h q k v m = elim (Bool-cases (u.email == k)) [
    | inl e ↦
        let same : u ≡ v = cc (rw (get-put, e) at m) in
        subst (λ (j : String). Q v j) ((eq_iff u.email k).0 e)
          (subst (λ (a : User). Q a u.email) same q)
    | inr e ↦ h k v (rw (get-put, e) at m)
  ]

  collect_last-AllHeld :
      (us : List (Option User)) (last : Dict User)
      → AllSent Q us
      → AllHeld Q last
      → AllHeld Q (collect_last us last)
  unfolding collect_last
  collect_last-AllHeld [] last s h = h
  collect_last-AllHeld (none ∷ us) last s h = collect_last-AllHeld us last s h
  collect_last-AllHeld (some u ∷ us) last (q, s) h = elim (Bool-cases (is_complete u)) [
    | inl e ↦
        rw (e, collect_last)
          (collect_last-AllHeld us (Dict.put last u.email u) s (put-AllHeld last u h q))
    | inr e ↦ rw (e, collect_last) (collect_last-AllHeld us last s h)
  ]

own_email : (us : List (Option User)) → AllSent (λ u k. u.email ≡ k) us
own_email [] = tt
own_email (none ∷ us) = own_email us
own_email (some u ∷ us) = (refl, own_email us)

out-list_values :
    (last : Dict User) (keys : List String) (e : String)
    → AllHeld (λ u k. u.email ≡ k) last
    → contains e keys ≡ false
    → contains e (map User.email (list_values last keys)) ≡ false
unfolding list_values
out-list_values last [] e own h = refl
out-list_values last (k ∷ keys) e own h = elim (Option-cases (Dict.get last k)) [
  | inl m ↦ rw (m, list_values) (out-list_values last keys e own (ground (arith, h)))
  | inr (u, m) ↦
      rw (m, list_values)
        (ground
          (arith, h, own k u m, out-list_values last keys e own, eq_iff k e, eq_iff u.email e))
]

list_values-AreApart :
    (last : Dict User) (keys : List String)
    → AllHeld (λ u k. u.email ≡ k) last
    → IsNodup keys
    → AreApart (list_values last keys)
unfolding list_values
list_values-AreApart last [] own d = tt
list_values-AreApart last (k ∷ keys) own (fresh, d) = elim (Option-cases (Dict.get last k)) [
  | inl m ↦ rw (m, list_values) (list_values-AreApart last keys own d)
  | inr (u, m) ↦
      rw (m, list_values)
        (
          rw (own k u m) (out-list_values last keys k own fresh),
          list_values-AreApart last keys own d,
        )
]

list_values-AllListed :
    (P : User → Type 0) (last : Dict User) (keys : List String)
    → AllHeld (λ u k. P u) last
    → AllListed P (list_values last keys)
unfolding list_values
list_values-AllListed P last [] own = tt
list_values-AllListed P last (k ∷ keys) own = elim (Option-cases (Dict.get last k)) [
  | inl m ↦ rw (m, list_values) (list_values-AllListed P last keys own)
  | inr (u, m) ↦ rw (m, list_values) (own k u m, list_values-AllListed P last keys own)
]

pub normalize_users-AreApart : (us : List (Option User)) → AreApart (normalize_users us)
unfolding normalize_users
normalize_users-AreApart us =
    let last = collect_last us Dict.empty in
    list_values-AreApart last (Dict.keys last)
      (collect_last-AllHeld (λ u k. u.email ≡ k) us Dict.empty (own_email us)
        λ k u m. cc (get-empty {V = User} k))
      (keys-IsNodup last)

pub normalize_users-AllListed :
    (P : User → Type 0) (us : List (Option User))
    → AllSent (λ u k. P u) us
    → AllListed P (normalize_users us)
unfolding normalize_users
normalize_users-AllListed P us s =
    let last = collect_last us Dict.empty in
    list_values-AllListed P last (Dict.keys last)
      (collect_last-AllHeld (λ u k. P u) us Dict.empty s λ k u m. cc (get-empty {V = User} k))
