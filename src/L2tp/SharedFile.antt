-- ===== src/L2tp/SharedFile.antt =====
-- backend/l2tp/serverconf.go: what the cores that share the chap-secrets file leave of each other's
-- entries.
use mathlib.Core.List.{append-nil}
use text.Mathlib.Text.{starts_with}
use pasarguard_node.Prelude.{
  String, ◌≡◌, refl, ◌∙◌, ap, Bool, ◌&&◌, ◌||◌, true, false, not, none, List, [], ◌∷◌, ◌++◌, arith,
  ◌==◌, eq_refl, eq_iff, if◌then◌else◌, inl, inr, Bool-cases,
}
use pasarguard_node.L2tp.ChapSecrets.{
  is_other, scanned, lines, is_kept, keep_lines, entry_lines, write_chap_secrets,
  remove_chap_secrets,
}

-- The second of a line's fields is the server.
abbrev pub is_second : String → List String → Bool
is_second tag [] = false
is_second tag (_ ∷ []) = false
is_second tag (_ ∷ (server ∷ _)) = server == tag

is_other-is_second : (tag : String) (fs : List String) → is_other tag fs ≡ not (is_second tag fs)
unfolding is_other
is_other-is_second tag [] = refl
is_other-is_second tag (f ∷ []) = refl
is_other-is_second tag (f ∷ (server ∷ fs)) = refl

is_other-other :
    (tag other : String) (fs : List String)
    → (tag == other) ≡ false
    → is_other other fs ≡ false
    → is_other tag fs ≡ true
unfolding is_other
is_other-other tag other [] d h = refl
is_other-other tag other (f ∷ []) d h = refl
is_other-other tag other (f ∷ (server ∷ fs)) d h =
    ground (arith, eq_iff server tag, eq_iff server other, eq_iff tag other)

module _ (fields : String → List String) (trim_space : String → String)
    (entry : String → String → String → String) where
  -- A line is an entry of the server that its second field names, unless it is blank or a comment.
  abbrev pub is_entry_of : String → String → Bool
  is_entry_of tag line =
      not (trim_space line == "" || starts_with (trim_space line) "#")
      && is_second tag (fields line)

  is_kept-is_entry_of :
      (tag line : String) → is_kept fields trim_space tag line ≡ not (is_entry_of tag line)
  unfolding is_kept
  is_kept-is_entry_of tag line = ground (arith, is_other-is_second tag (fields line))

  -- The entries of a server in a file.
  abbrev pub own_lines : String → List String → List String
  own_lines tag [] = []
  own_lines tag (line ∷ rest) =
      let own = own_lines tag rest in if is_entry_of tag line then line ∷ own else own

  -- The line of a user is the entry of its own server and of no other: it is what Fields makes of a
  -- username without spaces, since %q quotes it.
  abbrev pub AreEntries : String → List (String × String) → Type 0
  AreEntries tag [] = Unit
  AreEntries tag ((username, password) ∷ users) =
      ((other : String) → is_entry_of other (entry username tag password) ≡ (tag == other))
      × AreEntries tag users

  -- The lines that a list of users asks for: one for each, in its order.
  abbrev pub lines_for : String → List (String × String) → List String
  lines_for tag [] = []
  lines_for tag ((username, password) ∷ users) = entry username tag password ∷ lines_for tag users

  entry_lines-lines_for :
      (tag : String) (users : List (String × String))
      → entry_lines fields trim_space entry tag users ≡ lines_for tag users
  unfolding entry_lines
  entry_lines-lines_for tag [] = refl
  entry_lines-lines_for tag ((username, password) ∷ users) =
      ap (λ ls. entry username tag password ∷ ls) (entry_lines-lines_for tag users)

  kept_line :
      (tag line : String) (b : Bool)
      → is_entry_of tag line ≡ b
      → is_kept fields trim_space tag line ≡ not b
  kept_line tag line b h = is_kept-is_entry_of tag line ∙ ap not h

  keep_lines-append :
      (tag : String) (xs ys : List String)
      → keep_lines fields trim_space tag (xs ++ ys)
        ≡ keep_lines fields trim_space tag xs ++ keep_lines fields trim_space tag ys
  unfolding keep_lines
  keep_lines-append tag [] ys = refl
  keep_lines-append tag (x ∷ xs) ys = ground (arith, keep_lines-append tag xs ys)

  own_lines-append :
      (tag : String) (xs ys : List String)
      → own_lines tag (xs ++ ys) ≡ own_lines tag xs ++ own_lines tag ys
  own_lines-append tag [] ys = refl
  own_lines-append tag (x ∷ xs) ys = ground (arith, own_lines-append tag xs ys)

  keep_lines-keep_lines :
      (tag : String) (xs : List String)
      → keep_lines fields trim_space tag (keep_lines fields trim_space tag xs)
        ≡ keep_lines fields trim_space tag xs
  unfolding keep_lines
  keep_lines-keep_lines tag [] = refl
  keep_lines-keep_lines tag (x ∷ xs) = ground (arith, keep_lines-keep_lines tag xs)

  own_lines-keep_lines :
      (tag : String) (xs : List String) → own_lines tag (keep_lines fields trim_space tag xs) ≡ []
  unfolding keep_lines
  own_lines-keep_lines tag [] = refl
  own_lines-keep_lines tag (x ∷ xs) = elim (Bool-cases (is_entry_of tag x)) [
    | inl own ↦ rw (kept_line tag x true own) (own_lines-keep_lines tag xs)
    | inr alien ↦ rw (kept_line tag x false alien, alien) (own_lines-keep_lines tag xs)
  ]

  module _ (tag : String) where
    -- An entry of another server stays when this one rewrites the file.
    kept_for_other :
        (other line : String)
        → (tag == other) ≡ false
        → is_kept fields trim_space other line ≡ false
        → is_kept fields trim_space tag line ≡ true
    unfolding is_kept
    kept_for_other other line d own = ground (arith, is_other-other tag other (fields line) d)

    own_lines-other :
        (other : String) (xs : List String)
        → (tag == other) ≡ false
        → own_lines other (keep_lines fields trim_space tag xs) ≡ own_lines other xs
    unfolding keep_lines
    own_lines-other other [] d = refl
    own_lines-other other (x ∷ xs) d = elim (Bool-cases (is_entry_of other x)) [
      | inl k ↦
          rw (kept_for_other other x d (kept_line other x true k), k)
            (ap (λ ls. x ∷ ls) (own_lines-other other xs d))
      | inr k ↦ elim (Bool-cases (is_kept fields trim_space tag x)) [
        | inl stays ↦ rw (stays, k) (own_lines-other other xs d)
        | inr goes ↦ rw (goes, k) (own_lines-other other xs d)
      ]
    ]

    own_lines-entry_lines :
        (users : List (String × String))
        → AreEntries tag users
        → own_lines tag (entry_lines fields trim_space entry tag users)
          ≡ entry_lines fields trim_space entry tag users
    unfolding entry_lines
    own_lines-entry_lines [] a = refl
    own_lines-entry_lines ((username, password) ∷ users) a =
        rw (a.0 tag, eq_refl tag, own_lines-entry_lines users a.1) refl

    own_lines-entries-other :
        (other : String) (users : List (String × String))
        → (tag == other) ≡ false
        → AreEntries tag users
        → own_lines other (entry_lines fields trim_space entry tag users) ≡ []
    unfolding entry_lines
    own_lines-entries-other other [] d a = refl
    own_lines-entries-other other ((username, password) ∷ users) d a =
        rw (a.0 other, d, own_lines-entries-other other users d a.1) refl

    keep_lines-entry_lines :
        (users : List (String × String))
        → AreEntries tag users
        → keep_lines fields trim_space tag (entry_lines fields trim_space entry tag users) ≡ []
    unfolding entry_lines keep_lines
    keep_lines-entry_lines [] a = refl
    keep_lines-entry_lines ((username, password) ∷ users) a =
        rw
          (
            kept_line tag (entry username tag password) (tag == tag) (a.0 tag),
            eq_refl tag,
            keep_lines-entry_lines users a.1,
          )
          refl

    -- If the users' lines are entries of this server and of no other, then after writeChapSecrets
    -- the file has just these for its entries, one for each user in order, and every other server's as
    -- they were, and
    -- removeChapSecrets leaves of it what it would have left of the file before.
    pub write_chap_secrets_lem :
        (users : List (String × String)) (ls : List String)
        → AreEntries tag users
        → (ws : List String) × (write_chap_secrets fields trim_space entry tag users
              (scanned ls none)
            ≡ lines ws)
          × (own_lines tag ws ≡ lines_for tag users)
          × ((other : String) → (tag == other) ≡ false → own_lines other ws ≡ own_lines other ls)
          × (remove_chap_secrets fields trim_space tag (scanned ws none)
              ≡ remove_chap_secrets fields trim_space tag (scanned ls none))
    unfolding write_chap_secrets remove_chap_secrets
    write_chap_secrets_lem users ls a =
        let kept = keep_lines fields trim_space tag ls in
        let own = entry_lines fields trim_space entry tag users in
        (
          kept ++ own,
          refl,
          own_lines-append tag kept own
              ∙ rw (own_lines-keep_lines tag ls, own_lines-entry_lines users a)
                  (entry_lines-lines_for tag users),
          λ other d.
              own_lines-append other kept own
              ∙ rw (own_lines-other other ls d, own_lines-entries-other other users d a, append-nil)
                  refl,
          rw
              (
                keep_lines-append tag kept own,
                keep_lines-keep_lines tag ls,
                keep_lines-entry_lines users a,
                append-nil,
              )
              refl,
        )
