-- ===== src/L2tp/ChapSecrets.antt =====
-- backend/l2tp/serverconf.go: this core's users in the chap-secrets file, which the cores share. A
-- file is its lines. strings.Fields, TrimSpace, HasPrefix and the line that Fprintf writes are
-- arguments, and so is the order in which `range` visits the users.
use text.Mathlib.Text.{starts_with}
use pasarguard_node.Prelude.{
  String, Bool, true, not, ◌||◌, Option, none, some, List, [], ◌∷◌, ◌++◌, ◌==◌, if◌then◌else◌,
}

-- What reading the file ends with: that it does not exist, another error, or its lines, with the
-- error of the scanner if there is one.
pub data Opened : Type 0 where
  missing_file : Opened
  refused : String → Opened
  scanned : List String → Option String → Opened

pub data Kept : Type 0 where
  failed : String → Kept
  lines : List String → Kept

-- len(fields) < 2 || fields[1] != tag
unfoldable pub is_other : String → List String → Bool
is_other tag [] = true
is_other tag (_ ∷ []) = true
is_other tag (_ ∷ (server ∷ _)) = not (server == tag)

module _ (fields : String → List String) (trim_space : String → String) where
  -- Comments, blank lines, and the entries of other servers stay.
  unfoldable pub is_kept : String → String → Bool
  unfolding is_other
  is_kept tag line =
      trim_space line == "" || starts_with (trim_space line) "#" || is_other tag (fields line)

  unfoldable pub keep_lines : String → List String → List String
  unfolding is_kept
  keep_lines tag [] = []
  keep_lines tag (line ∷ rest) =
      let kept = keep_lines tag rest in if is_kept tag line then line ∷ kept else kept

  unfoldable pub chap_secrets_without_tag : String → Opened → Kept
  unfolding keep_lines
  chap_secrets_without_tag tag missing_file = lines []
  chap_secrets_without_tag tag (refused e) = failed e
  chap_secrets_without_tag tag (scanned ls none) = lines (keep_lines tag ls)
  chap_secrets_without_tag tag (scanned ls (some e)) = failed e

  module _ (entry : String → String → String → String) where
    -- A line for each username and password.
    unfoldable pub entry_lines : String → List (String × String) → List String
    entry_lines tag [] = []
    entry_lines tag ((username, password) ∷ users) =
        entry username tag password ∷ entry_lines tag users

    unfoldable pub write_kept : String → List (String × String) → Kept → Kept
    unfolding entry_lines
    write_kept tag users (failed e) = failed e
    write_kept tag users (lines kept) = lines (kept ++ entry_lines tag users)

    -- The lines that the file is written with.
    unfoldable pub write_chap_secrets : String → List (String × String) → Opened → Kept
    unfolding write_kept chap_secrets_without_tag
    write_chap_secrets tag users file = write_kept tag users (chap_secrets_without_tag tag file)

  unfoldable pub lines_or_blank : List String → List String
  lines_or_blank [] = "" ∷ []
  lines_or_blank (line ∷ rest) = line ∷ rest

  -- strings.Join(kept, "\n") and a line feed: of no lines, one that is empty.
  unfoldable pub remove_kept : Kept → Kept
  unfolding lines_or_blank
  remove_kept (failed e) = failed e
  remove_kept (lines kept) = lines (lines_or_blank kept)

  unfoldable pub remove_chap_secrets : String → Opened → Kept
  unfolding remove_kept chap_secrets_without_tag
  remove_chap_secrets tag file = remove_kept (chap_secrets_without_tag tag file)
