-- ===== src/L2tp/Poll/Moved.antt =====
-- backend/l2tp/stats.go: which sessions are a core's own, and what one of them moved, apart from the
-- code.
use pasarguard_node.Prelude.{
  ℕ, ◌%◌, ◌^◌, String, ◌≡◌, refl, ◌||◌, Option, none, some, List, [], ◌∷◌, arith, ◌==◌,
  if◌then◌else◌,
}
use pasarguard_node.Int64.{sub64, is_neg}
use pasarguard_node.L2tp.Poll.{
  Session, FinalRecord, Reading, final_growth, at_least_zero, session_growth, reading_or_zero,
  grown_counter, is_own, own_sessions, own_finals,
}

-- What an ended session received since its interface was last read, and nothing if that is below
-- zero.
abbrev pub final_moved : Option Reading → FinalRecord → ℕ
final_moved none fin = if is_neg fin.rx then 0 else fin.rx
final_moved (some last) fin = let more = sub64 fin.rx last.rx in if is_neg more then 0 else more

-- What a live session received: all that the first reading counts, what a later one counts over the
-- reading before, and all of it again if the count fell.
abbrev pub session_moved : Option Reading → Reading → ℕ
session_moved none now = now.rx
session_moved (some last) now =
    let more = sub64 now.rx last.rx in if is_neg more then now.rx else more

-- A core keeps what has no tag or its own.
abbrev pub ours : String → List Session → List Session
ours tag [] = []
ours tag (s ∷ ss) = let rest = ours tag ss in if s.tag == "" || s.tag == tag then s ∷ rest else rest

abbrev pub our_finals : String → List FinalRecord → List FinalRecord
our_finals tag [] = []
our_finals tag (fin ∷ fins) =
    let rest = our_finals tag fins in if fin.tag == "" || fin.tag == tag then fin ∷ rest else rest

pub own_sessions-ours : (tag : String) (ss : List Session) → own_sessions tag ss ≡ ours tag ss
unfolding own_sessions is_own
own_sessions-ours tag [] = refl
own_sessions-ours tag (s ∷ ss) = ground (arith, own_sessions-ours tag ss)

pub own_finals-our_finals :
    (tag : String) (fins : List FinalRecord) → own_finals tag fins ≡ our_finals tag fins
unfolding own_finals is_own
own_finals-our_finals tag [] = refl
own_finals-our_finals tag (fin ∷ fins) = ground (arith, own_finals-our_finals tag fins)

pub final_growth-rx :
    (last : Option Reading) (fin : FinalRecord) → (final_growth last fin).rx ≡ final_moved last fin
unfolding final_growth at_least_zero
final_growth-rx none fin = refl
final_growth-rx (some last) fin = refl

pub session_growth-rx :
    (last : Option Reading) (now : Reading)
    → (session_growth last now).rx % 2 ^ 64 ≡ session_moved last now % 2 ^ 64
unfolding session_growth reading_or_zero grown_counter
session_growth-rx none now = ground arith
session_growth-rx (some last) now = refl
