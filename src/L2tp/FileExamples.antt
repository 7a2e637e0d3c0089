-- ===== src/L2tp/FileExamples.antt =====
-- A chap-secrets file of two cores, and one of a user whose name has a space.
use Prim.Native.Char.{Char, code}
use pasarguard_node.Prelude.{
  ◌≡◌, refl, String, false, Option, none, some, List, [], ◌∷◌, nat_beq, ◌==◌, if◌then◌else◌,
}
use pasarguard_node.L2tp.ChapSecrets.{scanned, lines, write_chap_secrets, remove_chap_secrets}
use pasarguard_node.L2tp.SharedFile.{AreEntries, own_lines, lines_for, write_chap_secrets_lem}
use pasarguard_node.L2tp.Pool.{Ip, pool_range}

append : String → String → String
append String.[] t = t
append (String.◌∷◌ c s) t = String.◌∷◌ c (append s t)

-- The words of a text between single spaces.
add_word : Char → List String → List String
add_word c [] = String.◌∷◌ c String.[] ∷ []
add_word c (w ∷ ws) = String.◌∷◌ c w ∷ ws

words : String → List String
unfolding add_word
words String.[] = []
words (String.◌∷◌ c s) =
    let rest = words s in if nat_beq (code c) 32 then "" ∷ rest else add_word c rest

trim : String → String
trim s = s

-- A username without quotes needs no escapes in %q.
entry : String → String → String → String
unfolding append
entry username tag password =
    append "\""
      (append username (append "\" " (append tag (append " \"" (append password "\" *")))))

abbrev before : List String
before = "# secrets" ∷ "\"carol\" other \"pw\" *" ∷ "\"old\" l2tp \"pw\" *" ∷ []

abbrev users : List (String × String)
users = ("alice", "one") ∷ ("bob", "two") ∷ []

users-AreEntries : AreEntries words trim entry "l2tp" users
unfolding words entry trim
users-AreEntries = (λ other. refl, (λ other. refl, tt))

write_chap_secrets_lem_example :
    (ws : List String) × (write_chap_secrets words trim entry "l2tp" users (scanned before none)
      ≡ lines ws)
    × (own_lines words trim entry "l2tp" ws ≡ lines_for words trim entry "l2tp" users)
    × ((other : String)
        → ("l2tp" == other) ≡ false
        → own_lines words trim entry other ws ≡ own_lines words trim entry other before)
    × (remove_chap_secrets words trim "l2tp" (scanned ws none)
        ≡ remove_chap_secrets words trim "l2tp" (scanned before none))
write_chap_secrets_lem_example =
    write_chap_secrets_lem words trim entry "l2tp" users before users-AreEntries

-- The line of a username with a space is not the core's own any more, and stays for ever.
spaced_stays :
    remove_chap_secrets words trim "l2tp" (scanned (entry "al ice" "l2tp" "pw" ∷ []) none)
    ≡ lines (entry "al ice" "l2tp" "pw" ∷ [])
unfolding remove_chap_secrets words entry trim
spaced_stays = refl

abbrev network : Ip
network = record { b0 = 10; b1 = 31; b2 = 0; b3 = 0 }

abbrev bcast : Ip
bcast = record { b0 = 10; b1 = 31; b2 = 0; b3 = 255 }

abbrev parse_cidr : String → Option (Ip × Ip)
parse_cidr s = some (network, record { b0 = 255; b1 = 255; b2 = 255; b3 = 0 })

abbrev show : Ip → String
show ip = if nat_beq ip.b3 2 then "10.31.0.2" else "10.31.0.254"

-- The range starts behind the first host, whichever address the server has itself: 10.31.0.5 is in.
range_has_local_ip :
    pool_range parse_cidr show "10.31.0.0/24" "10.31.0.5" ≡ ("10.31.0.2", "10.31.0.254")
unfolding pool_range
range_has_local_ip = refl
