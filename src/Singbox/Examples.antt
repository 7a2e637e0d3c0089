-- ===== src/Singbox/Examples.antt =====
-- Tests of the sing-box core, and the theorems about it at concrete inputs.
use pasarguard_node.Prelude.{
  ℕ, String, ◌≡◌, refl, Bool, true, false, Option, none, some, List, [], ◌∷◌, ◌==◌, if◌then◌else◌,
  ◌%◌, ◌^◌, ◌+◌,
}
use pasarguard_node.Dict
use pasarguard_node.User.{User, no_proxy}
use pasarguard_node.Singbox.Config.{CredentialKind, ManagedInbound}
use pasarguard_node.Singbox.Slots.{SingBox, ClashUser, push_users, payload_for}
use pasarguard_node.Singbox.Slots.Stable.{
  Event, synced, replaced, merged, Holds, run, run-slots-Holds,
}
use pasarguard_node.Singbox.Slots.Payload.{entries_of, own_entries, entries-push_users}
use pasarguard_node.Singbox.Counters.{new_stats_client, amount}
use pasarguard_node.Singbox.Counters.Accounting
use pasarguard_node.Singbox.Counters.Accounting.{folded, taken, run-new_stats_client}

abbrev trim : String → String
trim s = if s == " alice" then "alice" else s

abbrev slot_secret : CredentialKind → ℕ → String
slot_secret kind index = "random"

abbrev inbounds : List ManagedInbound
inbounds = record { tag = "in"; kind = CredentialKind.trojan } ∷ []

abbrev alice : User
alice = record {
  email = "alice";
  proxies = some (record no_proxy { trojan = some (record { password = "pw" }) });
  inbounds = "in" ∷ [];
}

abbrev bob : User
bob = record alice { email = "bob" }

-- The user of " alice", after the inbound was taken away.
abbrev padded : User
padded = record alice { email = " alice"; inbounds = [] }

abbrev answer : String → List ClashUser → Option String
answer tag us = none

abbrev new_core : SingBox
new_core = record { inbounds = inbounds; users = Dict.empty; push_timer = false; slots = [] }

abbrev history : List Event
history =
    replaced (some alice ∷ some bob ∷ []) answer
    ∷ merged (some padded ∷ []) answer
    ∷ synced (some alice)
    ∷ []

abbrev two_users : SingBox
two_users = run trim slot_secret new_core (replaced (some alice ∷ some bob ∷ []) answer ∷ [])

run-slots-Holds_example : Holds two_users.slots (run trim slot_secret two_users history).slots
run-slots-Holds_example = run-slots-Holds trim slot_secret two_users history

entries-push_users_example :
    let s = (push_users trim slot_secret answer (run trim slot_secret new_core history)).0 in
    entries_of "alice" (payload_for trim slot_secret s CredentialKind.trojan)
    ≡ own_entries (Dict.get s.users "alice") CredentialKind.trojan "alice"
entries-push_users_example =
    entries-push_users trim slot_secret answer new_core history CredentialKind.trojan "alice"
      (record {}) refl refl

abbrev is_user : String → String → Bool
is_user name prefix = name == "user>>>alice>>>traffic>>>uplink"

abbrev uplink : String
uplink = "user>>>alice>>>traffic>>>uplink"

abbrev polls : List Accounting.Event
polls =
    folded (record { name = uplink; value = 5 } ∷ [])
    ∷ taken "user>>>" true
    ∷ folded (record { name = uplink; value = 3 } ∷ [])
    ∷ []

run-new_stats_client_example :
    (Accounting.billed_all is_user uplink new_stats_client polls
        + amount (Dict.get (Accounting.run is_user new_stats_client polls).pending uplink))
      % 2 ^ 64
    ≡ Accounting.grown_all uplink none polls % 2 ^ 64
run-new_stats_client_example = run-new_stats_client is_user polls uplink
