-- ===== src/Xray/Users.antt =====
-- backend/xray/user.go and backend/xray/config.go: what the core does when the panel sends users. The
-- calls of Xray's handler are kept, the newest first; what it answers is an argument. The order in
-- which UpdateUsers visits the inbounds, which Go leaves open, is theirs in the configuration.
use pasarguard_node.Prelude.{
  String, Bool, false, ◌&&◌, ◌||◌, not, Option, none, some, List, [], ◌∷◌, ◌==◌, if◌then◌else◌,
  contains,
}
use pasarguard_node.User.{User}
use pasarguard_node.Xray.Accounts.{Account, get_email, setup_user_account}
use pasarguard_node.Xray.Inbounds.{
  Codecs, Inbound, account_for_api, is_active_inbound, update_account, update_accounts,
  remove_account, sync_clients,
}

-- The calls of the handler: RemoveInboundUser, whose error is not looked at, and AddInboundUser,
-- which the core takes or refuses.
pub data Call : Type 0 where
  removed : String → String → Call
  added : String → Account → Call
  refused : String → Account → Call

-- An inbound after its turn, the calls so far, and the errors of AddInboundUser.
pub record Turn : Type 0 where
  pub inbound : Inbound
  pub calls : List Call
  pub errors : List String

pub record Outcome : Type 0 where
  pub inbounds : List Inbound
  pub calls : List Call
  pub errors : List String

-- The answer of AddInboundUser after the calls that were made before.
abbrev pub Answers : Type 0
Answers = List Call → String → Account → Option String

pub record Added : Type 0 where
  pub calls : List Call
  pub errors : List String

abbrev pub note_answer : String → Account → Option String → List Call → List String → Added
note_answer tag account none calls errors = record {
  calls = added tag account ∷ calls;
  errors = errors;
}
note_answer tag account (some e) calls errors = record {
  calls = refused tag account ∷ calls;
  errors = e ∷ errors;
}

unfoldable pub add_inbound_user : Answers → String → Account → List Call → List String → Added
add_inbound_user answers tag account calls errors =
    note_answer tag account (answers calls tag account) calls errors

-- The accounts that an update has for an inbound, and the set of the emails that it removes.
pub record InboundUpdate : Type 0 where
  pub accounts : List Account
  pub remove_emails : List String

unfoldable pub add_once : String → List String → List String
add_once email emails = if contains email emails then emails else email ∷ emails

unfoldable pub note_account : String → Option Account → InboundUpdate → InboundUpdate
unfolding add_once
note_account email none rest = record rest { remove_emails = add_once email rest.remove_emails }
note_account email (some account) rest = record rest { accounts = account ∷ rest.accounts }

-- A later inbound with the tag takes its place in inboundByTag.
unfoldable pub is_overwritten : String → List Inbound → Bool
is_overwritten tag [] = false
is_overwritten tag (i ∷ is) = not i.exclude && (i.tag == tag) || is_overwritten tag is

unfoldable pub remove_calls : String → List String → List Call → List Call
remove_calls tag [] calls = calls
remove_calls tag (email ∷ emails) calls = remove_calls tag emails (removed tag email ∷ calls)

unfoldable pub skip_turn : Inbound → List Call → List String → Turn
skip_turn i calls errors = record { inbound = i; calls = calls; errors = errors }

-- The loop over the inbounds: some are passed over, the others have their turn.
unfoldable pub visit :
    (Inbound → List Inbound → Bool)
    → (Inbound → List Call → List String → Turn)
    → List Inbound
    → List Call
    → List String
    → Outcome
unfolding skip_turn
visit skip turn_of [] calls errors = record { inbounds = []; calls = calls; errors = errors }
visit skip turn_of (i ∷ is) calls errors =
    let turn = if skip i is then skip_turn i calls errors else turn_of i calls errors in
    let rest = visit skip turn_of is turn.calls turn.errors in
    record { inbounds = turn.inbound ∷ rest.inbounds; calls = rest.calls; errors = rest.errors }

module _ (lib : Codecs) where
  unfoldable pub build_inbound_update : Inbound → List User → InboundUpdate
  unfolding note_account
  build_inbound_update i [] = record { accounts = []; remove_emails = [] }
  build_inbound_update i (u ∷ us) =
      note_account u.email
        (is_active_inbound lib i u.inbounds (setup_user_account lib.parse_uuid u))
        (build_inbound_update i us)

  -- Config.syncUsers
  unfoldable pub sync_inbounds : List User → List Inbound → List Inbound
  sync_inbounds us [] = []
  sync_inbounds us (i ∷ is) = (if i.exclude then i else sync_clients lib us i) ∷ sync_inbounds us is

  unfoldable pub update_inbound : List User → Inbound → Inbound
  unfolding build_inbound_update
  update_inbound us i =
      update_accounts lib (build_inbound_update i us).accounts
        (build_inbound_update i us).remove_emails i

  -- Config.updateUsers
  unfoldable pub update_inbounds : List User → List Inbound → List Inbound
  unfolding update_inbound is_overwritten
  update_inbounds us [] = []
  update_inbounds us (i ∷ is) =
      (if i.exclude || is_overwritten i.tag is then i else update_inbound us i)
      ∷ update_inbounds us is

  module _ (answers : Answers) where
    unfoldable pub add_calls : Inbound → List Account → List Call → List String → Added
    unfolding add_inbound_user
    add_calls i [] calls errors = record { calls = calls; errors = errors }
    add_calls i (a ∷ rest) calls errors =
        let next =
          add_inbound_user answers i.tag (account_for_api i a) (removed i.tag (get_email a) ∷ calls)
            errors in
        add_calls i rest next.calls next.errors

    -- The body of the loop of UpdateUsers.
    unfoldable pub update_turn : List User → Inbound → List Call → List String → Turn
    unfolding update_inbound build_inbound_update add_calls remove_calls
    update_turn us i calls errors =
        let update = build_inbound_update i us in
        let next =
          add_calls i update.accounts (remove_calls i.tag update.remove_emails calls) errors in
        record { inbound = update_inbound us i; calls = next.calls; errors = next.errors }

    -- UpdateUsers, which fails if there are errors.
    unfoldable pub update_users : List User → List Inbound → List Call → List String → Outcome
    unfolding visit update_turn is_overwritten
    update_users us is calls errors =
        visit (λ i later. i.exclude || is_overwritten i.tag later) (update_turn us) is calls errors

    unfoldable pub sync_account_turn :
        User → Inbound → Option Account → List Call → List String → Turn
    unfolding add_inbound_user
    sync_account_turn u i none calls errors = record {
      inbound = remove_account u.email i;
      calls = calls;
      errors = errors;
    }
    sync_account_turn u i (some account) calls errors =
        let next = add_inbound_user answers i.tag (account_for_api i account) calls errors in
        record { inbound = update_account lib account i; calls = next.calls; errors = next.errors }

    -- The body of the loop of SyncUser.
    unfoldable pub sync_turn : User → Inbound → List Call → List String → Turn
    unfolding sync_account_turn
    sync_turn u i calls errors =
        sync_account_turn u i
          (is_active_inbound lib i u.inbounds (setup_user_account lib.parse_uuid u))
          (removed i.tag u.email ∷ calls) errors

    -- SyncUser, which fails if there are errors.
    unfoldable pub sync_user : User → List Inbound → List Call → List String → Outcome
    unfolding visit sync_turn
    sync_user u is calls errors = visit (λ i later. i.exclude) (sync_turn u) is calls errors
