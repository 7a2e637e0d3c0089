-- ===== src/Openvpn/UserStore/Sessions.antt =====
-- backend/openvpn/users.go: whose sessions are live.
use pasarguard_node.Prelude.{
  String, ◌≡◌, refl, Bool, true, false, not, ◌&&◌, Option, none, some, List, [], ◌∷◌, arith, eq_iff,
  eq_refl, inl, inr, Option-cases, List-cases, if◌then◌else◌, contains, is_some, false,
}
use pasarguard_node.Dict
use pasarguard_node.Dict.{Dict, get-put, get-remove, get-empty, contains-keys}
use pasarguard_node.User.{User, get_openvpn}
use pasarguard_node.Openvpn.UserStore.{
  UserStore, UserEntry, Sessions, new_user_store, authorize, try_connect, session_set,
  release_session, is_empty_set, entry_of, apply_user, collect_users, drop_missing, replace_all,
}

-- A name stands for a set of sessions that is empty.
abbrev is_empty_at : Option (Dict (Unit {0})) → Bool
is_empty_at none = false
is_empty_at (some set) = is_empty_set set

-- Sessions are live only for users of the allowlist, and no name stands for an empty set of them.
pub record IsConsistent (s : UserStore) : Type 0 where
  pub known :
      (cn : String) → is_some (Dict.get s.sessions cn) ≡ true → is_some (Dict.get s.users cn) ≡ true
  pub live : (cn : String) → is_empty_at (Dict.get s.sessions cn) ≡ false

put_not_empty : (set : Dict (Unit {0})) (id : String) → is_empty_set (Dict.put set id tt) ≡ false
unfolding is_empty_set
put_not_empty set id = elim (List-cases (Dict.keys (Dict.put set id tt))) [
  | inl e ↦ cc (get-put set id id tt, eq_refl id, rw e at (contains-keys (Dict.put set id tt) id))
  | inr (x, xs, e) ↦ rw e
]

module _ (s : UserStore) (h : IsConsistent s) where
  try_connect-IsConsistent : (cn serial id : String) → IsConsistent (try_connect s cn serial id).0
  unfolding try_connect authorize
  try_connect-IsConsistent cn serial id =
      let set = Dict.put (session_set (Dict.get s.sessions cn)) id tt in
      record {
        known = λ k. ground (arith, h.known k, get-put s.sessions cn k set, eq_iff cn k);
        live = λ k. ground (
          arith,
          h.live k,
          get-put s.sessions cn k set,
          put_not_empty (session_set (Dict.get s.sessions cn)) id,
        );
      }

  release_session-IsConsistent : (cn id : String) → IsConsistent (release_session s cn id)
  unfolding release_session
  release_session-IsConsistent cn id = elim (Option-cases (Dict.get s.sessions cn)) [
    | inl e ↦ rw (e, release_session) h
    | inr (set, e) ↦
        rw (e, release_session)
          (record {
            known = λ k. ground (
              arith,
              e,
              h.known k,
              get-put s.sessions cn k (Dict.remove set id),
              get-remove s.sessions cn k,
              eq_iff cn k,
            );
            live = λ k. ground (
              arith,
              h.live k,
              get-put s.sessions cn k (Dict.remove set id),
              get-remove s.sessions cn k,
            );
          })
  ]

  apply_user-IsConsistent : (u : User) → IsConsistent (apply_user s u).0
  unfolding apply_user
  apply_user-IsConsistent u = record {
    known = λ k. ground (
      arith,
      h.known k,
      get-remove s.sessions u.email k,
      get-remove s.users u.email k,
      get-put s.users u.email k (entry_of (get_openvpn u)),
    );
    live = λ k. ground (arith, h.live k, get-remove s.sessions u.email k);
  }

get-drop_missing :
    (next : Dict UserEntry) (names : List String) (sessions : Sessions) (k : String)
    → Dict.get (drop_missing next names sessions).0 k
      ≡ (if contains k names && not (is_some (Dict.get next k)) then none else Dict.get sessions k)
unfolding drop_missing
get-drop_missing next [] sessions k = refl
get-drop_missing next (cn ∷ names) sessions k = ground (
  arith,
  get-drop_missing next names
      (if is_some (Dict.get next cn) then sessions else Dict.remove sessions cn) k,
  get-remove sessions cn k,
  eq_iff cn k,
)

pub contains-drop_missing :
    (next : Dict UserEntry) (names : List String) (sessions : Sessions) (k : String)
    → contains k (drop_missing next names sessions).1
      ≡ (contains k names && not (is_some (Dict.get next k)))
unfolding drop_missing
contains-drop_missing next [] sessions k = refl
contains-drop_missing next (cn ∷ names) sessions k = ground (
  arith,
  contains-drop_missing next names
      (if is_some (Dict.get next cn) then sessions else Dict.remove sessions cn) k,
  eq_iff cn k,
)

replace_all-IsConsistent :
    (s : UserStore) (us : List User) → IsConsistent s → IsConsistent (replace_all s us).0
unfolding replace_all
replace_all-IsConsistent s us h =
    let next = collect_users s us Dict.empty in
    record {
      known = λ k. ground (
        arith,
        h.known k,
        get-drop_missing next (Dict.keys s.users) s.sessions k,
        contains-keys s.users k,
      );
      live = λ k. ground (arith, h.live k, get-drop_missing next (Dict.keys s.users) s.sessions k);
    }

-- A call that may change the store.
pub data Call : Type 0 where
  connect : String → String → String → Call
  release : String → String → Call
  apply : User → Call
  replace : List User → Call

pub step : UserStore → Call → UserStore
step s (connect cn serial id) = (try_connect s cn serial id).0
step s (release cn id) = release_session s cn id
step s (apply u) = (apply_user s u).0
step s (replace us) = (replace_all s us).0

pub run : UserStore → List Call → UserStore
run s [] = s
run s (c ∷ cs) = run (step s c) cs

step-IsConsistent : (s : UserStore) (c : Call) → IsConsistent s → IsConsistent (step s c)
unfolding step
step-IsConsistent s (connect cn serial id) h = try_connect-IsConsistent s h cn serial id
step-IsConsistent s (release cn id) h = release_session-IsConsistent s h cn id
step-IsConsistent s (apply u) h = apply_user-IsConsistent s h u
step-IsConsistent s (replace us) h = replace_all-IsConsistent s us h

run-IsConsistent : (s : UserStore) (cs : List Call) → IsConsistent s → IsConsistent (run s cs)
unfolding run
run-IsConsistent s [] h = h
run-IsConsistent s (c ∷ cs) h = run-IsConsistent (step s c) cs (step-IsConsistent s c h)

-- After any history of connections, disconnections and user updates, live sessions are counted only
-- for users of the allowlist, and no user stands for an empty set of sessions.
pub run-new-IsConsistent :
    (tag : String) (cs : List Call) → IsConsistent (run (new_user_store tag) cs)
unfolding new_user_store
run-new-IsConsistent tag cs = run-IsConsistent _ cs (record {
  known = λ k. ground (arith, get-empty {V = Dict (Unit {0})} k);
  live = λ k. ground (arith, get-empty {V = Dict (Unit {0})} k);
})
