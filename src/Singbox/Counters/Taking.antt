-- ===== src/Singbox/Counters/Taking.antt =====
-- backend/singbox/stats.go: what take hands out and what it leaves.
use pasarguard_node.Prelude.{
  String, ◌≡◌, refl, Bool, true, false, ◌&&◌, Option, none, some, List, [], ◌∷◌, arith, ◌==◌,
  eq_iff, if◌then◌else◌, contains, is_some,
}
use pasarguard_node.Int64.{Int64}
use pasarguard_node.Dict
use pasarguard_node.Dict.{
  Dict, get-put, get-remove, get-empty, contains-keys, keys-IsNodup, IsNodup,
}
use pasarguard_node.Singbox.Counters.{StatsClient, matches, take_name, take_each, take}

module _ (has_prefix : String → String → Bool) where
  take_name_lem :
      (matched consume : Bool) (name e : String) (v : Option Int64) (out pending : Dict Int64)
      → let r = take_name has_prefix matched consume name v (out, pending) in
        (Dict.get r.0 e ≡ (if matched && name == e && is_some v then v else Dict.get out e))
        × (Dict.get r.1 e
            ≡ (if matched && consume && name == e && is_some v then none else Dict.get pending e))
  unfolding take_name
  take_name_lem false consume name e v out pending = (refl, refl)
  take_name_lem true consume name e none out pending = (ground arith, ground arith)
  take_name_lem true consume name e (some v) out pending =
      (ground (arith, get-put out name e v), ground (arith, get-remove pending name e))

  take_each_lem :
      (prefix : String) (consume : Bool) (names : List String) (out pending : Dict Int64)
      (e : String)
      → IsNodup names
      → let r = take_each has_prefix prefix consume names (out, pending) in
        (Dict.get r.0 e ≡ (
          if contains e names && matches has_prefix prefix e && is_some (Dict.get pending e)
          then Dict.get pending e
          else Dict.get out e))
        × (Dict.get r.1 e ≡ (
            if contains e names && matches has_prefix prefix e && consume
            then none
            else Dict.get pending e))
  unfolding take_each
  take_each_lem prefix consume [] out pending e h = (refl, refl)
  take_each_lem prefix consume (name ∷ names) out pending e (fresh, h) =
      let r =
        take_name has_prefix (matches has_prefix prefix name) consume name (Dict.get pending name)
          (out, pending) in
      let (a, b) =
        take_name_lem (matches has_prefix prefix name) consume name e (Dict.get pending name) out
          pending in
      let (c, d) = take_each_lem prefix consume names r.0 r.1 e h in
      (ground (arith, a, b, c, fresh, eq_iff name e), ground (arith, a, b, d, fresh, eq_iff name e))

  -- take returns of each name what is pending for it if the name matches the prefix, and nothing
  -- else; a name keeps what is pending unless it matches and the caller consumes.
  pub take_lem :
      (prefix : String) (consume : Bool) (s : StatsClient) (e : String)
      → let r = take has_prefix prefix consume s in
        (Dict.get r.0 e ≡ (if matches has_prefix prefix e then Dict.get s.pending e else none))
        × (Dict.get r.1.pending e
            ≡ (if matches has_prefix prefix e && consume then none else Dict.get s.pending e))
        × (r.1.baseline ≡ s.baseline)
  unfolding take
  take_lem prefix consume s e =
      let (a, b) =
        take_each_lem prefix consume (Dict.keys s.pending) Dict.empty s.pending e
          (keys-IsNodup s.pending) in
      (
        ground (arith, a, contains-keys s.pending e, get-empty {V = Int64} e),
        ground (arith, b, contains-keys s.pending e),
        refl,
      )
