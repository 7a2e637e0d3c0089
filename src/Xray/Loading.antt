-- ===== src/Xray/Loading.antt =====
-- backend/xray/config.go and backend/xray/core.go: a configuration as it arrives, and the sockets that
-- it listens on. What JSON the text holds and TrimSpace are arguments.
use Prim.Native.Char.{code}
use text.Mathlib.Text.{starts_with}
use pasarguard_node.Prelude.{
  String, Bool, false, Option, List, [], ◌∷◌, ◌==◌, if◌then◌else◌, contains, nat_beq,
}
use pasarguard_node.Dict
use pasarguard_node.Dict.{IsNodup}
use pasarguard_node.Xray.Accounts.{map_option}
use pasarguard_node.Xray.Inbounds.{Inbound}

-- The loop of NewConfig: the inbounds of a parsed text have no clients.
unfoldable pub mark_excluded : List String → List Inbound → List Inbound
mark_excluded exclude [] = []
mark_excluded exclude (i ∷ is) =
    record i { exclude = contains i.tag exclude; clients = Dict.empty } ∷ mark_excluded exclude is

unfoldable pub new_config :
    (String → Option (List Inbound)) → String → List String → Option (List Inbound)
unfolding mark_excluded
new_config parse config exclude = map_option (mark_excluded exclude) (parse config)

-- The part before the first comma.
unfoldable pub before_comma : String → String
before_comma String.[] = ""
before_comma (String.◌∷◌ c s) =
    let rest = before_comma s in if nat_beq (code c) 44 then "" else String.◌∷◌ c rest

module _ (trim_space : String → String) where
  unfoldable pub socket_path : String → String
  unfolding before_comma
  socket_path listen = trim_space (before_comma (trim_space listen))

  unfoldable pub is_socket : String → Bool
  unfolding socket_path
  is_socket listen = if trim_space listen == "" then false else starts_with (socket_path listen) "/"

  -- The paths that were not seen before, in the order of the inbounds.
  unfoldable pub collect_paths : List Inbound → List String → List String
  unfolding is_socket
  collect_paths [] seen = []
  collect_paths (i ∷ is) seen =
      let path = socket_path i.listen in
      let rest = collect_paths is seen in
      let further = collect_paths is (path ∷ seen) in
      if is_socket i.listen then (if contains path seen then rest else path ∷ further) else rest

  unfoldable pub collect_unix_socket_paths : List Inbound → List String
  unfolding collect_paths
  collect_unix_socket_paths is = collect_paths is []
