-- ===== src/Controller/Examples.antt =====
-- Tests of the controller, and the theorems about it at concrete inputs.
use pasarguard_node.Prelude.{
  ℕ, suc, ◌≡◌, String, true, false, none, some, [], ◌∷◌, ◌++◌, arith, ◌⊎◌, inl, inr, if◌then◌else◌,
  nat_beq,
}
use pasarguard_node.Controller.UsersChunk.{Chunks, build_users_from_chunks, missing_final, err}
use pasarguard_node.Controller.UsersChunk.Order.{prefix, answer_for, build_users_from_chunks_lem}
use pasarguard_node.Controller.Cores.{
  BackendType, BackendConfig, Texts, BackendKey, Controller, key_of, same_key, core_at, cores_of,
  retired, is_known, start_backend,
}
use pasarguard_node.Controller.Cores.Retire.{failed, launched, start_backend_lem}
use pasarguard_node.User.{User}

abbrev alice : User
alice = record { email = "alice"; proxies = none; inbounds = [] }

-- Two pieces, and none after them.
abbrev two_chunks : Chunks
two_chunks i =
    if nat_beq i 0
    then some (alice ∷ [])
    else if nat_beq i 1
    then some (record alice { email = "bob" } ∷ [])
    else none

build_users_from_chunks_lem_example :
    (build_users_from_chunks 9 two_chunks 2 true ≡ answer_for (prefix two_chunks (suc 2)))
    × (build_users_from_chunks 9 two_chunks 2 false ≡ err missing_final)
build_users_from_chunks_lem_example =
    build_users_from_chunks_lem 9 2 two_chunks (omega arith) (omega arith)

abbrev texts : Texts
texts = record {
  string_field = λ text field. some text;
  inbounds = λ text. none;
  trim_space = λ text. text;
}

abbrev wg1 : BackendConfig
wg1 = record { kind = BackendType.wireguard; config = "wg1"; additive = true }

abbrev launch : BackendConfig → ℕ ⊎ String
launch cfg = inl 7

abbrev node : Controller ℕ
node = record {
  backends = (key_of texts wg1, 1) ∷ (key_of texts (record wg1 { config = "wg2" }), 2) ∷ [];
  client_ip = "192.0.2.1";
  last_request = 0;
  api_port = 1;
  metric_port = 2;
  shut_down = [];
}

start_backend_lem_example :
    let new = if is_known wg1.kind then launch wg1 else inr "invalid backend type" in
    let r = start_backend texts launch wg1 node in
    (r.1 ≡ failed new)
    × (r.0.shut_down ≡ (
        node.shut_down
        ++ (if wg1.additive
            then retired (core_at (key_of texts wg1) node.backends)
            else cores_of node.backends)))
    × ((j : BackendKey)
        → core_at j r.0.backends ≡ (
            if same_key j (key_of texts wg1)
            then launched new
            else if wg1.additive
            then core_at j node.backends
            else none))
start_backend_lem_example = start_backend_lem texts launch wg1 node
