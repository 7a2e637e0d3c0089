-- ===== src/WireGuard/Interface.antt =====
-- backend/wireguard/manager.go: how the interface is made and taken away. The calls of netlink,
-- and what they do to the host's network, are an argument.
pub mod Removal
use pasarguard_node.Prelude.{
  ℕ, String, Bool, true, false, Option, none, some, List, [], ◌∷◌, is_nil, is_some, if◌then◌else◌,
}
use pasarguard_node.WireGuard.Types.{WgTypes}
use pasarguard_node.WireGuard.Diff.{PeerConfig}
use pasarguard_node.WireGuard.Manager.{Kernel, Manager, WgConfig, configure}

-- What LinkByName answers: a link, LinkNotFoundError, or another error.
pub data Lookup {ℓ} (A : Type ℓ) : Type ℓ where
  found : A → Lookup A
  not_found : Lookup A
  lookup_failed : String → Lookup A

-- netlinkOps
pub record Netlink : Type 1 where
  pub Host : Type 0
  pub Addr : Type 0
  pub Link : Type 0
  pub parse_addr : String → Option Addr
  pub link_by_name : String → Host → Lookup Link
  pub link_add : String → Host → Host × Option String
  pub link_del : Link → Host → Host × Option String
  pub addr_add : Link → Addr → Host → Host × Option String
  pub link_set_up : Link → Host → Host × Option String

pub data InitError : Type 0 where
  client_closed no_link : InitError
  bad_address not_cleaned not_added not_configured address_refused not_up : String → InitError

-- The error, if there is one, as one of the caller's.
abbrev pub failing : (String → InitError) → Option String → Option InitError
failing wrap none = none
failing wrap (some e) = some (wrap e)

abbrev error_list : Option String → List String → List String
error_list none errs = errs
error_list (some e) errs = e ∷ errs

module _ {w : WgTypes} where
  unfoldable pub build_initial_wg_config : w.Key → ℕ → List (PeerConfig w) → WgConfig w
  build_initial_wg_config private_key listen_port peers = record {
    private_key = some private_key;
    listen_port = some listen_port;
    peers = peers;
    replace_peers = if is_nil peers then false else true;
  }

module _ (nl : Netlink) (name : String) where
  open nl use {
    Host, Addr, Link, parse_addr, link_by_name, link_add, link_del, addr_add, link_set_up,
  }

  delete_found : Lookup Link → Host → Host × Option String
  delete_found (found link) h = link_del link h
  delete_found not_found h = (h, none)
  delete_found (lookup_failed e) h = (h, some e)

  unfoldable pub cleanup_existing_interface : Host → Host × Option String
  unfolding delete_found
  cleanup_existing_interface h = delete_found (link_by_name name h) h

  -- The addresses, and the first text that is none.
  unfoldable pub parse_addrs : List String → List Addr × Option String
  parse_addrs [] = ([], none)
  parse_addrs (ip ∷ ips) =
      let (rest, bad) = parse_addrs ips in
      elim (parse_addr ip) [ none ↦ ([], some ip) | some a ↦ (a ∷ rest, bad) ]

  unfoldable pub add_addrs : Link → List Addr → Host → Host × Option String
  add_addrs link [] h = (h, none)
  add_addrs link (a ∷ more) h =
      let (h', answer) = addr_add link a h in
      let rest = add_addrs link more h' in elim answer [ none ↦ rest | some e ↦ (h', some e) ]

  set_up : Link → Host × Option String → Host × Option InitError
  set_up link (h, some e) = (h, some (address_refused e))
  set_up link (h, none) = let (h', answer) = link_set_up link h in (h', failing not_up answer)

  -- What follows on the configuration of the device.
  unfoldable pub bring_up : Lookup Link → List Addr → Host → Host × Option InitError
  unfolding add_addrs set_up
  bring_up (found link) addrs h = set_up link (add_addrs link addrs h)
  bring_up not_found addrs h = (h, some no_link)
  bring_up (lookup_failed e) addrs h = (h, some no_link)

  -- The deferred call: an error takes the interface away again.
  unfoldable pub clean_up_on_error : Host × Option InitError → Host × Option InitError
  unfolding cleanup_existing_interface
  clean_up_on_error (h, none) = (h, none)
  clean_up_on_error (h, some e) = ((cleanup_existing_interface h).0, some e)

  module _ {w : WgTypes} {k : Kernel w} where
    configured : List Addr → Manager k × Option String → Host → Manager k × Host × Option InitError
    unfolding clean_up_on_error bring_up
    configured addrs (m, some e) h =
        let (h', err) = clean_up_on_error (h, some (not_configured e)) in (m, h', err)
    configured addrs (m, none) h =
        let (h', err) = clean_up_on_error (bring_up (link_by_name name h) addrs h) in (m, h', err)

    added :
        WgConfig w
        → List Addr
        → Manager k
        → Host × Option String
        → Manager k × Host × Option InitError
    unfolding configured configure
    added config addrs m (h, some e) = (m, h, some (not_added e))
    added config addrs m (h, none) = configured addrs (configure config m.client) h

    cleaned :
        WgConfig w
        → List Addr
        → Manager k
        → Host × Option String
        → Manager k × Host × Option InitError
    unfolding added
    cleaned config addrs m (h, some e) = (m, h, some (not_cleaned e))
    cleaned config addrs m (h, none) = added config addrs m (link_add name h)

    parsed :
        WgConfig w
        → List Addr × Option String
        → Manager k
        → Host
        → Manager k × Host × Option InitError
    unfolding cleaned
    parsed config (addrs, some ip) m h = (m, h, some (bad_address ip))
    parsed config (addrs, none) m h = cleaned config addrs m (cleanup_existing_interface h)

    unfoldable pub initialize_with_peers :
        w.Key
        → ℕ
        → List String
        → List (PeerConfig w)
        → Manager k
        → Host
        → Manager k × Host × Option InitError
    unfolding parsed parse_addrs build_initial_wg_config
    initialize_with_peers key port server_ips peers m h = elim m.client [
      | none ↦ (m, h, some client_closed)
      | some _ ↦ parsed (build_initial_wg_config key port peers) (parse_addrs server_ips) m h
    ]

    -- Close, given what the client's own Close answers.
    unfoldable pub close : Option String → Manager k → Host → Manager k × Host × List String
    close client_answer m h =
        let (h', answer) = cleanup_existing_interface h in
        (
          record { client = none },
          h',
          error_list (if is_some m.client then client_answer else none) (error_list answer []),
        )
