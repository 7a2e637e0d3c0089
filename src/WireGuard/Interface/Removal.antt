-- ===== src/WireGuard/Interface/Removal.antt =====
-- backend/wireguard/manager.go: whether an interface that could not be set up stays.
use pasarguard_node.Prelude.{
  ℕ, String, ◌≡◌, ◌⊎◌, refl, Bool, true, false, Option, none, some, List, inl, inr, Option-cases,
}
use pasarguard_node.WireGuard.Types.{WgTypes}
use pasarguard_node.WireGuard.Diff.{PeerConfig}
use pasarguard_node.WireGuard.Manager.{Kernel, Manager, WgConfig, configure}
use pasarguard_node.WireGuard.Interface.{
  Lookup, found, not_found, lookup_failed, Netlink, InitError, client_closed, bad_address,
  not_configured, delete_found, cleanup_existing_interface, clean_up_on_error, bring_up, configured,
  added, cleaned, parsed, parse_addrs, build_initial_wg_config, initialize_with_peers, close,
}

-- What netlink is relied on for: a link that was deleted is not found any more, and a link that could
-- not be added is not there.
pub record IsLawful (nl : Netlink) (name : String) : Type 0 where
  pub deleted :
      (link : nl.Link) (h : nl.Host)
      → nl.link_by_name name h ≡ found link
      → (nl.link_del link h).1 ≡ none
      → nl.link_by_name name (nl.link_del link h).0 ≡ not_found
  pub refused :
      (h : nl.Host) (e : String)
      → nl.link_by_name name h ≡ not_found
      → (nl.link_add name h).1 ≡ some e
      → nl.link_by_name name (nl.link_add name h).0 ≡ not_found

Lookup-cases {ℓ} :
    {A : Type ℓ} (l : Lookup A)
    → ((a : A) × (l ≡ found a)) ⊎ (l ≡ not_found) ⊎ ((e : String) × (l ≡ lookup_failed e))
Lookup-cases (found a) = inl (a, refl)
Lookup-cases not_found = inr (inl refl)
Lookup-cases (lookup_failed e) = inr (inr (e, refl))

-- The error is found before anything is done.
abbrev pub is_early : InitError → Bool
is_early client_closed = true
is_early (bad_address ip) = true
is_early _ = false

-- Netlink can always tell whether the link is there, and can always delete it.
pub record IsRemovable (nl : Netlink) (name : String) : Type 0 where
  pub looked_up : (h : nl.Host) (e : String) → ¬ (nl.link_by_name name h ≡ lookup_failed e)
  pub deletable :
      (link : nl.Link) (h : nl.Host)
      → nl.link_by_name name h ≡ found link
      → (nl.link_del link h).1 ≡ none

module _ (nl : Netlink) (name : String) (lawful : IsLawful nl name) where
  -- A clean-up that reports no error leaves no interface.
  cleaned_up :
      (h : nl.Host)
      → (cleanup_existing_interface nl name h).1 ≡ none
      → nl.link_by_name name (cleanup_existing_interface nl name h).0 ≡ not_found
  unfolding cleanup_existing_interface delete_found
  cleaned_up h fine = elim (Lookup-cases (nl.link_by_name name h)) [
    | inl (link, there) ↦
        rw (there, delete_found) (lawful.deleted link h there (rw (there, delete_found) at fine))
    | inr (inl gone) ↦ rw (gone, delete_found) gone
    | inr (inr (e, failed)) ↦ cc (rw (failed, delete_found) at fine)
  ]

  module _ (removable : IsRemovable nl name) where
    cleanup_succeeds : (h : nl.Host) → (cleanup_existing_interface nl name h).1 ≡ none
    unfolding cleanup_existing_interface delete_found
    cleanup_succeeds h = elim (Lookup-cases (nl.link_by_name name h)) [
      | inl (link, there) ↦ rw (there, delete_found) (removable.deletable link h there)
      | inr (inl gone) ↦ rw (gone, delete_found) refl
      | inr (inr (e, failed)) ↦ absurd (removable.looked_up h e failed)
    ]

    undone :
        (h : nl.Host) (e : Option InitError) (d : InitError)
        → (clean_up_on_error nl name (h, e)).1 ≡ some d
        → nl.link_by_name name (clean_up_on_error nl name (h, e)).0 ≡ not_found
    unfolding clean_up_on_error
    undone h none d f = cc
    undone h (some e) d f = cleaned_up h (cleanup_succeeds h)

    module _ {w : WgTypes} {k : Kernel w} where
      configured-removed :
          (addrs : List nl.Addr) (r : Manager k × Option String) (h : nl.Host) (d : InitError)
          → (configured nl name addrs r h).2 ≡ some d
          → nl.link_by_name name (configured nl name addrs r h).1 ≡ not_found
      unfolding configured
      configured-removed addrs (m, some e) h d f = undone h (some (not_configured e)) d f
      configured-removed addrs (m, none) h d f =
          let up = bring_up nl name (nl.link_by_name name h) addrs h in undone up.0 up.1 d f

      added-removed :
          (config : WgConfig w) (addrs : List nl.Addr) (m : Manager k) (h : nl.Host) (d : InitError)
          → nl.link_by_name name h ≡ not_found
          → (added nl name config addrs m (nl.link_add name h)).2 ≡ some d
          → nl.link_by_name name (added nl name config addrs m (nl.link_add name h)).1 ≡ not_found
      unfolding added
      added-removed config addrs m h d gone f = elim (Option-cases (nl.link_add name h).1) [
        | inr (e, refused) ↦ rw (refused, added) (lawful.refused h e gone refused)
        | inl fine ↦
            rw (fine, added)
              (configured-removed addrs (configure config m.client) (nl.link_add name h).0 d
                (rw (fine, added) at f))
      ]

      cleaned-removed :
          (config : WgConfig w) (addrs : List nl.Addr) (m : Manager k) (h : nl.Host) (d : InitError)
          → let r = cleaned nl name config addrs m (cleanup_existing_interface nl name h) in
            r.2 ≡ some d → nl.link_by_name name r.1 ≡ not_found
      unfolding cleaned
      cleaned-removed config addrs m h d f =
          let fine = cleanup_succeeds h in
          rw (fine, cleaned)
            (added-removed config addrs m (cleanup_existing_interface nl name h).0 d
              (cleaned_up h fine) (rw (fine, cleaned) at f))

      parsed-removed :
          (config : WgConfig w) (p : List nl.Addr × Option String) (m : Manager k) (h : nl.Host)
          (d : InitError)
          → let r = parsed nl name config p m h in
            r.2 ≡ some d
            → ((is_early d ≡ true) × (r.1 ≡ h)) ⊎ (nl.link_by_name name r.1 ≡ not_found)
      unfolding parsed
      parsed-removed config (addrs, some ip) m h d f = inl (cc, refl)
      parsed-removed config (addrs, none) m h d f = inr (cleaned-removed config addrs m h d f)

      -- An InitializeWithPeers that fails leaves no interface behind, or it failed for a closed client
      -- or an address that is none, and has touched nothing. Netlink can tell whether the link is
      -- there and can delete it, a link that was deleted is not found, and a link that netlink refused
      -- to add is not there.
      pub initialize_with_peers-removed :
          (key : w.Key) (port : ℕ) (server_ips : List String) (peers : List (PeerConfig w))
          (m : Manager k) (h : nl.Host) (d : InitError)
          → let r = initialize_with_peers nl name key port server_ips peers m h in
            r.2 ≡ some d
            → ((is_early d ≡ true) × (r.1 ≡ h)) ⊎ (nl.link_by_name name r.1 ≡ not_found)
      unfolding initialize_with_peers
      initialize_with_peers-removed key port server_ips peers m h d f =
          elim (Option-cases m.client) [
            | inl gone ↦ rw (gone, initialize_with_peers) (inl (cc, refl))
            | inr (c, here) ↦
                rw (here, initialize_with_peers)
                  (parsed-removed (build_initial_wg_config key port peers)
                    (parse_addrs nl name server_ips) m h d (rw (here, initialize_with_peers) at f))
          ]

      -- Close leaves no interface and no client.
      close-removed :
          (answer : Option String) (m : Manager k) (h : nl.Host)
          → let r = close nl name answer m h in
            (r.0.client ≡ none) × (nl.link_by_name name r.1 ≡ not_found)
      unfolding close
      close-removed answer m h = (refl, cleaned_up h (cleanup_succeeds h))
