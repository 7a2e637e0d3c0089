-- ===== src/Openvpn/Config/Valid.antt =====
-- backend/openvpn/config.go: the listeners of a configuration that NewConfig accepts.
use pasarguard_node.Prelude.{
  ◌%◌, ◌^◌, ◌<◌, ◌≤◌, String, ◌≡◌, refl, subst, sym, ◌∙◌, false, ◌||◌, Option, List, [], ◌∷◌, arith,
  nat_beq, ap, eq_comm, ◌==◌, if◌then◌else◌, is_nil, Bool-cases, Option-cases, inl, inr, ◌⊎◌,
}
use pasarguard_node.Int64.{Int64}
use pasarguard_node.Openvpn.Config.{
  Listener, Config, Error, Result, ok, err, out_of_range, known_proto, same_endpoint, is_seen,
  with_defaults, with_first, or_default, normalize_listener, normalize_each, normalize_listeners,
  check_config, new_config,
}

abbrev pub IsPort : Int64 → Type 0
IsPort p = (0 < p % 2 ^ 64) × (p % 2 ^ 64 ≤ 65535)

-- Ports from 1 to 65535, and no endpoint twice.
abbrev pub AreEndpoints : List Listener → Type 0
AreEndpoints [] = Unit
AreEndpoints (l ∷ ls) = IsPort l.port × (is_seen l ls ≡ false) × AreEndpoints ls

-- The first listener is there, and it is the configuration's endpoint.
abbrev pub IsFirst : Int64 → String → List Listener → Type 0
IsFirst port proto [] = ⊥
IsFirst port proto (l ∷ ls) = (l.port ≡ port) × (l.proto ≡ proto)

Result-cases {ℓ} :
    {A : Type ℓ} (r : Result A) → ((a : A) × (r ≡ ok a)) ⊎ ((e : Error) × (r ≡ err e))
Result-cases (ok a) = inl (a, refl)
Result-cases (err e) = inr (e, refl)

ok-injective {ℓ} : {A : Type ℓ} {a b : A} → ok a ≡ ok b → a ≡ b
ok-injective h = cc

in_range : (p : Int64) → out_of_range p ≡ false → IsPort p
unfolding out_of_range
in_range p h = (ground (arith, h), ground (arith, h))

-- The listeners that come out of the loop are endpoints, and none of them was seen.
abbrev NoneSeen : List Listener → List Listener → Type 0
NoneSeen seen [] = Unit
NoneSeen seen (l ∷ ls) = (is_seen l seen ≡ false) × NoneSeen seen ls

same_endpoint_comm : (a b : Listener) → same_endpoint a b ≡ same_endpoint b a
unfolding same_endpoint
same_endpoint_comm a b = ground (arith, eq_comm a.proto b.proto)

first_unseen :
    (l : Listener) (seen rest : List Listener) → NoneSeen (l ∷ seen) rest → is_seen l rest ≡ false
unfolding is_seen
first_unseen l seen [] h = refl
first_unseen l seen (r ∷ rest) (here, h) =
    ground (arith, here, same_endpoint_comm l r, first_unseen l seen rest h)

others_unseen :
    (l : Listener) (seen rest : List Listener) → NoneSeen (l ∷ seen) rest → NoneSeen seen rest
unfolding is_seen
others_unseen l seen [] h = tt
others_unseen l seen (r ∷ rest) (here, h) = (ground (arith, here), others_unseen l seen rest h)

with_first_valid :
    (c : Config) (ls : List Listener)
    → is_nil ls ≡ false
    → AreEndpoints ls
    → AreEndpoints (with_first c ls).listeners
      × IsFirst (with_first c ls).port (with_first c ls).proto (with_first c ls).listeners
unfolding with_first
with_first_valid c [] h ends = cc
with_first_valid c (l ∷ ls) h ends = (ends, (refl, refl))

module _ (trim_space to_lower : String → String) where
  normalize_listener-IsPort :
      (c : Config) (l l' : Listener)
      → normalize_listener trim_space to_lower c l ≡ ok l'
      → IsPort l'.port
  unfolding normalize_listener
  normalize_listener-IsPort c l l' h =
      let port = if nat_beq l.port 0 then c.port else l.port in
      let proto = or_default (to_lower (trim_space l.proto)) c.proto in
      elim (Bool-cases (out_of_range port)) [
        | inl bad ↦ cc (rw (bad, normalize_listener) at h)
        | inr good ↦ elim (Bool-cases (known_proto proto)) [
          | inr unknown ↦ cc (rw (good, unknown, normalize_listener) at h)
          | inl known ↦
              subst IsPort
                (ap Listener.port (ok-injective (rw (good, known, normalize_listener) at h)))
                (in_range port good)
        ]
      ]

  normalize_each-AreEndpoints :
      (c : Config) (ls seen ls' : List Listener)
      → normalize_each trim_space to_lower c ls seen ≡ ok ls'
      → AreEndpoints ls' × NoneSeen seen ls'
  unfolding normalize_each
  normalize_each-AreEndpoints c [] seen ls' h =
      subst (λ (m : List Listener). AreEndpoints m × NoneSeen seen m) (ok-injective h) (tt, tt)
  normalize_each-AreEndpoints c (l ∷ ls) seen ls' h =
      elim (Result-cases (normalize_listener trim_space to_lower c l)) [
        | inr (e, bad) ↦ cc (rw (normalize_each, bad) at h)
        | inl (l1, one) ↦ elim (Bool-cases (is_seen l1 seen)) [
          | inl twice ↦ cc (rw (normalize_each, one, twice) at h)
          | inr new ↦ elim (Result-cases (normalize_each trim_space to_lower c ls (l1 ∷ seen))) [
            | inr (e, bad) ↦ cc (rw (normalize_each, one, new, bad) at h)
            | inl (rest, more) ↦
                let (ends, unseen) = normalize_each-AreEndpoints c ls (l1 ∷ seen) rest more in
                subst (λ (m : List Listener). AreEndpoints m × NoneSeen seen m)
                  (ok-injective (rw (normalize_each, one, new, more) at h))
                  (
                    (normalize_listener-IsPort c l l1 one, first_unseen l1 seen rest unseen, ends),
                    (new, others_unseen l1 seen rest unseen),
                  )
          ]
        ]
      ]

  normalize_each_filled :
      (c : Config) (ls seen ls' : List Listener)
      → normalize_each trim_space to_lower c ls seen ≡ ok ls'
      → is_nil ls' ≡ is_nil ls
  unfolding normalize_each
  normalize_each_filled c [] seen ls' h = ap is_nil (sym (ok-injective h))
  normalize_each_filled c (l ∷ ls) seen ls' h =
      elim (Result-cases (normalize_listener trim_space to_lower c l)) [
        | inr (e, bad) ↦ cc (rw (normalize_each, bad) at h)
        | inl (l1, one) ↦ elim (Bool-cases (is_seen l1 seen)) [
          | inl twice ↦ cc (rw (normalize_each, one, twice) at h)
          | inr new ↦ elim (Result-cases (normalize_each trim_space to_lower c ls (l1 ∷ seen))) [
            | inr (e, bad) ↦ cc (rw (normalize_each, one, new, bad) at h)
            | inl (rest, more) ↦
                ap is_nil (sym (ok-injective (rw (normalize_each, one, new, more) at h)))
          ]
        ]
      ]

  normalize_listeners_valid :
      (c c' : Config)
      → normalize_listeners trim_space to_lower c ≡ ok c'
      → IsPort c.port
      → AreEndpoints c'.listeners × IsFirst c'.port c'.proto c'.listeners
  unfolding normalize_listeners
  normalize_listeners_valid c c' h p = elim (Bool-cases (is_nil c.listeners)) [
    | inl single ↦
        subst (λ (m : Config). AreEndpoints m.listeners × IsFirst m.port m.proto m.listeners)
          (ok-injective (rw (normalize_listeners, single) at h)) ((p, refl, tt), (refl, refl))
    | inr several ↦ elim (Result-cases (normalize_each trim_space to_lower c c.listeners [])) [
      | inr (e, bad) ↦ cc (rw (normalize_listeners, several, bad) at h)
      | inl (ls, all) ↦
          subst (λ (m : Config). AreEndpoints m.listeners × IsFirst m.port m.proto m.listeners)
            (ok-injective (rw (normalize_listeners, several, all) at h))
            (with_first_valid c ls (normalize_each_filled c c.listeners [] ls all ∙ several)
              (normalize_each-AreEndpoints c c.listeners [] ls all).0)
    ]
  ]

  check_config_valid :
      (c c' : Config)
      → check_config trim_space to_lower c ≡ ok c'
      → AreEndpoints c'.listeners × IsFirst c'.port c'.proto c'.listeners
  unfolding check_config
  check_config_valid c c' h = elim (Bool-cases (c.inbound_tag == "")) [
    | inl bad ↦ cc (rw (check_config, bad) at h)
    | inr tag ↦ elim (Bool-cases (out_of_range c.port)) [
      | inl bad ↦ cc (rw (check_config, tag, bad) at h)
      | inr port ↦ elim (Bool-cases (c.server_subnet == "")) [
        | inl bad ↦ cc (rw (check_config, tag, port, bad) at h)
        | inr subnet ↦
            elim (Bool-cases (c.ca_cert == "" || c.server_cert == "" || c.server_key == "")) [
              | inl bad ↦ cc (rw (check_config, tag, port, subnet, bad) at h)
              | inr certs ↦
                  normalize_listeners_valid (with_defaults c) c'
                    (rw (check_config, tag, port, subnet, certs) at h) (in_range c.port port)
            ]
      ]
    ]
  ]

  -- A configuration that NewConfig accepts has at least one listener; the ports of its listeners
  -- are from 1 to 65535, no two of them have both protocol and port in common, and the first is
  -- the configuration's own port and protocol.
  pub new_config_endpoints :
      (parse : String → Option Config) (text : String) (c : Config)
      → new_config trim_space to_lower parse text ≡ ok c
      → AreEndpoints c.listeners × IsFirst c.port c.proto c.listeners
  unfolding new_config
  new_config_endpoints parse text c h = elim (Bool-cases (trim_space text == "")) [
    | inl bad ↦ cc (rw (new_config, bad) at h)
    | inr text_there ↦ elim (Option-cases (parse text)) [
      | inl bad ↦ cc (rw (new_config, text_there, bad) at h)
      | inr (parsed, found) ↦ check_config_valid parsed c (rw (new_config, text_there, found) at h)
    ]
  ]
