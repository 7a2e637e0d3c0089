-- ===== src/Singbox/Config/Valid.antt =====
-- backend/singbox/config.go: what a configuration that NewConfig accepts has.
use pasarguard_node.Prelude.{
  String, ◌≡◌, refl, subst, Bool, true, not, ◌&&◌, Option, none, some, List, [], ◌∷◌, arith, ◌==◌,
  Bool-cases, inl, inr,
}
use pasarguard_node.Singbox.Config.{
  CredentialKind, ManagedInbound, Config, Inbound, Parsed, Result, ok, err, new_config, read_config,
  finish_config, managed_inbounds, add_inbound, supported_inbounds, first_tag, instance_id,
}

-- Every inbound has a tag.
abbrev pub all_tagged : List ManagedInbound → Bool
all_tagged [] = true
all_tagged (i ∷ is) = not (i.tag == "") && all_tagged is

abbrev pub is_usable : Config → Bool
is_usable c =
    not (c.clash_api_address == "")
    && not (c.stats_address == "")
    && all_tagged c.inbounds
    && not (instance_id c == "")

abbrev ok_and : (Config → Bool) → Result Config → Bool
ok_and p (ok c) = p c
ok_and p (err e) = true

module _ (trim_space : String → String) where
  all_tagged-add_inbound :
      (tag : String) (kind : Option CredentialKind) (rest : List ManagedInbound)
      → all_tagged rest ≡ true
      → all_tagged (add_inbound trim_space tag kind rest) ≡ true
  unfolding add_inbound
  all_tagged-add_inbound tag none rest h = h
  all_tagged-add_inbound tag (some kind) rest h = ground (arith, h)

  all_tagged-managed_inbounds :
      (inbounds : List Inbound) → all_tagged (managed_inbounds trim_space inbounds) ≡ true
  unfolding managed_inbounds
  all_tagged-managed_inbounds [] = refl
  all_tagged-managed_inbounds (i ∷ inbounds) =
      all_tagged-add_inbound (trim_space i.tag) (supported_inbounds i.kind)
        (managed_inbounds trim_space inbounds) (all_tagged-managed_inbounds inbounds)

  finish_config_usable :
      (raw : String) (parsed : Parsed) (inbounds : List ManagedInbound)
      → all_tagged inbounds ≡ true
      → ok_and is_usable (finish_config trim_space raw parsed inbounds) ≡ true
  unfolding finish_config instance_id first_tag
  finish_config_usable raw parsed [] h = ground (arith)
  finish_config_usable raw parsed (i ∷ inbounds) h = ground (arith, h)

  read_config_usable :
      (raw : String) (parsed : Option Parsed)
      → ok_and is_usable (read_config trim_space raw parsed) ≡ true
  unfolding read_config
  read_config_usable raw none = refl
  read_config_usable raw (some parsed) =
      finish_config_usable raw parsed (managed_inbounds trim_space parsed.inbounds)
        (all_tagged-managed_inbounds parsed.inbounds)

  new_config_usable :
      (parse : String → Option Parsed) (raw : String)
      → ok_and is_usable (new_config trim_space parse raw) ≡ true
  unfolding new_config
  new_config_usable parse raw = elim (Bool-cases (trim_space raw == "")) [
    | inl e ↦ rw e refl
    | inr e ↦ rw e (read_config_usable raw (parse raw))
  ]

  -- A configuration that NewConfig accepts has an address for the API and one for the statistics,
  -- a tag for each of its inbounds, and an instance identifier, none of them empty.
  pub new_config-is_usable :
      (parse : String → Option Parsed) (raw : String) (c : Config)
      → new_config trim_space parse raw ≡ ok c
      → is_usable c ≡ true
  new_config-is_usable parse raw c h =
      subst (λ r. ok_and is_usable r ≡ true) h (new_config_usable parse raw)
