-- ===== src/Controller/Cores/Retire.antt =====
-- controller/controller.go: which cores run after a start, and which were shut down.
use pasarguard_node.Prelude.{
  String, ◌≡◌, refl, Bool, true, false, ◌&&◌, Option, none, some, [], ◌∷◌, ◌++◌, arith, ◌==◌,
  eq_iff, if◌then◌else◌, ◌⊎◌, inl, inr, ap, sym, ◌∙◌,
}
use pasarguard_node.Controller.Cores.{
  BackendType, BackendConfig, Texts, same_type, same_key, key_of, BackendKey, Backends, core_at,
  delete, put, cores_of, Controller, retired, retire_for, is_known, add_core, start_backend,
}

same_type_refl : (a : BackendType) → same_type a a ≡ true
unfolding same_type
same_type_refl BackendType.xray = refl
same_type_refl BackendType.wireguard = refl
same_type_refl BackendType.openvpn = refl
same_type_refl BackendType.singbox = refl
same_type_refl BackendType.l2tp = refl
same_type_refl (BackendType.unknown n) = ground arith

same_type→eq : (a b : BackendType) → same_type a b ≡ true → a ≡ b
unfolding same_type
same_type→eq BackendType.xray BackendType.xray h = refl
same_type→eq BackendType.wireguard BackendType.wireguard h = refl
same_type→eq BackendType.openvpn BackendType.openvpn h = refl
same_type→eq BackendType.singbox BackendType.singbox h = refl
same_type→eq BackendType.l2tp BackendType.l2tp h = refl
same_type→eq (BackendType.unknown n) (BackendType.unknown m) h =
    ap BackendType.unknown (ground arith)
same_type→eq a b h = ground arith

ap2_key :
    (j k x : BackendKey)
    → k.typ ≡ x.typ
    → k.instance_id ≡ x.instance_id
    → same_key j x ≡ same_key j k
unfolding same_key
ap2_key j k x p q = λ i. same_type j.typ (sym p i) && j.instance_id == sym q i

same_key_trans : (j k x : BackendKey) → same_key k x ≡ true → same_key j x ≡ same_key j k
unfolding same_key
same_key_trans j k x h =
    ap2_key j k x (same_type→eq k.typ x.typ (ground arith))
      (ground (arith, eq_iff k.instance_id x.instance_id))

same_key_left : (j k x : BackendKey) → same_key j k ≡ true → same_key j x ≡ same_key k x
unfolding same_key
same_key_left j k x h =
    let p = same_type→eq j.typ k.typ (ground arith) in
    let q : j.instance_id ≡ k.instance_id = ground (arith, eq_iff j.instance_id k.instance_id) in
    λ i. same_type (p i) x.typ && q i == x.instance_id

module _ {Core : Type 0} where
  core_at-delete :
      (k j : BackendKey) (cores : Backends Core)
      → core_at j (delete k cores) ≡ (if same_key j k then none else core_at j cores)
  unfolding core_at delete
  core_at-delete k j [] = ground arith
  core_at-delete k j ((x, core) ∷ cores) =
      ground (arith, core_at-delete k j cores, same_key_trans j k x, same_key_left j k x)

  core_at-put :
      (k j : BackendKey) (core : Core) (cores : Backends Core)
      → core_at j (put k core cores) ≡ (if same_key j k then some core else core_at j cores)
  unfolding put core_at
  core_at-put k j core cores = ground (arith, core_at-delete k j cores)

  -- What a launch leaves under the key: the new core, or nothing.
  abbrev pub launched : Core ⊎ String → Option Core
  launched (inl core) = some core
  launched (inr e) = none

  abbrev pub failed : Core ⊎ String → Option String
  failed (inl core) = none
  failed (inr e) = some e

  or_old : Core ⊎ String → Option Core → Option Core
  or_old (inl core) old = some core
  or_old (inr e) old = old

  settled :
      (same additive : Bool) (new : Core ⊎ String) (now before : Option Core)
      → now ≡ (if additive then if same then none else before else none)
      → (if same then or_old new now else now)
        ≡ (if same then launched new else if additive then before else none)
  unfolding or_old
  settled true true (inl core) now before h = refl
  settled true false (inl core) now before h = refl
  settled true true (inr e) now before h = h
  settled true false (inr e) now before h = h
  settled false true new now before h = h
  settled false false new now before h = h

  module _ (t : Texts) where
    core_at-retire_for :
        (cfg : BackendConfig) (c : Controller Core) (j : BackendKey)
        → core_at j (retire_for t cfg c).backends ≡ (
            if cfg.additive
            then if same_key j (key_of t cfg) then none else core_at j c.backends
            else none)
    unfolding retire_for core_at
    core_at-retire_for cfg c j = ground (arith, core_at-delete (key_of t cfg) j c.backends)

    core_at-add_core :
        (key j : BackendKey) (c : Controller Core) (launch : Core ⊎ String)
        → (core_at j (add_core t key c launch).0.backends ≡ (
            if same_key j key then or_old launch (core_at j c.backends) else core_at j c.backends))
          × ((add_core t key c launch).0.shut_down ≡ c.shut_down)
          × ((add_core t key c launch).1 ≡ failed launch)
    unfolding add_core or_old
    core_at-add_core key j c (inl core) = (core_at-put key j core c.backends, refl, refl)
    core_at-add_core key j c (inr e) = (ground arith, refl, refl)

    shut_down-retire_for :
        (cfg : BackendConfig) (c : Controller Core)
        → (retire_for t cfg c).shut_down ≡ (
            c.shut_down
            ++ (if cfg.additive
                then retired (core_at (key_of t cfg) c.backends)
                else cores_of c.backends))
    unfolding retire_for
    shut_down-retire_for cfg c = ground arith

    -- StartBackend first shuts down the core under the configuration's key, or every core if the
    -- start is not additive. After it the key has the new core, or none if the launch failed or the
    -- type is unknown; another key has what it had if the start is additive, and none if not.
    pub start_backend_lem :
        (launch : BackendConfig → Core ⊎ String) (cfg : BackendConfig) (c : Controller Core)
        → let new = if is_known cfg.kind then launch cfg else inr "invalid backend type" in
          let r = start_backend t launch cfg c in
          (r.1 ≡ failed new)
          × (r.0.shut_down ≡ (
              c.shut_down
              ++ (if cfg.additive
                  then retired (core_at (key_of t cfg) c.backends)
                  else cores_of c.backends)))
          × ((j : BackendKey)
              → core_at j r.0.backends ≡ (
                  if same_key j (key_of t cfg)
                  then launched new
                  else if cfg.additive
                  then core_at j c.backends
                  else none))
    unfolding start_backend
    start_backend_lem launch cfg c =
        let new = if is_known cfg.kind then launch cfg else inr "invalid backend type" in
        let after = retire_for t cfg c in
        let added = λ (j : BackendKey). core_at-add_core (key_of t cfg) j after new in
        (
          (added (key_of t cfg)).2,
          (added (key_of t cfg)).1 ∙ shut_down-retire_for cfg c,
          λ j.
              (added j).0
              ∙ settled (same_key j (key_of t cfg)) cfg.additive new _ _
                  (core_at-retire_for cfg c j),
        )
