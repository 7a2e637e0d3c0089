-- ===== src/Controller/Cores.antt =====
-- controller/controller.go: the cores that run on a node, one under each key. What a core is and how
-- one is launched (the packages' NewConfig and New), and what JSON text means, are arguments.
pub mod Retire
use pasarguard_node.Prelude.{
  ℕ, String, Bool, true, false, Option, none, some, List, [], ◌∷◌, ◌++◌, ◌==◌, if◌then◌else◌,
  is_nil, nat_beq, ◌&&◌, ◌||◌, ◌⊎◌, inl, inr,
}
use pasarguard_node.Dict
use pasarguard_node.Dict.{Dict}
use pasarguard_node.Backend.Composite.{new_composite}

pub data BackendType : Type 0 where
  xray : BackendType
  wireguard : BackendType
  openvpn : BackendType
  singbox : BackendType
  l2tp : BackendType
  -- any other number
  unknown : ℕ → BackendType

-- common.Backend
pub record BackendConfig : Type 0 where
  pub kind : BackendType
  pub config : String
  pub additive : Bool

pub record Inbound : Type 0 where
  pub kind : String
  pub tag : String

-- encoding/json and strings: a string field of the object that a text holds, the `inbounds` of a
-- text, and TrimSpace.
pub record Texts : Type 0 where
  pub string_field : String → String → Option String
  pub inbounds : String → Option (List Inbound)
  pub trim_space : String → String

module _ (t : Texts) where
  trimmed : Option String → String
  trimmed none = ""
  trimmed (some v) = t.trim_space v

  first_hysteria2 : List Inbound → String
  first_hysteria2 [] = ""
  first_hysteria2 (inbound ∷ rest) =
      let later = first_hysteria2 rest in
      if inbound.kind == "hysteria2" then t.trim_space inbound.tag else later

  singbox_id : Option (List Inbound) → String
  unfolding first_hysteria2
  singbox_id none = ""
  singbox_id (some inbounds) = first_hysteria2 inbounds

  pub singbox_instance_id : String → String
  unfolding singbox_id
  singbox_instance_id config = singbox_id (t.inbounds config)

  pub backend_instance_id : BackendType → String → String
  unfolding trimmed singbox_instance_id
  backend_instance_id BackendType.wireguard config =
      trimmed (t.string_field config "interface_name")
  backend_instance_id BackendType.openvpn config = trimmed (t.string_field config "inbound_tag")
  backend_instance_id BackendType.l2tp config = trimmed (t.string_field config "inbound_tag")
  backend_instance_id BackendType.singbox config = singbox_instance_id config
  backend_instance_id BackendType.xray config = ""
  backend_instance_id (BackendType.unknown n) config = ""

pub is_known : BackendType → Bool
is_known (BackendType.unknown n) = false
is_known _ = true

pub same_type : BackendType → BackendType → Bool
same_type BackendType.xray BackendType.xray = true
same_type BackendType.wireguard BackendType.wireguard = true
same_type BackendType.openvpn BackendType.openvpn = true
same_type BackendType.singbox BackendType.singbox = true
same_type BackendType.l2tp BackendType.l2tp = true
same_type (BackendType.unknown n) (BackendType.unknown m) = nat_beq n m
same_type _ _ = false

pub record BackendKey : Type 0 where
  pub typ : BackendType
  pub instance_id : String

pub key_of : Texts → BackendConfig → BackendKey
key_of t cfg = record { typ = cfg.kind; instance_id = backend_instance_id t cfg.kind cfg.config }

pub same_key : BackendKey → BackendKey → Bool
unfolding same_type
same_key a b = same_type a.typ b.typ && a.instance_id == b.instance_id

-- `map[backendKey]backend.Backend`, as the list of its entries.
abbrev pub Backends : Type 0 → Type 0
Backends Core = List (BackendKey × Core)

module _ {Core : Type 0} where
  -- c.backends[key]
  pub core_at : BackendKey → Backends Core → Option Core
  unfolding same_key
  core_at key [] = none
  core_at key ((k, core) ∷ cores) =
      let rest = core_at key cores in if same_key key k then some core else rest

  -- delete(c.backends, key)
  pub delete : BackendKey → Backends Core → Backends Core
  unfolding same_key
  delete key [] = []
  delete key ((k, core) ∷ cores) =
      let rest = delete key cores in if same_key key k then rest else (k, core) ∷ rest

  pub put : BackendKey → Core → Backends Core → Backends Core
  unfolding delete
  put key core cores = (key, core) ∷ delete key cores

  pub cores_of : Backends Core → List Core
  cores_of [] = []
  cores_of ((k, core) ∷ cores) = core ∷ cores_of cores

-- The controller, as far as the cores and the client go, and the cores that were shut down, the
-- last one last.
pub record Controller (Core : Type 0) : Type 0 where
  pub backends : Backends Core
  pub client_ip : String
  pub last_request : ℕ
  pub api_port : ℕ
  pub metric_port : ℕ
  pub shut_down : List Core

module _ {Core : Type 0} where
  -- The time is an argument; the keep-alive timer that is started is not modelled.
  pub connect : String → ℕ → Controller Core → Controller Core
  connect ip now c = record c { client_ip = ip; last_request = now }

  pub new_request : ℕ → Controller Core → Controller Core
  new_request now c = record c { last_request = now }

  -- The two ports are those that FindFreePort answers.
  pub disconnect : ℕ → ℕ → Controller Core → Controller Core
  unfolding cores_of
  disconnect api_port metric_port c = record c {
    backends = [];
    client_ip = "";
    api_port = api_port;
    metric_port = metric_port;
    shut_down = c.shut_down ++ cores_of c.backends;
  }

  pub is_current_client : String → Controller Core → Bool
  is_current_client ip c = c.client_ip == "" || c.client_ip == ip

  pub retired : Option Core → List Core
  retired none = []
  retired (some old) = old ∷ []

  -- The composite's cores, or nil.
  pub backend : Controller Core → Option (List Core)
  unfolding cores_of
  backend c = if is_nil c.backends then none else new_composite (cores_of c.backends)

  module _ (t : Texts) where
    pub retire_for : BackendConfig → Controller Core → Controller Core
    unfolding key_of core_at delete cores_of retired
    retire_for cfg c =
        if cfg.additive
        then record c {
          backends = delete (key_of t cfg) c.backends;
          shut_down = c.shut_down ++ retired (core_at (key_of t cfg) c.backends);
        }
        else record c { backends = []; shut_down = c.shut_down ++ cores_of c.backends }

    add_core : BackendKey → Controller Core → Core ⊎ String → Controller Core × Option String
    unfolding put
    add_core key c (inl core) = (record c { backends = put key core c.backends }, none)
    add_core key c (inr e) = (c, some e)

    -- `launch` is what the package of the type answers: a core, or an error.
    pub start_backend :
        (BackendConfig → Core ⊎ String)
        → BackendConfig
        → Controller Core
        → Controller Core × Option String
    unfolding retire_for is_known add_core
    start_backend launch cfg c =
        add_core (key_of t cfg) (retire_for cfg c)
          (if is_known cfg.kind then launch cfg else inr "invalid backend type")
