-- ===== src/Registry.antt =====
-- registry/registry.go: the services that the connected clients offer.
-- Go ranges over a map in an order of its own: an operation that does so takes that order, a list of
-- the keys. A registered handler is a number, and an operation returns the calls of handlers that it
-- makes.
pub mod Orders
pub mod Laws
pub mod Closing
use blank_sr.Base.{ℕ, String, ◌<>◌, Option, none, some, List, [], ◌∷◌, ◌++◌, map}
use blank_sr.Base.{◌==◌, if◌then◌else◌, string_eq, or_else}
use blank_sr.Base.Map.{Map, lookup, insert}

abbrev pub type_worker : String
type_worker = "worker"

abbrev pub type_pbx : String
type_pbx = "pbx"

abbrev pub type_task_queue : String
type_task_queue = "taskQueue"

abbrev pub type_cron : String
type_cron = "cron"

abbrev pub type_file_store : String
type_file_store = "fileStore"

abbrev pub type_queue : String
type_queue = "queue"

abbrev pub port_worker : String
port_worker = "1234"

abbrev pub port_pbx : String
port_pbx = "1234"

abbrev pub port_task_queue : String
port_task_queue = "1234"

pub record Service : Type 0 where
  pub typ : String
  pub address : String
  pub port : String
  pub common_js : String
  pub conn_id : String

abbrev pub Services : Type 0
Services = Map String (List Service)

pub record Registry : Type 0 where
  pub services : Services
  pub create_handlers : List ℕ
  pub update_handlers : List ℕ
  pub delete_handlers : List ℕ

abbrev pub start : Registry
start = record { services = []; create_handlers = []; update_handlers = []; delete_handlers = [] }

-- A call of a handler with a service.
abbrev pub Call : Type 0
Call = ℕ × Service

-- `services[typ]`, which is nil for a missing key.
abbrev pub of_type : String → Services → List Service
of_type typ m = or_else (lookup typ m) []

-- `OnCreate`
unfoldable pub on_create : ℕ → Registry → Registry
on_create fn r = record r { create_handlers = r.create_handlers ++ (fn ∷ []) }

-- `OnUpdate`
unfoldable pub on_update : ℕ → Registry → Registry
on_update fn r = record r { update_handlers = r.update_handlers ++ (fn ∷ []) }

-- `OnDelete`
unfoldable pub on_delete : ℕ → Registry → Registry
on_delete fn r = record r { delete_handlers = r.delete_handlers ++ (fn ∷ []) }

-- The body of `FSAddress`' loop where the key is `TypeFileStore`.
pub first_address : List Service → String
first_address [] = ""
first_address (s ∷ _) = s.address <> (":" <> s.port)

-- `FSAddress`
unfoldable pub fs_address : List String → Services → String
unfolding first_address
fs_address [] m = ""
fs_address (k ∷ order) m =
    if k == type_file_store then first_address (of_type k m) else fs_address order m

-- `GetAll`
unfoldable pub get_all_from : List String → Services → Services → Services
get_all_from [] m all = all
get_all_from (k ∷ order) m all = get_all_from order m (insert k (of_type k m) all)

unfoldable pub get_all : List String → Services → Services
unfolding get_all_from
get_all order m = get_all_from order m []

-- The switch of `Register` that fills an empty port in.
pub default_port : String → String → String
default_port typ port =
    if port == ""
    then (if typ == type_worker
        then port_worker
        else if typ == type_pbx
        then port_pbx
        else if typ == type_task_queue
        then port_task_queue
        else port)
    else port

-- `register`
unfoldable pub register_service : Service → Services → Services
register_service s m = insert s.typ (of_type s.typ m ++ (s ∷ [])) m

-- `Register`
unfoldable pub register :
    String → String → String → String → String → Registry → Registry × List Call
unfolding default_port register_service
register typ remote_addr port conn_id common_js r =
    let s : Service = record {
      typ = typ;
      address = remote_addr;
      port = default_port typ port;
      common_js = common_js;
      conn_id = conn_id;
    } in
    (record r { services = register_service s r.services }, map (λ h. (h, s)) r.create_handlers)

-- The inner loop of `unregister`: the first service of the connection, and the list without it.
unfoldable pub take_conn : String → List Service → Option (Service × List Service)
take_conn id [] = none
take_conn id (s ∷ ss) =
    let rest = take_conn id ss in
    if s.conn_id == id
    then some (s, ss)
    else elim rest [ none ↦ none | some (t, ts) ↦ some (t, s ∷ ts) ]

-- The outer loop of `unregister`: the service that goes, and the map without it.
unfoldable pub unregister_from : List String → String → Services → Option (Service × Services)
unfolding take_conn
unregister_from [] id m = none
unregister_from (typ ∷ order) id m =
    let rest = unregister_from order id m in
    elim (take_conn id (of_type typ m)) [ none ↦ rest | some (s, ss) ↦ some (s, insert typ ss m) ]

-- `Unregister`
unfoldable pub unregister : List String → String → Registry → Registry × List Call
unfolding unregister_from
unregister order id r = elim (unregister_from order id r.services) [
  | none ↦ (r, [])
  | some (s, m) ↦ (record r { services = m }, map (λ h. (h, s)) r.delete_handlers)
]
