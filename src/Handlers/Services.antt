-- ===== src/Handlers/Services.antt =====
-- handlers.go and main.go: the registry's calls, and what main hooks into it.
use blank_sr.Base.{
  String, ◌<>◌, Option, none, some, List, [], ◌∷◌, ◌++◌, ◌==◌, if◌then◌else◌, string_eq, nat_eq,
}
use Prim.Native.String as Text
use Prim.Native.Char.{code}
use blank_sr.Database.{Database}
use blank_sr.Handlers.Guards.{not_nil, with_string}
use blank_sr.Handlers.State.{
  App, Args, Reply, replies, fails, panics, invalid_arguments, invalid_message, no_type, nothing,
  services, registry_changed, event,
}
use blank_sr.Registry
use blank_sr.Registry.{Call, Service, type_task_queue, type_file_store}
use blank_sr.Sessions.Data.{Codec}
use blank_sr.Sessions.Store.{delete_all_connections}
use blank_sr.Values.{Value, Fields, array, as_string, as_object, field_of}

-- `strings.Split(c.RemoteAddr(), ":")[0]`
before_colon : String → String
before_colon Text.[] = ""
before_colon (Text.◌∷◌ c rest) =
    let tail = before_colon rest in if code c == 58 then "" else Text.◌∷◌ c tail

-- The address under which a client is registered.
unfoldable pub service_address : String → String → String
unfolding before_colon
service_address remote_addr typ =
    let host = before_colon remote_addr in
    let addr = if host == "[" then "127.0.0.1" else host in
    if typ == type_file_store then "http://" <> addr else "ws://" <> addr

-- `x, ok = v.(string)` for a field that may be missing: empty if it is no string.
abbrev pub string_field : {F : Type 0} → String → Fields F → String
string_field k fs = elim (field_of k fs) [
  | none ↦ ""
  | some v ↦ elim (as_string v) [ none ↦ "" | some t ↦ t ]
]

module _ (D : Database) {F : Type 0} where
  -- `wamp.Publish("registry", registry.GetAll())`
  unfoldable pub publish_registry : List String → App F D.Db → App F D.Db
  publish_registry order s = record s {
    published = s.published ++ (registry_changed (Registry.get_all order s.registry.services) ∷ []);
  }

  -- The calls of the function that main gives to `registry.OnCreate`.
  unfoldable pub run_create : List String → List Call → App F D.Db → App F D.Db
  unfolding publish_registry
  run_create order [] s = s
  run_create order (c ∷ calls) s = run_create order calls (publish_registry order s)

  -- The end of `registerHandler`.
  unfoldable pub register_service :
      List String → String → String → String → Fields F → App F D.Db → App F D.Db
  unfolding run_create service_address
  register_service order remote_addr conn_id typ message s =
      let (r, calls) =
        Registry.register typ (service_address remote_addr typ) (string_field "port" message)
          conn_id (string_field "commonJS" message) s.registry in
      run_create order calls (record s { registry = r })

  -- The checks of the type in `registerHandler`.
  unfoldable pub register_typed :
      List String
      → String
      → String
      → Option (Value F)
      → Fields F
      → App F D.Db
      → Reply F × App F D.Db
  unfolding register_service
  register_typed order remote_addr conn_id none message s = (fails no_type, s)
  register_typed order remote_addr conn_id (some v) message s = elim (as_string v) [
    | none ↦ (fails no_type, s)
    | some typ ↦
        if typ == ""
        then (fails no_type, s)
        else (replies nothing, register_service order remote_addr conn_id typ message s)
  ]

  -- `registerHandler`
  unfoldable pub register_handler :
      List String → String → String → Args F → App F D.Db → Reply F × App F D.Db
  unfolding register_typed
  register_handler order remote_addr conn_id args = not_nil args (λ v vs s. elim (as_object v) [
    | none ↦ (fails invalid_message, s)
    | some message ↦ register_typed order remote_addr conn_id (field_of "type" message) message s
  ])

  -- `registryHandler`
  unfoldable pub registry_handler : List String → App F D.Db → Reply F × App F D.Db
  registry_handler order s = (replies (services (Registry.get_all order s.registry.services)), s)

  -- `publishHandler` after its first check, with what is left of the arguments.
  unfoldable pub publish_to : String → List (Value F) → App F D.Db → Reply F × App F D.Db
  publish_to uri (v ∷ array subscribers ∷ _) s =
      (replies nothing, record s { published = s.published ++ (event uri v subscribers ∷ []) })
  publish_to uri (v ∷ w ∷ _) s = (fails invalid_arguments, s)
  publish_to uri _ s = (panics, s)

  -- `publishHandler`
  unfoldable pub publish_handler : Args F → App F D.Db → Reply F × App F D.Db
  unfolding publish_to
  publish_handler none s = (panics, s)
  publish_handler (some []) s = (panics, s)
  publish_handler (some (v ∷ vs)) s = with_string v (λ uri. publish_to uri vs) s

  -- The function that main gives to `registry.OnDelete`, for one call. `keys` is the order in which
  -- Go ranges over the sessions.
  unfoldable pub registry_deleted :
      Codec F D.Bytes → List String → List String → Call → App F D.Db → App F D.Db
  unfolding publish_registry
  registry_deleted C keys order (h, service) s = publish_registry order (
      if service.typ == "taskQueue"
      then record s { store = delete_all_connections D C keys s.store }
      else s)

  unfoldable pub run_delete :
      Codec F D.Bytes → List String → List String → List Call → App F D.Db → App F D.Db
  unfolding registry_deleted
  run_delete C keys order [] s = s
  run_delete C keys order (c ∷ calls) s =
      run_delete C keys order calls (registry_deleted C keys order c s)
