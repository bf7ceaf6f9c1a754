-- ===== src/Config/Reload.antt =====
-- config/process.go: reading and reloading the configuration. Handlers and providers are known by
-- names. encoding/json is a parameter; its errors are logged, and what it read before them stays.
pub mod Providers
pub mod Laws
pub mod History
pub mod Restart
use blank_sr.Base.{
  String, Bool, true, false, Option, none, some, List, [], ◌∷◌, ◌++◌, map, if◌then◌else◌, string_eq,
}
use blank_sr.Base.Map.{lookup}
use blank_sr.Base.Merging.{merge_into}
use blank_sr.Config.Defaults.{provided, merge_with}
use blank_sr.Config.Names.{obj_common_settings, obj_server_settings}
use blank_sr.Config.Props.{Floats}
use blank_sr.Config.Settings.{CommonSettings, ServerSettings, Settings, make_default_settings}
use blank_sr.Config.Stores.{Store, Stores, MigrationTask}
use blank_sr.Config.Validate.{validate}
use blank_sr.Values.{Fields}

-- `json.Marshal` and `json.Unmarshal`, at the types at which they are called. A map of stores may be
-- nil, `none`: the text "null" is read as that.
pub record Json (F R Bytes : Type 0) : Type 0 where
  pub marshal : Fields F → Option Bytes
  pub marshal_conf : Option (Stores F R) → Option Bytes
  pub unmarshal_conf : Bytes → Option (Option (Stores F R))
  pub unmarshal_common : Bytes → CommonSettings F → CommonSettings F
  pub unmarshal_i18n : Bytes → Fields F → Fields F
  pub unmarshal_server : Bytes → ServerSettings → ServerSettings

-- The package's variables, the file config.json, and the calls of the handlers of `OnUpdate`.
pub record Package (F R Bytes : Type 0) : Type 0 where
  pub settings : Settings F
  pub config : Stores F R
  pub providers : List String
  pub handlers : List String
  pub file : Option Bytes
  pub notified : List (String × Stores F R)

-- A call returns, panics with an error's text, or ends the program.
pub data Outcome {ℓ} (A : Type ℓ) : Type ℓ where
  done : A → Outcome A
  panicked : String → Outcome A
  exited : Outcome A

abbrev pub and_then {ℓ κ} : {A : Type ℓ} {B : Type κ} → Outcome A → (A → Outcome B) → Outcome B
and_then (done a) f = f a
and_then (panicked e) f = panicked e
and_then exited f = exited

abbrev pub nil_map : String
nil_map = "assignment to entry in nil map"

abbrev pub nil_pointer : String
nil_pointer = "runtime error: invalid memory address or nil pointer dereference"

-- A lookup in a nil map, and a range over it, find nothing.
abbrev pub stores_of : {F R : Type 0} → Option (Stores F R) → Stores F R
stores_of none = []
stores_of (some conf) = conf

-- The loop over the stores of one provider. A nil map takes no entry.
unfoldable pub load_from_provider :
    {F R : Type 0} → Stores F R → Option (Stores F R) → Outcome (Option (Stores F R))
unfolding merge_with
load_from_provider [] none = done none
load_from_provider (store ∷ cfg) none = panicked nil_map
load_from_provider cfg (some conf) = done (some (merge_into provided cfg conf))

-- `loadFromProviders`. A provider that fails, `none`, is passed over.
unfoldable pub load_from_providers :
    {F R : Type 0}
    → List (Option (Stores F R))
    → Option (Stores F R)
    → Outcome (Option (Stores F R))
unfolding load_from_provider
load_from_providers [] conf = done conf
load_from_providers (none ∷ providers) conf = load_from_providers providers conf
load_from_providers (some cfg ∷ providers) conf =
    and_then (load_from_provider cfg conf) (load_from_providers providers)

-- `RegisterConfigProvider`
abbrev pub register_config_provider : {F R B : Type 0} → String → Package F R B → Package F R B
register_config_provider p s = record s { providers = s.providers ++ (p ∷ []) }

-- `OnUpdate`
abbrev pub on_update : {F R B : Type 0} → String → Package F R B → Package F R B
on_update fn s = record s { handlers = s.handlers ++ (fn ∷ []) }

-- `updated`
abbrev pub updated : {F R B : Type 0} → Package F R B → Package F R B
updated s = record s { notified = s.notified ++ map (λ fn. (fn, s.config)) s.handlers }

module _ {F R Bytes : Type 0} (json : Json F R Bytes) where
  abbrev pub common_entries : Option Bytes → CommonSettings F → CommonSettings F
  common_entries none c = c
  common_entries (some encoded) c = json.unmarshal_common encoded c

  abbrev pub common_i18n :
      Option Bytes → Option (CommonSettings F) → Outcome (Option (CommonSettings F))
  common_i18n none c = done c
  common_i18n (some encoded) none = panicked nil_pointer
  common_i18n (some encoded) (some c) =
      done (some (record c { i18n = json.unmarshal_i18n encoded c.i18n }))

  abbrev pub common_from : Option (Store F R) → Settings F → Outcome (Settings F)
  common_from none s = done s
  common_from (some cs) s =
      and_then
        (common_i18n (json.marshal cs.i18n) (elim s.common [
          | none ↦ none
          | some c ↦ some (common_entries (json.marshal cs.entries) c)
        ]))
        (λ c. done (record s { common = c }))

  -- `loadCommonSettings`: a nil pointer is refused by `Unmarshal`, and panics at its field.
  unfoldable pub load_common_settings : Stores F R → Settings F → Outcome (Settings F)
  load_common_settings conf s = common_from (lookup obj_common_settings conf) s

  abbrev pub server_entries : Option Bytes → Option ServerSettings → Outcome (Option ServerSettings)
  server_entries none x = done x
  server_entries (some encoded) none = panicked nil_pointer
  server_entries (some encoded) (some x) =
      done (some (record (json.unmarshal_server encoded x) { cached = none }))

  abbrev pub server_from : Option (Store F R) → Settings F → Outcome (Settings F)
  server_from none s = done s
  server_from (some ss) s =
      and_then (server_entries (json.marshal ss.entries) s.server)
        (λ x. done (record s { server = x }))

  -- `loadServerSettings`
  unfoldable pub load_server_settings : Stores F R → Settings F → Outcome (Settings F)
  load_server_settings conf s = server_from (lookup obj_server_settings conf) s

  -- The file that `ReloadConfig` writes, where it can.
  abbrev pub written : Bool → Option Bytes → Option Bytes → Option Bytes
  written true (some encoded) old = some encoded
  written _ _ old = old

  module _ (fl : Floats F) (blank : R) (sort : List MigrationTask → List MigrationTask) where
    -- What `readConfig` and `ReloadConfig` make of the stores: the settings, and the configuration.
    unfoldable pub adopt : Stores F R → Package F R Bytes → Outcome (Package F R Bytes)
    unfolding load_common_settings load_server_settings
    adopt given s = and_then (load_common_settings given s.settings) (λ c.
        and_then (load_server_settings given c)
          (λ x. done (record s { settings = x; config = validate fl blank sort given })))

    -- The part that `readConfig` and `ReloadConfig` share. `get` is what each provider returns.
    unfoldable pub load_conf :
        (String → Option (Stores F R))
        → Option (Stores F R)
        → Package F R Bytes
        → Outcome (Package F R Bytes)
    unfolding load_from_providers adopt
    load_conf get conf s =
        and_then (load_from_providers (map get s.providers) conf)
          (λ given. adopt (stores_of given) s)

    abbrev pub parsed :
        (String → Option (Stores F R))
        → Bool
        → Option (Option (Stores F R))
        → Package F R Bytes
        → Outcome (Package F R Bytes)
    parsed get true none s = done s
    parsed get false none s = exited
    parsed get dev (some conf) s = load_conf get conf s

    -- `readConfig`, with the contents of the file, or `none` if it cannot be read.
    unfoldable pub read_config :
        (String → Option (Stores F R))
        → Bool
        → Option Bytes
        → Package F R Bytes
        → Outcome (Package F R Bytes)
    unfolding load_conf
    read_config get dev none s = done s
    read_config get dev (some file) s = parsed get dev (json.unmarshal_conf file) s

    -- `Init`
    unfoldable pub init :
        (String → Option (Stores F R))
        → Bool
        → Option Bytes
        → Package F R Bytes
        → Outcome (Package F R Bytes)
    unfolding read_config
    init get dev file s =
        and_then (read_config get dev file (record s { settings = make_default_settings }))
          (λ t. done (updated t))

    -- `ReloadConfig`
    unfoldable pub reload_config :
        (String → Option (Stores F R))
        → Bool
        → Option (Stores F R)
        → Package F R Bytes
        → Outcome (Package F R Bytes)
    unfolding load_conf
    reload_config get writable conf s =
        and_then
          (load_conf get conf
            (record s { file = written writable (json.marshal_conf conf) s.file }))
          (λ t. done (updated t))
