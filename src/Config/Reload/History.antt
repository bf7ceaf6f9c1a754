-- ===== src/Config/Reload/History.antt =====
-- Histories of calls on the configuration.
use blank_sr.Base.{String, Bool, Option, some, List, [], ◌∷◌}
use blank_sr.Config.Props.{Floats}
use blank_sr.Config.Reload.{
  Json, Package, Outcome, done, and_then, reload_config, register_config_provider, on_update,
}
use blank_sr.Config.Settings.{jwt_ttl}
use blank_sr.Config.Stores.{Stores, MigrationTask}

-- A call, with what the providers return meanwhile. A reload is given a map that is not nil.
pub data Event (F R : Type 0) : Type 0 where
  reload : (String → Option (Stores F R)) → Bool → Stores F R → Event F R
  register subscribe : String → Event F R
  ask : Event F R

module _ {F R B : Type 0} (json : Json F R B) (fl : Floats F) (blank : R)
    (sort : List MigrationTask → List MigrationTask) where
  abbrev pub handle : Event F R → Package F R B → Outcome (Package F R B)
  handle (reload get writable conf) s = reload_config json fl blank sort get writable (some conf) s
  handle (register p) s = done (register_config_provider p s)
  handle (subscribe fn) s = done (on_update fn s)
  handle ask s = done (record s { settings = (jwt_ttl s.settings).1 })

  abbrev pub run : List (Event F R) → Package F R B → Outcome (Package F R B)
  run [] s = done s
  run (e ∷ es) s = and_then (handle e s) (run es)
