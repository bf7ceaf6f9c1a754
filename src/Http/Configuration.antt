-- ===== src/Http/Configuration.antt =====
-- main.go: `postConfigHandler`.
pub mod Laws
use Prim.Native.String.{◌++◌}
use blank_sr.Base.{String, Bool, none, some, Option, List, ◌==◌, if◌then◌else◌, string_eq}
use blank_sr.Config.Props.{Floats}
use blank_sr.Config.Reload.{
  Json, Package, Outcome, and_then, done, panicked, exited, written, reload_config,
}
use blank_sr.Config.Stores.{Stores, MigrationTask}
use blank_sr.Http.{Site, Response, answer, text}

-- What the decoder makes of a request's body: of the text "null", a nil map, `none`.
pub data Decoded (F R : Type 0) : Type 0 where
  decoded : Option (Stores F R) → Decoded F R
  undecodable : String → Decoded F R

module _ {F R B Fs : Type 0} (json : Json F R B) (fl : Floats F) (blank : R)
    (sort : List MigrationTask → List MigrationTask) where
  -- The answer to a panic of `ReloadConfig` has the status and the text that were already written,
  -- followed by the error's. A nil map panics before the settings and the configuration are
  -- changed, so that only the file is; there are no nil pointers after `Init`.
  abbrev pub after_reload :
      Bool
      → Option (Stores F R)
      → Site F R B Fs
      → Outcome (Package F R B)
      → Outcome (Response B × Site F R B Fs)
  after_reload writable conf s (done t) = done (answer 200 (text "OK"), record s { setup = t })
  after_reload writable conf s (panicked e) = done (
    answer 200 (text ("OK" ++ e)),
    record s {
      setup = record s.setup { file = written json writable (json.marshal_conf conf) s.setup.file };
    },
  )
  after_reload writable conf s exited = exited

  abbrev pub reloaded :
      (String → Option (Stores F R))
      → Bool
      → Decoded F R
      → Site F R B Fs
      → Outcome (Response B × Site F R B Fs)
  reloaded providers writable (undecodable e) s = done (answer 400 (text e), s)
  reloaded providers writable (decoded conf) s =
      after_reload writable conf s
        (reload_config json fl blank sort providers writable conf s.setup)

  -- `postConfigHandler`. It recovers from a panic of `ReloadConfig`.
  unfoldable pub post_config_handler :
      (String → Option (Stores F R))
      → Bool
      → String
      → Decoded F R
      → Site F R B Fs
      → Outcome (Response B × Site F R B Fs)
  unfolding reload_config
  post_config_handler providers writable method body s =
      if method == "POST"
      then reloaded providers writable body s
      else done (answer 400 (text "Only POST request is allowed"), s)
