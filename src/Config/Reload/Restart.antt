-- ===== src/Config/Reload/Restart.antt =====
-- `ReloadConfig`, and `Init` at the next start.
use blank_sr.Base.{◌≡◌, ◌∙◌, ap, String, Bool, Option, none, some, List, map}
use blank_sr.Config.Props.{Floats}
use blank_sr.Config.Reload.{
  Json, Package, done, panicked, nil_map, and_then, written, parsed, read_config, init,
  reload_config, updated,
}
use blank_sr.Config.Reload.Laws.{load_conf-none}
use blank_sr.Config.Reload.Providers.{GivesStore}
use blank_sr.Config.Settings.{make_default_settings}
use blank_sr.Config.Stores.{Stores, MigrationTask}

module _ {F R B : Type 0} (json : Json F R B) (fl : Floats F) (blank : R)
    (sort : List MigrationTask → List MigrationTask) where
  -- At a start with the text of a nil map in the file, a provider that gives a store ends in a panic.
  pub init-none :
      (get : String → Option (Stores F R)) (dev : Bool) (file : B) (s : Package F R B)
      → json.unmarshal_conf file ≡ some none
      → GivesStore (map get s.providers)
      → init json fl blank sort get dev (some file) s ≡ panicked nil_map
  unfolding init read_config
  init-none get dev file s e gives =
      let z = record s { settings = make_default_settings } in
      ap (λ o. and_then (parsed json fl blank sort get dev o z) (λ t. done (updated t))) e
      ∙ ap (λ r. and_then r (λ t. done (updated t))) (load_conf-none json fl blank sort get z gives)

  pub reload_config-none :
      (get : String → Option (Stores F R)) (writable : Bool) (s : Package F R B)
      → GivesStore (map get s.providers)
      → reload_config json fl blank sort get writable none s ≡ panicked nil_map
  unfolding reload_config
  reload_config-none get writable s gives =
      let u = record s { file = written json writable (json.marshal_conf none) s.file } in
      ap (λ r. and_then r (λ t. done (updated t))) (load_conf-none json fl blank sort get u gives)
