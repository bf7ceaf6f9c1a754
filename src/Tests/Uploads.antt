-- ===== src/Tests/Uploads.antt =====
-- The HTTP routes of main.go.
use blank_sr.Base.{
  ℕ, ◌≡◌, refl, true, none, some, [], ◌∷◌, ◌++◌, ◌==◌, if◌then◌else◌, nat_eq, string_eq,
}
use blank_sr.Base.Map.{lookup}
use blank_sr.Config.Getters.{get}
use blank_sr.Http.{
  Site, Upload, Archives, read, answer, nothing, lib_zip_file_name, get_lib_handler, whole_archive,
  lib_handler,
}
use blank_sr.Http.Laws.{lib_handler_lem}
use blank_sr.Tests.Settings.{started}

-- The archive 7 holds one file, and nothing else is an archive.
abbrev pub seven : Archives ℕ ℕ
seven = record { opened = λ b. if b == 7 then some b else none; read_file = λ fs name. read 1 }

abbrev site : Site ℕ ℕ ℕ ℕ
site = record {
  lib_fs = none;
  lib_zip = none;
  assets_fs = none;
  disk = [];
  setup = started;
  published = [];
}

abbrev pub upload : Upload ℕ
upload = record { body = some 7; creates = true; copies = true; partial = 0 }

lib_handler_lem_example :
    (t : Site ℕ ℕ ℕ ℕ) × (lib_handler seven (λ s. s) (λ uri. uri) "POST" "/lib/" upload site
      ≡ (answer 200 nothing, t))
    × (lookup lib_zip_file_name t.disk ≡ some 7)
    × (t.published ≡ [] ++ (get (λ s. s) site.setup.config ∷ []))
    × (get_lib_handler seven (λ uri. uri) "/lib/" t ≡ elim (seven.opened 7) [
      | none ↦ get_lib_handler seven (λ uri. uri) "/lib/" site
      | some fs ↦ whole_archive (some 7)
    ])
lib_handler_lem_example =
    lib_handler_lem seven (λ s. s) (λ uri. uri) "/lib/" upload 7 site refl refl refl
