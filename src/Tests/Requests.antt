-- ===== src/Tests/Requests.antt =====
-- main.go: an upload, and a POST of a nil map, and the server is started again.
use blank_sr.Base.{ℕ, ◌≡◌, refl, true, none, some, [], ◌∷◌, string_eq, nat_eq}
use blank_sr.Base.Map.{lookup, insert}
use blank_sr.Config.Reload.{Json, Package, done}
use blank_sr.Http.{
  Site, lib_zip_file_name, get_lib_handler, answer, nothing, lib_handler, post_lib_handler,
  make_lib_fs, make_assets_fs,
}
use blank_sr.Http.Configuration.{undecodable}
use blank_sr.Main.Served.{begun, request, restart_serves_libs}
use blank_sr.Main.Server.{Request, to_lib, open_site, serve}
use blank_sr.Tests.Configs.{nats, same_order}
use blank_sr.Tests.Settings.{started, two_hours}
use blank_sr.Tests.Uploads.{seven, upload}

abbrev site : Site ℕ ℕ ℕ ℕ
site = open_site seven started []

abbrev post : Request ℕ ℕ ℕ
post = record {
  method = "POST";
  uri = "/lib/";
  body = upload;
  conf = undecodable "no JSON";
  writable = true;
}

abbrev uploaded : Site ℕ ℕ ℕ ℕ
uploaded = (lib_handler seven (λ s. s) (λ uri. uri) "POST" "/lib/" upload site).1

taken :
    serve seven (λ s. s) two_hours nats 0 same_order (λ name. none) (λ uri. uri) 9 to_lib post site
    ≡ done (answer 200 nothing, uploaded)
unfolding serve lib_handler post_lib_handler string_eq
taken = refl

on_disk : lookup lib_zip_file_name uploaded.disk ≡ some 7
unfolding lib_handler post_lib_handler make_lib_fs make_assets_fs open_site lookup insert string_eq
    nat_eq
on_disk = refl

opens : seven.opened 7 ≡ some 7
unfolding nat_eq
opens = refl

truncated : seven.opened 0 ≡ none
unfolding nat_eq
truncated = refl

restart_serves_libs_example :
    get_lib_handler seven (λ uri. uri) "/lib/" (open_site seven started uploaded.disk)
    ≡ get_lib_handler seven (λ uri. uri) "/lib/" uploaded
restart_serves_libs_example =
    restart_serves_libs seven (λ s. s) two_hours nats 0 same_order (λ name. none) (λ uri. uri) 9
      started started [] (request to_lib post (answer 200 nothing) begun truncated taken) 7 7
      "/lib/" opens on_disk

-- The text 1 is that of the nil map.
abbrev with_null : Json ℕ ℕ ℕ
with_null = record two_hours {
  marshal_conf = λ conf. elim conf [ none ↦ some 1 | some stores ↦ some 0 ];
  unmarshal_conf = λ b. some none;
}

abbrev provided_package : Package ℕ ℕ ℕ
provided_package = record started { providers = "mongo" ∷ [] }

abbrev provided_site : Site ℕ ℕ ℕ ℕ
provided_site = open_site seven provided_package []
