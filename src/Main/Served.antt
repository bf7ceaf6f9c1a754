-- ===== src/Main/Served.antt =====
-- Requests keep the archives that are served in step with the files, so that a restart changes nothing.
use blank_sr.Base.{
  ◌≡◌, ◌∙◌, sym, ap, subst, String, Bool, true, false, Option, none, some, List, ◌==◌,
  if◌then◌else◌, string_eq,
}
use blank_sr.Base.Map.{Map, lookup}
use blank_sr.Config.Props.{Floats}
use blank_sr.Config.Reload.{Json, Package, Outcome, done, panicked, exited}
use blank_sr.Config.Stores.{Store, Stores, MigrationTask}
use blank_sr.Http.{
  Site, Response, Archives, lib_zip_file_name, assets_zip_file_name, get_lib_handler,
  get_assets_handler, answer, text,
}
use blank_sr.Http.Configuration.{
  Decoded, decoded, undecodable, after_reload, reloaded, post_config_handler,
}
use blank_sr.Main.Server.{
  Route, to_config, to_lib, to_assets, to_public_key, Request, serve, open_site,
}
use blank_sr.Main.Uploads.{InStep, open_site-InStep, open_site-disk}
use blank_sr.Main.Posts.{lib_handler-InStep, assets_handler-InStep}

module _ {F R B Fs : Type 0} (zips : Archives B Fs) (copy : Store F R → Store F R)
    (json : Json F R B) (fl : Floats F) (blank : R) (sort : List MigrationTask → List MigrationTask)
    (providers : String → Option (Stores F R)) (base : String → String) (public_key : B) where
  abbrev S : Type 0
  S = Site F R B Fs

  -- The site after a call that returns.
  abbrev after : S → Outcome (Response B × S) → S
  after s (done r) = r.1
  after s (panicked e) = s
  after s exited = s

  set_up-InStep :
      (writable : Bool) (conf : Option (Stores F R)) (o : Outcome (Package F R B)) (s : S)
      → InStep zips s
      → InStep zips (after s (after_reload json fl blank sort writable conf s o))
  set_up-InStep writable conf (done p) s v = record { lib = v.lib; assets = v.assets }
  set_up-InStep writable conf (panicked e) s v = record { lib = v.lib; assets = v.assets }
  set_up-InStep writable conf exited s v = v

  reloaded-InStep :
      (writable : Bool) (body : Decoded F R) (s : S)
      → InStep zips s
      → InStep zips (after s (reloaded json fl blank sort providers writable body s))
  reloaded-InStep writable (undecodable e) s v = v
  reloaded-InStep writable (decoded conf) s v = set_up-InStep writable conf _ s v

  config-InStep :
      (r : Request F R B) (s : S)
      → InStep zips s
      → InStep zips
          (after s (post_config_handler json fl blank sort providers r.writable r.method r.conf s))
  unfolding post_config_handler
  config-InStep r s v = go (r.method == "POST")
    where
      go :
          (post : Bool)
          → InStep zips (
              after s (
                if post
                then reloaded json fl blank sort providers r.writable r.conf s
                else done (answer 400 (text "Only POST request is allowed"), s)))
      go true = reloaded-InStep r.writable r.conf s v
      go false = v

  served-InStep :
      (route : Route) (r : Request F R B) (s : S)
      → zips.opened r.body.partial ≡ none
      → InStep zips s
      → InStep zips
          (after s (serve zips copy json fl blank sort providers base public_key route r s))
  unfolding serve
  served-InStep to_config r s cut v = config-InStep r s v
  served-InStep to_lib r s cut v = lib_handler-InStep zips copy base r.method r.uri r.body s cut v
  served-InStep to_assets r s cut v = assets_handler-InStep zips copy r.method r.uri r.body s cut v
  served-InStep to_public_key r s cut v = v

  -- What requests make of the site; one that panics or ends the program is not among them. A
  -- file that was not written to its end is no archive.
  pub data Requests (s : S) : S → Type 0 where
    begun : Requests s s
    request :
        {t u : S} (route : Route) (r : Request F R B) (a : Response B)
        → Requests s t
        → zips.opened r.body.partial ≡ none
        → serve zips copy json fl blank sort providers base public_key route r t ≡ done (a, u)
        → Requests s u

  Requests-InStep : {s t : S} → Requests s t → InStep zips s → InStep zips t
  Requests-InStep begun v = v
  Requests-InStep (request {t} route r a before cut h) v =
      subst (InStep zips) (ap (after t) h) (served-InStep route r t cut (Requests-InStep before v))

  get_lib-same :
      (s t : S) (uri : String)
      → s.lib_fs ≡ t.lib_fs
      → s.lib_zip ≡ t.lib_zip
      → get_lib_handler zips base uri s ≡ get_lib_handler zips base uri t
  unfolding get_lib_handler
  get_lib-same s t uri fs zip =
      ap (λ o. get_lib_handler zips base uri (record s { lib_fs = o })) fs
      ∙ ap (λ z. get_lib_handler zips base uri (record s { lib_fs = t.lib_fs; lib_zip = z })) zip

  get_assets-same :
      (s t : S) (uri : String)
      → s.assets_fs ≡ t.assets_fs
      → get_assets_handler zips uri s ≡ get_assets_handler zips uri t
  unfolding get_assets_handler
  get_assets-same s t uri fs = ap (λ o. get_assets_handler zips uri (record s { assets_fs = o })) fs

  module _ (setup after_setup : Package F R B) (disk : Map String B) {t : S}
      (reach : Requests (open_site zips setup disk) t) (b : B) (fs : Fs) (uri : String)
      (opens : zips.opened b ≡ some fs) where
    abbrev again : S
    again = open_site zips after_setup t.disk

    in_step : InStep zips t
    in_step = Requests-InStep reach (open_site-InStep zips setup disk)

    -- After any requests to the server since its start, if the file "lib.zip" on the disk is an
    -- archive, then every request for a library is answered as it would be if the server were
    -- started again, where a file that could not be written to its end is no archive.
    pub restart_serves_libs :
        lookup lib_zip_file_name t.disk ≡ some b
        → get_lib_handler zips base uri again ≡ get_lib_handler zips base uri t
    restart_serves_libs at =
        let (zip, open') = in_step.lib b fs at opens in
        let (zip', open'') =
          (open_site-InStep zips after_setup t.disk).lib b fs
            (ap (lookup lib_zip_file_name) (open_site-disk zips after_setup t.disk) ∙ at) opens in
        get_lib-same again t uri (open'' ∙ sym open') (zip' ∙ sym zip)

    -- The same for the assets.
    pub restart_serves_assets :
        lookup assets_zip_file_name t.disk ≡ some b
        → get_assets_handler zips uri again ≡ get_assets_handler zips uri t
    restart_serves_assets at = get_assets-same again t uri (
        (open_site-InStep zips after_setup t.disk).assets b fs
          (ap (lookup assets_zip_file_name) (open_site-disk zips after_setup t.disk) ∙ at) opens
        ∙ sym (in_step.assets b fs at opens))
