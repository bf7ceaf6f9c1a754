-- ===== src/Main/Posts.antt =====
-- Each upload keeps the archives that are served in step with the files.
use blank_sr.Base.{
  ◌≡◌, ◌≢◌, ◌∙◌, refl, sym, String, Bool, true, false, none, ◌==◌, if◌then◌else◌, string_eq,
}
use blank_sr.Config.Stores.{Store}
use blank_sr.Http.{
  Site, Response, Upload, Archives, lib_zip_file_name, assets_zip_file_name, make_lib_fs,
  make_assets_fs, post_lib_handler, then_make, lib_handler, assets_handler, get_lib_handler,
  get_assets_handler, answer, text,
}
use blank_sr.Main.Uploads.{
  InStep, LibInStep, AssetsInStep, Posted, posted, make_lib-lib, make_lib-assets,
  make_assets_InStep,
}

names_differ : lib_zip_file_name ≢ assets_zip_file_name
names_differ e = cc

module _ {F R B Fs : Type 0} (zips : Archives B Fs) where
  -- The part of the other archive, through an upload.
  assets_kept :
      (s : Site F R B Fs) (r : Bool × Response B × Site F R B Fs)
      → Posted zips lib_zip_file_name s r
      → InStep zips s
      → AssetsInStep zips r.2
  assets_kept s r p v b fs h k =
      p.assets_fs ∙ v.assets b fs (sym (p.other assets_zip_file_name names_differ) ∙ h) k

  lib_kept :
      (s : Site F R B Fs) (r : Bool × Response B × Site F R B Fs)
      → Posted zips assets_zip_file_name s r
      → InStep zips s
      → LibInStep zips r.2
  lib_kept s r p v b fs h k =
      let (zip, open') =
        v.lib b fs (sym (p.other lib_zip_file_name (λ e. names_differ (sym e))) ∙ h) k in
      (p.lib_zip ∙ zip, p.lib_fs ∙ open')

  made_lib :
      (s : Site F R B Fs) (r : Bool × Response B × Site F R B Fs)
      → Posted zips lib_zip_file_name s r
      → InStep zips s
      → InStep zips (then_make zips (make_lib_fs zips) r).1
  made_lib s (true, a, t) p v = record {
    lib = make_lib-lib zips t;
    assets = make_lib-assets zips t (assets_kept s (true, a, t) p v);
  }
  made_lib s (false, a, t) p v = record {
    lib = λ b fs h k.
        let (zip, open') = v.lib b fs (p.failed refl b fs h k) k in
        (p.lib_zip ∙ zip, p.lib_fs ∙ open');
    assets = assets_kept s (false, a, t) p v;
  }

  made_assets :
      (s : Site F R B Fs) (r : Bool × Response B × Site F R B Fs)
      → Posted zips assets_zip_file_name s r
      → InStep zips s
      → InStep zips (then_make zips (make_assets_fs zips) r).1
  made_assets s (true, a, t) p v = make_assets_InStep zips t (lib_kept s (true, a, t) p v)
  made_assets s (false, a, t) p v = record {
    lib = lib_kept s (false, a, t) p v;
    assets = λ b fs h k. p.assets_fs ∙ v.assets b fs (p.failed refl b fs h k) k;
  }

  module _ (copy : Store F R → Store F R) where
    pub lib_handler-InStep :
        (base : String → String) (method uri : String) (up : Upload B) (s : Site F R B Fs)
        → zips.opened up.partial ≡ none
        → InStep zips s
        → InStep zips (lib_handler zips copy base method uri up s).1
    unfolding lib_handler
    lib_handler-InStep base method uri up s cut v = go (method == "POST") (method == "GET")
      where
        go :
            (post read : Bool)
            → InStep zips
                (if post
                  then then_make zips
                      (make_lib_fs zips)
                      (post_lib_handler zips copy lib_zip_file_name up s)
                  else if read
                  then (get_lib_handler zips base uri s, s)
                  else (answer 400 (text "Only GET and POST request is allowed"), s)).1
        go true read = made_lib s _ (posted zips copy lib_zip_file_name up s cut) v
        go false true = v
        go false false = v

    pub assets_handler-InStep :
        (method uri : String) (up : Upload B) (s : Site F R B Fs)
        → zips.opened up.partial ≡ none
        → InStep zips s
        → InStep zips (assets_handler zips copy method uri up s).1
    unfolding assets_handler
    assets_handler-InStep method uri up s cut v = go (method == "POST") (method == "GET")
      where
        go :
            (post read : Bool)
            → InStep zips
                (if post
                  then then_make zips
                      (make_assets_fs zips)
                      (post_lib_handler zips copy assets_zip_file_name up s)
                  else if read
                  then (get_assets_handler zips uri s, s)
                  else (answer 400 (text "Only GET and POST request is allowed"), s)).1
        go true read = made_assets s _ (posted zips copy assets_zip_file_name up s cut) v
        go false true = v
        go false false = v
