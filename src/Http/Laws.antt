-- ===== src/Http/Laws.antt =====
-- What an upload of an archive changes.
use blank_sr.Base.{
  ◌≡◌, ◌∙◌, ap, refl, String, true, Option, none, some, [], ◌∷◌, ◌++◌, string_eq, arith,
}
use blank_sr.Base.Map.{lookup, insert, lookup-insert}
use blank_sr.Config.Getters.{get}
use blank_sr.Config.Stores.{Store}
use blank_sr.Http.{
  Site, Upload, Archives, answer, nothing, lib_zip_file_name, opened_lib, lib_from, make_lib_fs,
  post_lib_handler, get_lib_handler, whole_archive, then_make, lib_handler,
}

module _ {F R B Fs : Type 0} (zips : Archives B Fs) (copy : Store F R → Store F R)
    (base : String → String) where
  -- The site with a file written and the configuration published.
  abbrev stored : String → B → Site F R B Fs → Site F R B Fs
  stored name b s = record s {
    disk = insert name b s.disk;
    published = s.published ++ (get copy s.setup.config ∷ []);
  }

  post_lib_handler-taken :
      (name : String) (up : Upload B) (b : B) (s : Site F R B Fs)
      → up.body ≡ some b
      → up.creates ≡ true
      → up.copies ≡ true
      → post_lib_handler zips copy name up s ≡ (true, answer 200 nothing, stored name b s)
  unfolding post_lib_handler
  post_lib_handler-taken name up b s h c w = rw (h, c, w) refl

  lookup-stored :
      (name : String) (b : B) (s : Site F R B Fs) → lookup name (stored name b s).disk ≡ some b
  lookup-stored name b s = lookup-insert name name b s.disk ∙ ground arith

  make_lib_fs-stored :
      (b : B) (s : Site F R B Fs)
      → make_lib_fs zips (stored lib_zip_file_name b s)
        ≡ opened_lib zips b (zips.opened b) (stored lib_zip_file_name b s)
  unfolding make_lib_fs
  make_lib_fs-stored b s =
      ap (λ o. lib_from zips o (stored lib_zip_file_name b s)) (lookup-stored lib_zip_file_name b s)

  lib_handler-post :
      (uri : String) (up : Upload B) (s : Site F R B Fs)
      → lib_handler zips copy base "POST" uri up s
        ≡ then_make zips (make_lib_fs zips) (post_lib_handler zips copy lib_zip_file_name up s)
  unfolding lib_handler
  lib_handler-post uri up s = ground arith

  opened_lib-kept :
      (b : B) (o : Option Fs) (s : Site F R B Fs)
      → ((opened_lib zips b o s).disk ≡ s.disk) × ((opened_lib zips b o s).published ≡ s.published)
  opened_lib-kept b none s = (refl, refl)
  opened_lib-kept b (some fs) s = (refl, refl)

  get_lib-opened :
      (b : B) (o : Option Fs) (s : Site F R B Fs)
      → get_lib_handler zips base "/lib/" (opened_lib zips b o (stored lib_zip_file_name b s))
        ≡ elim o [ none ↦ get_lib_handler zips base "/lib/" s | some fs ↦ whole_archive (some b) ]
  unfolding get_lib_handler
  get_lib-opened b none s = refl
  get_lib-opened b (some fs) s = ground arith

  -- An upload to "/lib/" that can be read and stored is answered with 200, whatever it holds: the
  -- file takes its place on the disk, and the configuration is published once. If it is an archive,
  -- "/lib/" serves it whole from then on, and otherwise what was served before.
  pub lib_handler_lem :
      (uri : String) (up : Upload B) (b : B) (s : Site F R B Fs)
      → up.body ≡ some b
      → up.creates ≡ true
      → up.copies ≡ true
      → (t : Site F R B Fs) × (lib_handler zips copy base "POST" uri up s ≡ (answer 200 nothing, t))
        × (lookup lib_zip_file_name t.disk ≡ some b)
        × (t.published ≡ s.published ++ (get copy s.setup.config ∷ []))
        × (get_lib_handler zips base "/lib/" t ≡ elim (zips.opened b) [
          | none ↦ get_lib_handler zips base "/lib/" s
          | some fs ↦ whole_archive (some b)
        ])
  lib_handler_lem uri up b s h c w =
      let u = stored lib_zip_file_name b s in
      let o = zips.opened b in
      (
        opened_lib zips b o u,
        lib_handler-post uri up s
            ∙ ap (then_make zips (make_lib_fs zips))
                (post_lib_handler-taken lib_zip_file_name up b s h c w)
            ∙ ap (λ t. (answer 200 nothing, t)) (make_lib_fs-stored b s),
        ap (lookup lib_zip_file_name) (opened_lib-kept b o u).0
            ∙ lookup-stored lib_zip_file_name b s,
        (opened_lib-kept b o u).1,
        get_lib-opened b o s,
      )
