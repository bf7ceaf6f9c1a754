-- ===== src/Main/Uploads.antt =====
-- The archives that the server has against the files on the disk.
use blank_sr.Base.{
  ◌≡◌, ◌≢◌, ◌∙◌, refl, String, Bool, true, false, Option, none, some, [], ◌∷◌, ◌++◌, if◌then◌else◌,
  string_eq, arith,
}
use blank_sr.Base.Map.{Map, lookup, insert, lookup-insert}
use blank_sr.Config.Getters.{get}
use blank_sr.Config.Reload.{Package}
use blank_sr.Config.Stores.{Store}
use blank_sr.Main.Server.{closed_site, open_site}
use blank_sr.Http.{
  Site, Response, Upload, Archives, lib_zip_file_name, assets_zip_file_name, opened_lib, lib_from,
  opened_assets, make_lib_fs, make_assets_fs, post_lib_handler, answer, nothing, text,
}

module _ {B Fs : Type 0} (opened : B → Option Fs) where
  unopened :
      (lib b : B) (fs : Fs) (o : Option B)
      → opened lib ≡ none
      → o ≡ some lib
      → o ≡ some b
      → opened b ≡ some fs
      → ⊥
  unopened lib b fs o e at h k = cc

  opened_same :
      (lib b : B) (gs fs : Fs) (o : Option B)
      → opened lib ≡ some gs
      → o ≡ some lib
      → o ≡ some b
      → opened b ≡ some fs
      → (some lib ≡ some b) × (some gs ≡ some fs)
  opened_same lib b gs fs o e at h k = (cc, cc)

module _ {F R B Fs : Type 0} (zips : Archives B Fs) where
  -- If the file on the disk is an archive, it is the one that is served.
  abbrev pub LibInStep : Site F R B Fs → Type 0
  LibInStep s =
      (b : B) (fs : Fs)
      → lookup lib_zip_file_name s.disk ≡ some b
      → zips.opened b ≡ some fs
      → (s.lib_zip ≡ some b) × (s.lib_fs ≡ some fs)

  abbrev pub AssetsInStep : Site F R B Fs → Type 0
  AssetsInStep s =
      (b : B) (fs : Fs)
      → lookup assets_zip_file_name s.disk ≡ some b
      → zips.opened b ≡ some fs
      → s.assets_fs ≡ some fs

  pub record InStep (s : Site F R B Fs) : Type 0 where
    pub lib : LibInStep s
    pub assets : AssetsInStep s

  opened_lib-lib :
      (lib : B) (o : Option Fs) (s : Site F R B Fs)
      → zips.opened lib ≡ o
      → lookup lib_zip_file_name s.disk ≡ some lib
      → LibInStep (opened_lib zips lib o s)
  opened_lib-lib lib none s e at b fs h k =
      absurd (unopened zips.opened lib b fs (lookup lib_zip_file_name s.disk) e at h k)
  opened_lib-lib lib (some gs) s e at b fs h k =
      opened_same zips.opened lib b gs fs (lookup lib_zip_file_name s.disk) e at h k

  pub make_lib-lib : (s : Site F R B Fs) → LibInStep (make_lib_fs zips s)
  unfolding make_lib_fs
  make_lib-lib s = go (lookup lib_zip_file_name s.disk) refl
    where
      go : (o : Option B) → lookup lib_zip_file_name s.disk ≡ o → LibInStep (lib_from zips o s)
      go none e = λ b fs h k. cc
      go (some lib) e = opened_lib-lib lib (zips.opened lib) s refl e

  opened_lib-assets :
      (lib : B) (o : Option Fs) (s : Site F R B Fs)
      → AssetsInStep s
      → AssetsInStep (opened_lib zips lib o s)
  opened_lib-assets lib none s v = v
  opened_lib-assets lib (some gs) s v = v

  pub make_lib-assets : (s : Site F R B Fs) → AssetsInStep s → AssetsInStep (make_lib_fs zips s)
  unfolding make_lib_fs
  make_lib-assets s v = go (lookup lib_zip_file_name s.disk)
    where
      go : (o : Option B) → AssetsInStep (lib_from zips o s)
      go none = v
      go (some lib) = opened_lib-assets lib (zips.opened lib) s v

  opened_assets-lib :
      (o : Option Fs) (s : Site F R B Fs) → LibInStep s → LibInStep (opened_assets zips o s)
  opened_assets-lib none s v = v
  opened_assets-lib (some gs) s v = v

  opened_assets-assets :
      (lib : B) (o : Option Fs) (s : Site F R B Fs)
      → zips.opened lib ≡ o
      → lookup assets_zip_file_name s.disk ≡ some lib
      → AssetsInStep (opened_assets zips o s)
  opened_assets-assets lib none s e at b fs h k =
      absurd (unopened zips.opened lib b fs (lookup assets_zip_file_name s.disk) e at h k)
  opened_assets-assets lib (some gs) s e at b fs h k =
      (opened_same zips.opened lib b gs fs (lookup assets_zip_file_name s.disk) e at h k).1

  pub make_assets_InStep : (s : Site F R B Fs) → LibInStep s → InStep (make_assets_fs zips s)
  unfolding make_assets_fs
  make_assets_InStep s v = go (lookup assets_zip_file_name s.disk) refl
    where
      go :
          (o : Option B)
          → lookup assets_zip_file_name s.disk ≡ o
          → InStep (elim o [ none ↦ s | some lib ↦ opened_assets zips (zips.opened lib) s ])
      go none e = record { lib = v; assets = λ b fs h k. cc }
      go (some lib) e = record {
        lib = opened_assets-lib (zips.opened lib) s v;
        assets = opened_assets-assets lib (zips.opened lib) s refl e;
      }

  pub open_site-InStep :
      (setup : Package F R B) (disk : Map String B) → InStep (open_site zips setup disk)
  unfolding open_site
  open_site-InStep setup disk =
      make_assets_InStep (make_lib_fs zips (closed_site zips setup disk)) (make_lib-lib _)

  opened_lib-disk :
      (lib : B) (o : Option Fs) (s : Site F R B Fs) → (opened_lib zips lib o s).disk ≡ s.disk
  opened_lib-disk lib none s = refl
  opened_lib-disk lib (some fs) s = refl

  make_lib-disk : (s : Site F R B Fs) → (make_lib_fs zips s).disk ≡ s.disk
  unfolding make_lib_fs
  make_lib-disk s = go (lookup lib_zip_file_name s.disk)
    where
      go : (o : Option B) → (lib_from zips o s).disk ≡ s.disk
      go none = refl
      go (some lib) = opened_lib-disk lib (zips.opened lib) s

  abbrev files : Site F R B Fs → Map String B
  files s = s.disk

  opened_assets-disk : (o : Option Fs) (s : Site F R B Fs) → (opened_assets zips o s).disk ≡ s.disk
  opened_assets-disk none s = refl
  opened_assets-disk (some fs) s = refl

  make_assets-disk : (s : Site F R B Fs) → (make_assets_fs zips s).disk ≡ s.disk
  unfolding make_assets_fs
  make_assets-disk s = go (lookup assets_zip_file_name s.disk)
    where
      go :
          (o : Option B)
          → files (elim o [ none ↦ s | some lib ↦ opened_assets zips (zips.opened lib) s ]) ≡ s.disk
      go none = refl
      go (some lib) = opened_assets-disk (zips.opened lib) s

  pub open_site-disk :
      (setup : Package F R B) (disk : Map String B) → (open_site zips setup disk).disk ≡ disk
  unfolding open_site
  open_site-disk setup disk =
      make_assets-disk (make_lib_fs zips (closed_site zips setup disk))
      ∙ make_lib-disk (closed_site zips setup disk)

  -- What an upload does to the site: another file keeps what it held, and a file that was not
  -- written to its end is no archive.
  pub record Posted (name : String) (s : Site F R B Fs) (r : Bool × Response B × Site F R B Fs)
      : Type 0 where
    pub lib_fs : r.2.lib_fs ≡ s.lib_fs
    pub lib_zip : r.2.lib_zip ≡ s.lib_zip
    pub assets_fs : r.2.assets_fs ≡ s.assets_fs
    pub other : (j : String) → name ≢ j → lookup j r.2.disk ≡ lookup j s.disk
    pub failed :
        r.0 ≡ false
        → (b : B) (fs : Fs) → lookup name r.2.disk ≡ some b
        → zips.opened b ≡ some fs
        → lookup name s.disk ≡ some b

  pub posted :
      (copy : Store F R → Store F R) (name : String) (up : Upload B) (s : Site F R B Fs)
      → zips.opened up.partial ≡ none
      → Posted name s (post_lib_handler zips copy name up s)
  unfolding post_lib_handler
  posted copy name up s cut = go up.body up.creates up.copies
    where
      unchanged : (r : Response B) → Posted name s (false, r, s)
      unchanged r = record {
        lib_fs = refl;
        lib_zip = refl;
        assets_fs = refl;
        other = λ j ne. refl;
        failed = λ no b fs h k. h;
      }

      others : (b : B) (j : String) → name ≢ j → lookup j (insert name b s.disk) ≡ lookup j s.disk
      others b j ne = ground (arith, lookup-insert name j b s.disk)

      go :
          (o : Option B) (creates copies : Bool)
          → Posted name s (elim o [
            | none ↦ (false, answer 500 (text "can't read file"), s)
            | some b ↦
                if creates
                then if copies
                  then (
                    true,
                    answer 200 nothing,
                    record s {
                      disk = insert name b s.disk;
                      published = s.published ++ (get copy s.setup.config ∷ []);
                    },
                  )
                  else (
                    false,
                    answer 500 (text "can't write file"),
                    record s { disk = insert name up.partial s.disk },
                  )
                else (false, answer 500 (text "can't create file"), s)
          ])
      go none creates copies = unchanged _
      go (some b) false copies = unchanged _
      go (some b) true true = record {
        lib_fs = refl;
        lib_zip = refl;
        assets_fs = refl;
        other = others b;
        failed = λ no. cc;
      }
      go (some b) true false = record {
        lib_fs = refl;
        lib_zip = refl;
        assets_fs = refl;
        other = others up.partial;
        failed = λ no b fs h k. absurd (
            unopened zips.opened up.partial b fs (lookup name (insert name up.partial s.disk)) cut
              (ground (arith, lookup-insert name name up.partial s.disk)) h k);
      }
