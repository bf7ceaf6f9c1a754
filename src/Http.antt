-- ===== src/Http.antt =====
-- main.go: the HTTP routes, those for the archives of libraries and assets.
-- archive/zip with zipfs, and vfs.ReadFile, are parameters.
pub mod Configuration
pub mod Laws
use blank_sr.Base.{
  ℕ, String, ◌<>◌, Bool, true, false, ◌&&◌, Option, none, some, List, [], ◌∷◌, ◌++◌, ◌==◌,
  if◌then◌else◌, string_eq, nat_eq,
}
use blank_sr.Base.Map.{Map, lookup, insert}
use blank_sr.Config.Props.{Floats}
use blank_sr.Config.Getters.{get}
use blank_sr.Config.Reload.{Json, Package, Outcome, and_then, done, reload_config}
use blank_sr.Config.Stores.{Store, Stores, MigrationTask}
use Prim.Native.Char.{code}
use Prim.Native.String as Text

abbrev pub lib_zip_file_name : String
lib_zip_file_name = "lib.zip"

abbrev pub assets_zip_file_name : String
assets_zip_file_name = "assets.zip"

-- An answer: its status, the file name in the header Content-Disposition, and its body.
pub data Body (B : Type 0) : Type 0 where
  nothing : Body B
  text : String → Body B
  bytes : B → Body B

pub record Response (B : Type 0) : Type 0 where
  pub status : ℕ
  pub disposition : Option String
  pub body : Body B

abbrev pub answer : {B : Type 0} → ℕ → Body B → Response B
answer status body = record { status = status; disposition = none; body = body }

-- What the request's body gives and how the disk takes it: `none` is a body that cannot be read;
-- `creates` and `copies` say whether the file can be made and written, and `partial` is what stands
-- in it if it cannot be written.
pub record Upload (B : Type 0) : Type 0 where
  pub body : Option B
  pub creates : Bool
  pub copies : Bool
  pub partial : B

-- The archives that are served, the files on the disk, and what was published under "config".
pub record Site (F R B Fs : Type 0) : Type 0 where
  pub lib_fs : Option Fs
  pub lib_zip : Option B
  pub assets_fs : Option Fs
  pub disk : Map String B
  pub setup : Package F R B
  pub published : List (Stores F R)

-- `zip.NewReader` with `zipfs.New`, and `vfs.ReadFile` with its error.
pub data Read (B : Type 0) : Type 0 where
  read : B → Read B
  unreadable : String → Read B

pub record Archives (B Fs : Type 0) : Type 0 where
  pub opened : B → Option Fs
  pub read_file : Fs → String → Read B

-- `strings.TrimPrefix`, on the prefix: `none` where the text does not begin with it.
unfoldable pub after_prefix : String → String → Option String
after_prefix Text.[] s = some s
after_prefix (Text.◌∷◌ p ps) Text.[] = none
after_prefix (Text.◌∷◌ p ps) (Text.◌∷◌ c s) =
    let rest = after_prefix ps s in if code p == code c then rest else none

unfoldable pub trim_prefix : String → String → String
unfolding after_prefix
trim_prefix s prefix = elim (after_prefix prefix s) [ none ↦ s | some rest ↦ rest ]

abbrev pub found_in : {B : Type 0} → String → Read B → Response B
found_in name (read b) = record { status = 200; disposition = some name; body = bytes b }
found_in name (unreadable e) = record {
  status = 404;
  disposition = some name;
  body = text "file not found";
}

-- A nil `libZip` is copied to an empty body.
abbrev pub whole_archive : {B : Type 0} → Option B → Response B
whole_archive none = record { status = 200; disposition = some "lib.zip"; body = nothing }
whole_archive (some lib) = record { status = 200; disposition = some "lib.zip"; body = bytes lib }

abbrev pub asset_in : {B : Type 0} → Read B → Response B
asset_in (read b) = answer 200 (bytes b)
asset_in (unreadable e) = answer 404 (text e)

module _ {F R B Fs : Type 0} (zips : Archives B Fs) where
  abbrev pub opened_lib : B → Option Fs → Site F R B Fs → Site F R B Fs
  opened_lib lib none s = s
  opened_lib lib (some fs) s = record s { lib_fs = some fs; lib_zip = some lib }

  abbrev pub lib_from : Option B → Site F R B Fs → Site F R B Fs
  lib_from none s = s
  lib_from (some lib) s = opened_lib lib (zips.opened lib) s

  -- `makeLibFS`
  unfoldable pub make_lib_fs : Site F R B Fs → Site F R B Fs
  make_lib_fs s = lib_from (lookup lib_zip_file_name s.disk) s

  abbrev pub opened_assets : Option Fs → Site F R B Fs → Site F R B Fs
  opened_assets none s = s
  opened_assets (some fs) s = record s { assets_fs = some fs }

  -- `makeAssetsFS`
  unfoldable pub make_assets_fs : Site F R B Fs → Site F R B Fs
  make_assets_fs s = elim (lookup assets_zip_file_name s.disk) [
    | none ↦ s
    | some lib ↦ opened_assets (zips.opened lib) s
  ]

  -- `configHandler` of handlers.go.
  unfoldable pub config_handler : (Store F R → Store F R) → Site F R B Fs → Stores F R
  unfolding get
  config_handler copy s = get copy s.setup.config

  -- `postLibHandler`, with whether it returns nil: `os.Create` empties the file, and the
  -- configuration is published for either archive. `copy` is that of
  -- `config.Get`.
  unfoldable pub post_lib_handler :
      (Store F R → Store F R)
      → String
      → Upload B
      → Site F R B Fs
      → Bool × Response B × Site F R B Fs
  unfolding get
  post_lib_handler copy name up s = elim up.body [
    | none ↦ (false, answer 500 (text "can't read file"), s)
    | some b ↦
        if up.creates
        then if up.copies
          then (
            true,
            answer 200 nothing,
            record s {
              disk = insert name b s.disk;
              published = s.published ++ (get copy s.setup.config ∷ []);
            },
          )
          else (
            false,
            answer 500 (text "can't write file"),
            record s { disk = insert name up.partial s.disk },
          )
        else (false, answer 500 (text "can't create file"), s)
  ]

  -- `getLibHandler`. `base` is `filepath.Base`.
  unfoldable pub get_lib_handler : (String → String) → String → Site F R B Fs → Response B
  unfolding trim_prefix
  get_lib_handler base uri s = elim s.lib_fs [
    | none ↦ answer 404 (text "file not found")
    | some fs ↦
        if uri == "/lib/"
        then whole_archive s.lib_zip
        else found_in (base uri) (zips.read_file fs (trim_prefix uri "/lib"))
  ]

  -- `getAssetsHandler`
  unfoldable pub get_assets_handler : String → Site F R B Fs → Response B
  unfolding trim_prefix
  get_assets_handler uri s = elim s.assets_fs [
    | none ↦ answer 404 (text "file not found")
    | some fs ↦ asset_in (zips.read_file fs (trim_prefix uri "/assets"))
  ]

  abbrev pub then_make :
      (Site F R B Fs → Site F R B Fs)
      → Bool × Response B × Site F R B Fs
      → Response B × Site F R B Fs
  then_make make (ok, r, t) = (r, if ok then make t else t)

  -- `libHandler`
  unfoldable pub lib_handler :
      (Store F R → Store F R)
      → (String → String)
      → String
      → String
      → Upload B
      → Site F R B Fs
      → Response B × Site F R B Fs
  unfolding make_lib_fs post_lib_handler get_lib_handler
  lib_handler copy base method uri up s =
      if method == "POST"
      then then_make make_lib_fs (post_lib_handler copy lib_zip_file_name up s)
      else if method == "GET"
      then (get_lib_handler base uri s, s)
      else (answer 400 (text "Only GET and POST request is allowed"), s)

  -- `assetsHandler`
  unfoldable pub assets_handler :
      (Store F R → Store F R)
      → String
      → String
      → Upload B
      → Site F R B Fs
      → Response B × Site F R B Fs
  unfolding make_assets_fs post_lib_handler get_assets_handler
  assets_handler copy method uri up s =
      if method == "POST"
      then then_make make_assets_fs (post_lib_handler copy assets_zip_file_name up s)
      else if method == "GET"
      then (get_assets_handler uri s, s)
      else (answer 400 (text "Only GET and POST request is allowed"), s)

-- `publicKeyHandler`
unfoldable pub public_key_handler : {B : Type 0} → B → String → Response B
public_key_handler key method =
    if method == "GET"
    then answer 200 (bytes key)
    else answer 400 (text "Only GET request is allowed")
