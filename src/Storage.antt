-- ===== src/Storage.antt =====
-- localstorage/localstorage.go: texts under keys of one bucket of the database.
-- Go's `[]byte(value)` and `string(item)` convert between texts and what the database stores.
pub mod Laws
use blank_sr.Base.{String, Option, none, some, ap}
use blank_sr.Database.{Database, Error}

abbrev pub bucket : String
bucket = "_localStorage"

pub record Text (Bytes : Type 0) : Type 0 where
  pub bytes : String → Bytes
  pub text : Bytes → String

module _ (D : Database) (T : Text D.Bytes) where
  -- `GetItem`, with `none` for nil.
  unfoldable pub get_item : String → D.Db → Option String
  get_item id d = elim (D.get bucket id d) [ none ↦ none | some item ↦ some (T.text item) ]

  -- `SetItem`
  unfoldable pub set_item : String → String → D.Db → Option Error × D.Db
  set_item id value d = D.save bucket id (T.bytes value) d

  -- `RemoveItem`, which ignores the error.
  unfoldable pub remove_item : String → D.Db → D.Db
  remove_item id d = (D.delete bucket id d).1

  -- `clear`, which `Clear` starts as a goroutine. An error is logged.
  unfoldable pub clear : D.Db → D.Db
  clear d = (D.delete_bucket bucket d).1
