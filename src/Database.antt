-- ===== src/Database.antt =====
-- What the session store and the local storage ask of bdb.DB, as operations and laws.
use blank_sr.Base.{◌≡◌, String, Option, none, some, List, [], ◌∷◌, ◌&&◌}
use blank_sr.Base.{◌==◌, if◌then◌else◌, string_eq, or_else}
use blank_sr.Base.Map.{Map, lookup}
use blank_sr.Base.{string_eq}

pub data Error : Type 0 where
  not_found wrong_data : Error
  -- An error of the file system, of Bolt or of an encoder.
  other : String → Error

pub record Database : Type 1 where
  pub Db : Type 0
  -- What is stored under a key, `[]byte` in the code.
  pub Bytes : Type 0
  -- `Save` of encoded bytes under a bucket and a key.
  pub save : String → String → Bytes → Db → Option Error × Db
  pub delete : String → String → Db → Option Error × Db
  pub delete_bucket : String → Db → Option Error × Db
  pub get : String → String → Db → Option Bytes
  pub get_all : String → Db → Option (List Bytes)

abbrev pub values : {B : Type 0} → Map String B → List B
values [] = []
values ((k, v) ∷ m) = v ∷ values m

-- The keys of an association list are distinct.
abbrev pub NodupKeys : {B : Type 0} → Map String B → Type 0
NodupKeys [] = Unit {0}
NodupKeys ((k, v) ∷ m) = (lookup k m ≡ none) × NodupKeys m

-- What the clients rely on, for keys and buckets that Bolt takes and while no I/O fails. A missing bucket reads
-- like an empty one.
pub record IsLawful (D : Database) : Type 1 where
  pub IsKey : String → Type 0
  pub IsBucket : String → Type 0
  -- The buckets of the clients.
  pub sessions : IsBucket "__sessions"
  pub items : IsBucket "_localStorage"
  pub get-save :
      (b k : String) (v : D.Bytes) (d : D.Db) (c j : String)
      → IsBucket b
      → IsKey k
      → D.get c j (D.save b k v d).1 ≡ (if b == c && k == j then some v else D.get c j d)
  pub get-delete :
      (b k : String) (d : D.Db) (c j : String)
      → D.get c j (D.delete b k d).1 ≡ (if b == c && k == j then none else D.get c j d)
  pub get-delete_bucket :
      (b : String) (d : D.Db) (c j : String)
      → D.get c j (D.delete_bucket b d).1 ≡ (if b == c then none else D.get c j d)
  pub listing :
      (b : String) (d : D.Db)
      → (m : Map String D.Bytes) × NodupKeys m
        × ((k : String) → lookup k m ≡ D.get b k d)
        × (or_else (D.get_all b d) [] ≡ values m)
