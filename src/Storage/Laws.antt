-- ===== src/Storage/Laws.antt =====
-- The local storage as a map, beside the sessions in the same database.
use blank_sr.Base.{◌≡◌, ◌≢◌, String, none, some, arith, ◌==◌, if◌then◌else◌, string_eq}
use blank_sr.Database.{Database, IsLawful}
use blank_sr.Sessions.Data
use blank_sr.Sessions.Data.{Store, Codec}
use blank_sr.Sessions.Invariant.{Inv}
use blank_sr.Storage.{Text, bucket, get_item, set_item, remove_item, clear}

buckets_differ : bucket ≢ Data.bucket
buckets_differ e = cc

module _ (D : Database) (L : IsLawful D) (T : Text D.Bytes) where
  -- The local storage is a map from keys to texts, if the conversion of texts loses nothing and the
  -- key is one that the database takes: `SetItem` binds one key, `RemoveItem` frees one, and
  -- `Clear` frees all, once its goroutine has run.
  pub storage_is_map :
      ((s : String) → T.text (T.bytes s) ≡ s)
      → (id value j : String) (d : D.Db) → L.IsKey id
      → (get_item D T j (set_item D T id value d).1
          ≡ (if id == j then some value else get_item D T j d))
        × (get_item D T j (remove_item D T id d) ≡ (if id == j then none else get_item D T j d))
        × (get_item D T j (clear D T d) ≡ none)
  unfolding get_item set_item remove_item clear
  storage_is_map loses id value j d key = (
    ground (arith, L.get-save bucket id (T.bytes value) d bucket j L.items key, loses value),
    ground (arith, L.get-delete bucket id d bucket j),
    ground (arith, L.get-delete_bucket bucket d bucket j),
  )

  -- No operation of the local storage touches a session's record.
  saved_apart :
      (id value j : String) (d : D.Db)
      → L.IsKey id
      → D.get Data.bucket j (set_item D T id value d).1 ≡ D.get Data.bucket j d
  unfolding set_item
  saved_apart id value j d key =
      ground
        (arith, L.get-save bucket id (T.bytes value) d Data.bucket j L.items key, buckets_differ)

  pub removed_apart :
      (id : String) (d : D.Db) (j : String)
      → D.get Data.bucket j (remove_item D T id d) ≡ D.get Data.bucket j d
  unfolding remove_item
  removed_apart id d j = ground (arith, L.get-delete bucket id d Data.bucket j, buckets_differ)

  pub cleared_apart :
      (d : D.Db) (j : String) → D.get Data.bucket j (clear D T d) ≡ D.get Data.bucket j d
  unfolding clear
  cleared_apart d j = ground (arith, L.get-delete_bucket bucket d Data.bucket j, buckets_differ)

  module _ {F : Type 0} (C : Codec F D.Bytes) where
    pub moved-Inv :
        (s : Store F D.Db) (d : D.Db)
        → ((j : String) → D.get Data.bucket j d ≡ D.get Data.bucket j s.db)
        → Inv D C L s
        → Inv D C L (record s { db = d })
    moved-Inv s d same v = record {
      keyed = v.keyed;
      allocated = v.allocated;
      storable = v.storable;
      stored = λ k p e.
          let q = v.stored k p e in
          record {
            bytes = q.bytes;
            found = rw (same k) q.found;
            read = q.read;
            decoded = q.decoded;
            kept = q.kept;
            undated = q.undated;
          };
      gone = λ k e. rw (same k) (v.gone k e);
      waiting = v.waiting;
    }

    -- The calls on the local storage keep each session in memory and in the database as it is, for
    -- keys that the database takes.
    pub storage_keeps_sessions :
        (id value : String) (s : Store F D.Db)
        → L.IsKey id
        → Inv D C L s
        → Inv D C L (record s { db = (set_item D T id value s.db).1 })
          × Inv D C L (record s { db = remove_item D T id s.db })
          × Inv D C L (record s { db = clear D T s.db })
    storage_keeps_sessions id value s key v = (
      moved-Inv s _ (λ j. saved_apart id value j s.db key) v,
      moved-Inv s _ (removed_apart id s.db) v,
      moved-Inv s _ (cleared_apart s.db) v,
    )
