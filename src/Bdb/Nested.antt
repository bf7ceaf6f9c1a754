-- ===== src/Bdb/Nested.antt =====
-- bdb/bdb.go: `SaveInNested` and `DeleteNested`.
use blank_sr.Base.{
  String, Bool, true, ◌&&◌, Option, none, some, List, [], ◌∷◌, ◌++◌, ◌==◌, if◌then◌else◌, nat_eq,
  length, ltb,
}
use blank_sr.Bdb.Bolt.{Bolt, Encoded, encoded, unencodable, update, update_unless_panic}
use blank_sr.Database.{Error, not_found, other}

module _ (B : Bolt) where
  -- `Put` in the nested bucket: without it, `Put` is called on nil.
  abbrev pub put_nested :
      List String
      → String
      → B.Bytes
      → Option Error × B.Tx
      → Option (Option Error × Option Error × B.Tx)
  put_nested path key v (some e, t) = none
  put_nested path key v (none, t) = let (e, u) = B.put path key v t in some (none, e, u)

  abbrev pub save_nested :
      String
      → String
      → String
      → B.Bytes
      → Option Error × B.Tx
      → Option (Option Error × Option Error × B.Tx)
  save_nested bucket nested key v (some e, t) = some (none, some e, t)
  save_nested bucket nested key v (none, t) =
      put_nested (bucket ∷ nested ∷ []) key v (B.create (bucket ∷ nested ∷ []) t)

  -- `SaveInNested`, with `none` for a panic.
  unfoldable pub save_in_nested :
      String → String → String → Encoded B.Bytes → B.Tx → Option (Option Error × B.Tx)
  save_in_nested bucket nested key (unencodable e) s = some (some e, s)
  save_in_nested bucket nested key (encoded v) s =
      update_unless_panic B s (save_nested bucket nested key v (B.create (bucket ∷ []) s))

  -- The first loop of `DeleteNested`: every bucket on the way is there.
  unfoldable pub all_exist : List String → List String → B.Tx → Bool
  all_exist path [] t = true
  all_exist path (b ∷ bs) t = B.exists (path ++ (b ∷ [])) t && all_exist (path ++ (b ∷ [])) bs t

  -- The second loop, which starts at the bucket that the first one ended at, and leaves out the last
  -- name.
  unfoldable pub outer : List String → List String → B.Tx → Option (List String)
  outer path [] t = some path
  outer path (b ∷ []) t = some path
  outer path (b ∷ c ∷ bs) t =
      let rest = outer (path ++ (b ∷ [])) (c ∷ bs) t in
      if B.exists (path ++ (b ∷ [])) t then rest else none

  abbrev pub last_of : String → List String → String
  last_of b [] = b
  last_of b (c ∷ bs) = last_of c bs

  -- `currentBucket.DeleteBucket`, whose error is ignored.
  abbrev pub drop_bucket : Option (List String) → String → B.Tx → B.Tx
  drop_bucket none name t = t
  drop_bucket (some path) name t = (B.delete_bucket (path ++ (name ∷ [])) t).1

  -- What follows the deletion of the key: an emptied bucket should go.
  unfoldable pub drop_if_empty : String → List String → B.Tx → B.Tx
  unfolding outer
  drop_if_empty b bs t =
      if B.key_n (b ∷ bs) t == 0 && ltb 1 (length (b ∷ bs))
      then drop_bucket (outer (b ∷ bs) (b ∷ bs) t) (last_of b bs) t
      else t

  abbrev pub after_delete :
      String → List String → Option Error × B.Tx → Option Error × Option Error × B.Tx
  after_delete b bs (some e, t) = (some e, some e, t)
  after_delete b bs (none, t) = (none, none, drop_if_empty b bs t)

  -- `DeleteNested`
  unfoldable pub delete_nested : String → List String → B.Tx → Option Error × B.Tx
  unfolding all_exist drop_if_empty
  delete_nested key [] s = (some (other "No buckets provided"), s)
  delete_nested key (b ∷ bs) s = update B s (
      if all_exist [] (b ∷ bs) s
      then after_delete b bs (B.delete (b ∷ bs) key s)
      else (some not_found, some not_found, s))
