-- ===== src/Bdb/Writes.antt =====
-- bdb/bdb.go: `Save`, `Delete`, `DeleteBucket` and the sequences.
use blank_sr.Base.{ℕ, String, Option, none, some, List, [], ◌∷◌, if◌then◌else◌}
use blank_sr.Bdb.Bolt.{Bolt, Encoded, encoded, unencodable, update}
use blank_sr.Database.{Error, not_found}

module _ (B : Bolt) where
  abbrev pub put_created :
      List String → String → B.Bytes → Option Error × B.Tx → Option Error × Option Error × B.Tx
  put_created path key v (some e, t) = (none, some e, t)
  put_created path key v (none, t) = let (e, u) = B.put path key v t in (none, e, u)

  -- `Save`. The errors of the transaction are another variable, and are lost.
  unfoldable pub save : String → String → Encoded B.Bytes → B.Tx → Option Error × B.Tx
  save bucket key (unencodable e) s = (some e, s)
  save bucket key (encoded v) s =
      update B s (put_created (bucket ∷ []) key v (B.create (bucket ∷ []) s))

  -- An error that is both the result and what the transaction ends with.
  abbrev pub same_error : Option Error × B.Tx → Option Error × Option Error × B.Tx
  same_error (e, t) = (e, e, t)

  -- `Delete`
  unfoldable pub delete : String → String → B.Tx → Option Error × B.Tx
  delete bucket key s = update B s (
      if B.exists (bucket ∷ []) s
      then same_error (B.delete (bucket ∷ []) key s)
      else (some not_found, some not_found, s))

  -- `DeleteBucket`
  unfoldable pub delete_bucket : String → B.Tx → Option Error × B.Tx
  delete_bucket bucket s = update B s (same_error (B.delete_bucket (bucket ∷ []) s))

  abbrev pub sub_sequence : List String → Option Error × B.Tx → ℕ × Option Error × B.Tx
  sub_sequence path (some e, t) = (0, some e, t)
  sub_sequence path (none, t) = B.next_sequence path t

  abbrev pub sequence_in : String → Option String → Option Error × B.Tx → ℕ × Option Error × B.Tx
  sequence_in bucket sub (some e, t) = (0, some e, t)
  sequence_in bucket none (none, t) = B.next_sequence (bucket ∷ []) t
  sequence_in bucket (some sub) (none, t) =
      sub_sequence (bucket ∷ sub ∷ []) (B.create (bucket ∷ sub ∷ []) t)

  -- `GetNextSequenceForBucket`, whose error is always nil: that of the transaction is another
  -- variable.
  unfoldable pub get_next_sequence_for_bucket : String → Option String → B.Tx → ℕ × B.Tx
  get_next_sequence_for_bucket bucket sub s =
      update B s (sequence_in bucket sub (B.create (bucket ∷ []) s))
