-- ===== src/Bdb/Bolt.antt =====
-- What bdb/bdb.go calls of Bolt, and how `Update` runs a function. It is taken to begin its transaction.
use blank_sr.Base.{ℕ, String, Bool, Option, none, some, List, if◌then◌else◌}
use blank_sr.Database.{Error}

-- A bucket is known by the names that lead to it. `Tx` is the whole database as a transaction sees
-- it.
pub record Bolt : Type 1 where
  pub Tx : Type 0
  pub Bytes : Type 0
  -- `Bucket` does not return nil.
  pub exists : List String → Tx → Bool
  -- The pairs that a cursor goes through, with `none` for the nil value of a nested bucket.
  pub cursor : List String → Tx → List (String × Option Bytes)
  -- The pairs from `Seek` on.
  pub seek : List String → String → Tx → List (String × Option Bytes)
  pub get : List String → String → Tx → Option Bytes
  pub put : List String → String → Bytes → Tx → Option Error × Tx
  pub delete : List String → String → Tx → Option Error × Tx
  -- `CreateBucketIfNotExists`
  pub create : List String → Tx → Option Error × Tx
  pub delete_bucket : List String → Tx → Option Error × Tx
  pub next_sequence : List String → Tx → ℕ × Option Error × Tx
  -- `Stats().KeyN`
  pub key_n : List String → Tx → ℕ
  -- The commit of a transaction that began at the first database and reached the second succeeds.
  pub commits : Tx → Tx → Bool

-- Bytes, or the error of the encoder.
pub data Encoded (B : Type 0) : Type 0 where
  encoded : B → Encoded B
  unencodable : Error → Encoded B

module _ (B : Bolt) {R : Type 0} where
  -- `Update`, from the result and the error of the function that it runs: an error rolls back. The
  -- methods ignore what `Update` returns.
  abbrev pub update : B.Tx → R × Option Error × B.Tx → R × B.Tx
  update s (r, none, t) = (r, if B.commits s t then t else s)
  update s (r, some e, t) = (r, s)

  -- The same, with `none` for a panic.
  abbrev pub update_unless_panic : B.Tx → Option (R × Option Error × B.Tx) → Option (R × B.Tx)
  update_unless_panic s none = none
  update_unless_panic s (some x) = some (update s x)
