-- ===== src/Bdb/Laws.antt =====
-- What bdb/bdb.go relies on of Bolt, for buckets at the top while no I/O fails.
use blank_sr.Base.{
  ◌≤◌, ◌≡◌, ◌≢◌, String, true, false, ◌&&◌, Option, none, some, [], ◌∷◌, ◌==◌, if◌then◌else◌,
  string_eq,
}
use blank_sr.Base.Map.{lookup}
use blank_sr.Bdb.Bolt.{Bolt}
use blank_sr.Database.{Error, NodupKeys}
use Prim.Native.String.{len}

-- A key or a name of a bucket that Bolt takes.
abbrev pub IsName : String → Type 0
IsName k = (1 ≤ len k) × (len k ≤ 32768)

abbrev pub joined : {V : Type 0} → Option (Option V) → Option V
joined none = none
joined (some v) = v

module _ (B : Bolt) where
  -- What a bucket has under a key: `some none` is a nested bucket.
  abbrev pub held : String → String → B.Tx → Option (Option B.Bytes)
  held b k t = lookup k (B.cursor (b ∷ []) t)

  -- No bucket has a nested one.
  abbrev pub Flat : B.Tx → Type 0
  Flat t = (b k : String) → held b k t ≢ some none

  pub record IsBolt : Type 0 where
    pub commit : (s t : B.Tx) → B.commits s t ≡ true
    pub missing : (b : String) (t : B.Tx) → B.exists (b ∷ []) t ≡ false → B.cursor (b ∷ []) t ≡ []
    pub distinct : (b : String) (t : B.Tx) → NodupKeys (B.cursor (b ∷ []) t)
    pub get-held : (b k : String) (t : B.Tx) → B.get (b ∷ []) k t ≡ joined (held b k t)
    pub create_lem :
        (b : String) (t : B.Tx)
        → IsName b
        → ((B.create (b ∷ []) t).0 ≡ none) × (B.exists (b ∷ []) (B.create (b ∷ []) t).1 ≡ true)
    pub create-held : (b c j : String) (t : B.Tx) → held c j (B.create (b ∷ []) t).1 ≡ held c j t
    pub put_lem :
        (b k : String) (v : B.Bytes) (t : B.Tx)
        → B.exists (b ∷ []) t ≡ true
        → IsName k
        → held b k t ≢ some none
        → (B.put (b ∷ []) k v t).0 ≡ none
    pub put-held :
        (b k : String) (v : B.Bytes) (t : B.Tx) (c j : String)
        → (B.put (b ∷ []) k v t).0 ≡ none
        → held c j (B.put (b ∷ []) k v t).1
          ≡ (if b == c && k == j then some (some v) else held c j t)
    pub delete_lem :
        (b k : String) (t : B.Tx) → held b k t ≢ some none → (B.delete (b ∷ []) k t).0 ≡ none
    pub delete-held :
        (b k : String) (t : B.Tx) (c j : String)
        → (B.delete (b ∷ []) k t).0 ≡ none
        → held c j (B.delete (b ∷ []) k t).1 ≡ (if b == c && k == j then none else held c j t)
    pub delete_bucket_lem :
        (b : String) (t : B.Tx) → B.exists (b ∷ []) t ≡ true → (B.delete_bucket (b ∷ []) t).0 ≡ none
    pub delete_bucket_missing :
        (b : String) (t : B.Tx)
        → B.exists (b ∷ []) t ≡ false
        → (e : Error) × ((B.delete_bucket (b ∷ []) t).0 ≡ some e)
    pub delete_bucket-held :
        (b : String) (t : B.Tx) (c j : String)
        → (B.delete_bucket (b ∷ []) t).0 ≡ none
        → held c j (B.delete_bucket (b ∷ []) t).1 ≡ (if b == c then none else held c j t)
