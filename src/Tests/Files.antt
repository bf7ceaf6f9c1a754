-- ===== src/Tests/Files.antt =====
-- A Bolt in memory whose buckets at the top are always there.
use blank_sr.Base.{
  ℕ, Bool, ◌&&◌, ◌∙◌, ap, sym, refl, String, true, false, Option, none, some, List, [], ◌∷◌, ◌==◌,
  if◌then◌else◌, string_eq, arith,
}
use blank_sr.Base.Map.{Map, lookup, lookup-nil, insert, erase, lookup-insert, lookup-erase}
use blank_sr.Bdb.Bolt.{Bolt}
use blank_sr.Bdb.Laws.{joined, IsBolt}
use blank_sr.Tests.Memory.{distinct, lookup-distinct, NodupKeys-distinct}

abbrev pub Buckets : Type 0 → Type 0
Buckets V = String → Map String (Option V)

-- One bucket is changed.
abbrev change :
    {V : Type 0} → String → (Map String (Option V) → Map String (Option V)) → Buckets V → Buckets V
change b f t c = if b == c then f (t c) else t c

abbrev at_top : List String → {A : Type 0} → (String → A) → A → A
at_top (b ∷ []) f other = f b
at_top _ f other = other

abbrev pub in_memory : Type 0 → Bolt
in_memory V = record {
  Tx = Buckets V;
  Bytes = V;
  exists = λ path t. at_top path (λ b. true) false;
  cursor = λ path t. at_top path (λ b. distinct (t b)) [];
  seek = λ path k t. at_top path (λ b. distinct (t b)) [];
  get = λ path k t. at_top path (λ b. joined (lookup k (t b))) none;
  put = λ path k v t. (none, at_top path (λ b. change b (insert k (some v)) t) t);
  delete = λ path k t. (none, at_top path (λ b. change b (erase k) t) t);
  create = λ path t. (none, t);
  delete_bucket = λ path t. (none, at_top path (λ b. change b (λ m. []) t) t);
  next_sequence = λ path t. (1, none, t);
  key_n = λ path t. 0;
  commits = λ s t. true;
}

pub in_memory-IsBolt : (V : Type 0) → IsBolt (in_memory V)
in_memory-IsBolt V = record {
  commit = λ s t. refl;
  missing = λ b t h. cc;
  distinct = λ b t. NodupKeys-distinct (t b);
  get-held = λ b k t. ap joined (sym (lookup-distinct (t b) k));
  create_lem = λ b t name. (refl, refl);
  create-held = λ b c j t. refl;
  put_lem = λ b k v t there name plain. refl;
  put-held = λ b k v t c j fine.
      lookup-distinct (change b (insert k (some v)) t c) j
      ∙ ground (arith, lookup-insert k j (some v) (t c), lookup-distinct (t c) j);
  delete_lem = λ b k t plain. refl;
  delete-held = λ b k t c j fine.
      lookup-distinct (change b (erase k) t c) j
      ∙ ground (arith, lookup-erase k j (t c), lookup-distinct (t c) j);
  delete_bucket_lem = λ b t there. refl;
  delete_bucket_missing = λ b t h. cc;
  delete_bucket-held = λ b t c j fine.
      lookup-distinct (change b (λ m. []) t c) j
      ∙ ground (arith, lookup-nil {V = Option V} j, lookup-distinct (t c) j);
}

abbrev is_path : List String → Bool
is_path (a ∷ []) = a == "a"
is_path (a ∷ b ∷ []) = a == "a" && b == "b"
is_path _ = false

-- A Bolt with one bucket "a", which has a bucket "b", which has at most the key "k".
abbrev pub nested : Bolt
nested = record {
  Tx = Bool;
  Bytes = ℕ;
  exists = λ path t. is_path path;
  cursor = λ path t. [];
  seek = λ path k t. [];
  get = λ path k t. if t then some 1 else none;
  put = λ path k v t. (none, true);
  delete = λ path k t. (none, false);
  create = λ path t. (none, t);
  delete_bucket = λ path t. (none, t);
  next_sequence = λ path t. (1, none, t);
  key_n = λ path t. if t then 1 else 0;
  commits = λ s t. true;
}
