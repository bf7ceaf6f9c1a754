-- ===== src/Bdb/Reads.antt =====
-- bdb/bdb.go: the methods that read, each in one `View`. A decoder gives what it has decoded, which
-- is `none` for a nil map, and its error.
use blank_sr.Base.{
  ℕ, String, Bool, true, false, Option, none, some, List, [], ◌∷◌, map, if◌then◌else◌,
}
use blank_sr.Bdb.Bolt.{Bolt}
use blank_sr.Database.{Error, not_found}
use text.Mathlib.Text.{starts_with}

-- The pairs of a cursor whose values are not nested buckets.
abbrev pub stored : {V : Type 0} → List (String × Option V) → List (String × V)
stored [] = []
stored ((k, none) ∷ items) = stored items
stored ((k, some v) ∷ items) = (k, v) ∷ stored items

-- The keys for as long as they have the prefix.
unfoldable pub keys_while : {V : Type 0} → String → List (String × V) → List String
keys_while prefix [] = []
keys_while prefix ((k, v) ∷ items) =
    let rest = keys_while prefix items in if starts_with k prefix then k ∷ rest else []

module _ (B : Bolt) where
  -- `Get`: every error is `DbNotFound`, `none` here.
  unfoldable pub get : String → String → B.Tx → Option B.Bytes
  get bucket key s = if B.exists (bucket ∷ []) s then B.get (bucket ∷ []) key s else none

  -- The keys and values that the loops over a cursor take.
  abbrev pub items : String → B.Tx → List (String × B.Bytes)
  items bucket s = stored (B.cursor (bucket ∷ []) s)

  -- `GetAll`
  unfoldable pub get_all : String → B.Tx → Option (List B.Bytes)
  get_all bucket s =
      if B.exists (bucket ∷ []) s then some (map (λ kv. kv.1) (items bucket s)) else none

  -- `GetAllKeys`, with the empty slice beside an error.
  unfoldable pub get_all_keys : String → B.Tx → List String × Option Error
  get_all_keys bucket s =
      if B.exists (bucket ∷ []) s
      then (map (λ kv. kv.0) (items bucket s), none)
      else ([], some not_found)

  -- `GetAllKeysByPrefix`, which takes the names of nested buckets too.
  unfoldable pub get_all_keys_by_prefix : String → String → B.Tx → List String × Option Error
  unfolding keys_while
  get_all_keys_by_prefix bucket prefix s =
      if B.exists (bucket ∷ []) s
      then (keys_while prefix (B.seek (bucket ∷ []) prefix s), none)
      else ([], some not_found)

  -- `Count`
  unfoldable pub count : String → B.Tx → ℕ
  count bucket s = if B.exists (bucket ∷ []) s then B.key_n (bucket ∷ []) s else 0

  module _ {M : Type 0} (decode : B.Bytes → Option M × Option Error) where
    abbrev pub decoded : Option B.Bytes → Option M × Option Error
    decoded none = (none, some not_found)
    decoded (some v) = decode v

    -- `GetUnmarshalled`, and `GetUnmarshalledIntoInterface` with the interface's value as the result.
    unfoldable pub get_unmarshalled : String → String → B.Tx → Option M × Option Error
    unfolding get
    get_unmarshalled bucket key s = decoded (get bucket key s)

    -- `GetFromNested`
    unfoldable pub get_from_nested : String → String → String → B.Tx → Option M × Option Error
    get_from_nested bucket nested key s =
        if B.exists (bucket ∷ []) s
        then if B.exists (bucket ∷ nested ∷ []) s
          then decoded (B.get (bucket ∷ nested ∷ []) key s)
          else (none, some not_found)
        else (none, some not_found)

    -- An item, unless it could not be decoded; the error is that of the last one.
    abbrev pub and_decoded :
        Option M × Option Error
        → List (Option M)
        → Option Error
        → Bool
        → List (Option M) × Option Error
    and_decoded (m, none) ms e last = (m ∷ ms, if last then none else e)
    and_decoded (m, some f) ms e last = (ms, if last then some f else e)

    abbrev pub is_last : List (String × B.Bytes) → Bool
    is_last [] = true
    is_last (x ∷ xs) = false

    abbrev pub decode_all : List (String × B.Bytes) → List (Option M) × Option Error
    decode_all [] = ([], none)
    decode_all ((k, v) ∷ xs) =
        let (ms, e) = decode_all xs in and_decoded (decode v) ms e (is_last xs)

    -- `GetAllUnmarshalled`
    unfoldable pub get_all_unmarshalled : String → B.Tx → List (Option M) × Option Error
    get_all_unmarshalled bucket s =
        if B.exists (bucket ∷ []) s then decode_all (items bucket s) else ([], some not_found)
