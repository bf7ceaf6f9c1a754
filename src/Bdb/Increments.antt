-- ===== src/Bdb/Increments.antt =====
-- bdb/bdb.go: `Inc`.
use blank_sr.Base.{
  String, ◌<>◌, Option, none, some, List, [], ◌∷◌, ◌==◌, if◌then◌else◌, string_eq, nat_eq,
}
use blank_sr.Bdb.Bolt.{Bolt, Encoded, encoded, unencodable, update_unless_panic}
use blank_sr.Database.{Error, not_found, wrong_data}
use blank_sr.Values.{Value, Fields, null, number, object, field, field_of}
use Prim.Native.Char.{code}
use Prim.Native.String as Text

abbrev pub in_front : String → List String → List String
in_front c [] = c ∷ []
in_front c (p ∷ ps) = (c <> p) ∷ ps

-- `strings.Split(propPath, ".")`
unfoldable pub split_dot : String → List String
split_dot Text.[] = "" ∷ []
split_dot (Text.◌∷◌ c s) =
    let rest = split_dot s in if code c == 46 then "" ∷ rest else in_front (Text.◌∷◌ c Text.[]) rest

module _ {F : Type 0} where
  -- `m[k] = v`
  unfoldable pub set_field : String → Value F → Fields F → Fields F
  set_field k v Fields.end = field k v Fields.end
  set_field k v (field j w fs) =
      let rest = set_field k v fs in if j == k then field j v fs else field j w rest

  module _ (add : F → F → F) (n : F) where
    -- The new value of a property, or `none` where the old one is no number.
    abbrev pub increased : Option (Value F) → Option (Value F)
    increased none = some (number n)
    increased (some null) = some (number n)
    increased (some (number x)) = some (number (add x n))
    increased (some _) = none

    -- An object with one property increased.
    abbrev pub increase : String → Fields F → Option (Fields F)
    increase k fs = elim (increased (field_of k fs)) [
      | none ↦ none
      | some v ↦ some (set_field k v fs)
    ]

    -- The same below a property that has to be an object.
    abbrev pub increase_below : String → String → Fields F → Option (Fields F)
    increase_below k j fs = elim (field_of k fs) [
      | some (object obj) ↦ elim (increase j obj) [
        | none ↦ none
        | some new ↦ some (set_field k (object new) fs)
      ]
      | some _ ↦ none
      | none ↦ none
    ]

    -- The two branches on the path, of which only the first two names count; `none` for `WrongData`.
    abbrev pub increase_at : String → List String → Fields F → Option (Fields F)
    increase_at path (p ∷ q ∷ names) fs = increase_below p q fs
    increase_at path _ fs = increase path fs

module _ (B : Bolt) {F : Type 0} (add : F → F → F) where
  -- The result `M`, with `none` for a nil map, and the error.
  abbrev pub Result : Type 0
  Result = Option (Fields F) × Option Error

  abbrev pub failing : Option (Fields F) → Error → B.Tx → Result × Option Error × B.Tx
  failing m e t = ((m, some e), some e, t)

  abbrev pub put_result :
      List String → String → Fields F → Encoded B.Bytes → B.Tx → Result × Option Error × B.Tx
  put_result path key fs (unencodable e) t = failing (some fs) e t
  put_result path key fs (encoded v) t = let (e, u) = B.put path key v t in ((some fs, e), e, u)

  -- A nil map has no properties, and panics when it gets one.
  abbrev pub inc_nil : List String → B.Tx → Option (Result × Option Error × B.Tx)
  inc_nil (p ∷ q ∷ names) t = some (failing none wrong_data t)
  inc_nil _ t = none

  abbrev pub inc_done :
      (Fields F → Encoded B.Bytes)
      → List String
      → String
      → Fields F
      → Option (Fields F)
      → B.Tx
      → Result × Option Error × B.Tx
  inc_done encode path key fs none t = failing (some fs) wrong_data t
  inc_done encode path key fs (some new) t = put_result path key new (encode new) t

  -- What follows `Unmarshal`.
  abbrev pub inc_object :
      (Fields F → Encoded B.Bytes)
      → List String
      → String
      → String
      → F
      → Result
      → B.Tx
      → Option (Result × Option Error × B.Tx)
  inc_object encode path key prop n (m, some e) t = some (failing m e t)
  inc_object encode path key prop n (none, none) t = inc_nil (split_dot prop) t
  inc_object encode path key prop n (some fs, none) t =
      some (inc_done encode path key fs (increase_at add n prop (split_dot prop) fs) t)

  abbrev pub inc_stored :
      (B.Bytes → Result)
      → (Fields F → Encoded B.Bytes)
      → List String
      → String
      → String
      → F
      → Option B.Bytes
      → B.Tx
      → Option (Result × Option Error × B.Tx)
  inc_stored decode encode path key prop n none t = some (failing none not_found t)
  inc_stored decode encode path key prop n (some v) t =
      inc_object encode path key prop n (decode v) t

  -- `Inc`, with `none` for a panic.
  unfoldable pub inc :
      (B.Bytes → Result)
      → (Fields F → Encoded B.Bytes)
      → String
      → String
      → String
      → F
      → B.Tx
      → Option (Result × B.Tx)
  unfolding split_dot set_field
  inc decode encode bucket key prop n s = update_unless_panic B s (
      if B.exists (bucket ∷ []) s
      then inc_stored decode encode (bucket ∷ []) key prop n (B.get (bucket ∷ []) key s) s
      else some (failing none not_found s))
