-- ===== src/Values.antt =====
-- Go's `interface{}` as the program uses it: what encoding/json decodes into one, and the integers
-- and times that the code itself puts there. The type of floating-point numbers is a parameter.
use blank_sr.Base.{ℕ, String, Bool, true, false, Option, none, some}
use blank_sr.Base.{◌==◌, if◌then◌else◌, string_eq}

mutual
  pub data Value (F : Type 0) : Type 0 where
    null : Value F
    bool : Bool → Value F
    int : ℕ → Value F
    number : F → Value F
    string : String → Value F
    array : Values F → Value F
    object : Fields F → Value F

  pub data Values (F : Type 0) : Type 0 where
    nil : Values F
    cons : Value F → Values F → Values F

  pub data Fields (F : Type 0) : Type 0 where
    end : Fields F
    field : String → Value F → Fields F → Fields F

module _ {F : Type 0} where
  abbrev pub is_null : Value F → Bool
  is_null null = true
  is_null _ = false

  -- `v == s` for an interface `v` and a string `s`.
  abbrev pub is_string : Value F → String → Bool
  is_string (string t) s = t == s
  is_string _ s = false

  -- `v.(string)`
  abbrev pub as_string : Value F → Option String
  as_string (string t) = some t
  as_string _ = none

  -- `v.(map[string]interface{})`
  abbrev pub as_object : Value F → Option (Fields F)
  as_object (object fs) = some fs
  as_object _ = none

  -- `m[k]` with its `ok`, for a decoded object.
  abbrev pub field_of : String → Fields F → Option (Value F)
  field_of k end = none
  field_of k (field j v fs) = if j == k then some v else field_of k fs

  -- `m[k]`, which is nil for a missing key.
  abbrev pub field_or_null : String → Fields F → Value F
  field_or_null k fs = elim (field_of k fs) [ none ↦ null | some v ↦ v ]
