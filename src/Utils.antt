-- ===== src/Utils.antt =====
-- utils/array/array.go: searches in slices of strings and of integers, and checks of decoded JSON.
-- -1 is `none`. A slice of strings is `none` for nil where the code tells it from an empty one.
pub mod Laws
pub mod Search
pub mod Order
pub mod Sorted
pub mod Rgx
use blank_sr.Base.{
  ℕ, zero, suc, String, Bool, true, false, not, ◌&&◌, Option, none, some, List, [], ◌∷◌, ◌++◌,
}
use blank_sr.Base.{Eq, ◌==◌, if◌then◌else◌, string_eq, nat_eq, length}
use blank_sr.Values.{Value, Values, nil, cons, array, Fields, as_string, as_object}

-- `InArrayInt` and `InArrayString`, from the index `i` on.
unfoldable pub in_array_from : {A : Type 0} ⦃e : Eq A⦄ → ℕ → List A → A → Option ℕ
in_array_from i [] s = none
in_array_from i (value ∷ arr) s =
    let rest = in_array_from (suc i) arr s in if value == s then some i else rest

unfoldable pub in_array_int : List ℕ → ℕ → Option ℕ
unfolding in_array_from
in_array_int arr s = in_array_from 0 arr s

unfoldable pub in_array_string : List String → String → Option ℕ
unfolding in_array_from
in_array_string arr s = in_array_from 0 arr s

abbrev pub found : Option ℕ → Bool
found none = false
found (some i) = true

-- `InBothArraysString`
unfoldable pub in_both_arrays_string : List String → List String → Bool
unfolding in_array_string
in_both_arrays_string [] arr2 = false
in_both_arrays_string (v ∷ arr1) arr2 =
    let rest = in_both_arrays_string arr1 arr2 in
    if found (in_array_string arr2 v) then true else rest

abbrev pub elements : Option (List String) → List String
elements none = []
elements (some a) = a

-- The loop of `StringArraysEquals`, for slices of one length.
unfoldable pub same_elements : List String → List String → Bool
same_elements [] b = true
same_elements (x ∷ a) [] = true
same_elements (x ∷ a) (y ∷ b) = let rest = same_elements a b in if x == y then rest else false

-- `StringArraysEquals`, whose first test, for two nil slices, gives what the others would give.
unfoldable pub string_arrays_equals : Option (List String) → Option (List String) → Bool
unfolding same_elements
string_arrays_equals none none = true
string_arrays_equals a b =
    if length (elements a) == length (elements b)
    then same_elements (elements a) (elements b)
    else false

module _ {F : Type 0} where
  -- `CreateMapFromInterface`, with `none` for `berror.WrongData`.
  unfoldable pub create_map_from_interface : Value F → Option (Fields F)
  create_map_from_interface i = as_object i

  -- The loop of `CreateStringSliceFromInterface`.
  unfoldable pub strings_of : Values F → List String → Option (List String)
  strings_of nil result = some result
  strings_of (cons v vs) result = elim (as_string v) [
    | none ↦ none
    | some val ↦ strings_of vs (result ++ (val ∷ []))
  ]

  -- `CreateStringSliceFromInterface` on decoded JSON, where no value is a slice of strings.
  unfoldable pub create_string_slice_from_interface : Value F → Option (List String)
  unfolding strings_of
  create_string_slice_from_interface (array vs) = strings_of vs []
  create_string_slice_from_interface _ = none
