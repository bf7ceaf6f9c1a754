-- ===== src/Config/Checks.antt =====
-- config/process.go: `validateProps`.
use blank_sr.Base.{zero, String, Bool, true, false, not, ◌&&◌, ◌||◌, Option, none, some}
use blank_sr.Base.{◌==◌, if◌then◌else◌, string_eq, ltb}
use blank_sr.Base.Int.{ℤ, pos, negsuc}
use blank_sr.Config.Names.{
  prop_int, prop_float, prop_bool, prop_string, prop_date, prop_date_only, prop_ref, prop_ref_list,
  prop_virtual, prop_virtual_client, prop_password, prop_object, prop_object_list,
  prop_virtual_ref_list, prop_comments, prop_any, prop_action, prop_widget, prop_file,
  prop_file_list, prop_uuid,
}
use blank_sr.Config.Props.{Floats, Attrs}
use blank_sr.Values.{Value, null, bool, number, string, array, object, is_null, field_or_null}

-- The cases of the switch on `prop.Type`.
pub data Kind : Type 0 where
  skipped int float boolean text date ref ref_list virtual object_kind object_list : Kind
  virtual_ref_list comments virtual_client unknown : Kind

unfoldable pub kind_of : String → Kind
kind_of t =
    if t == prop_widget
      || t == prop_action
      || t == prop_file
      || t == prop_file_list
      || t == prop_password
      || t == prop_any
    then skipped
    else if t == prop_int
    then int
    else if t == prop_float
    then float
    else if t == prop_bool
    then boolean
    else if t == prop_string || t == prop_uuid
    then text
    else if t == prop_date || t == prop_date_only
    then date
    else if t == prop_ref
    then ref
    else if t == prop_ref_list
    then ref_list
    else if t == prop_virtual
    then virtual
    else if t == prop_object
    then object_kind
    else if t == prop_object_list
    then object_list
    else if t == prop_virtual_ref_list
    then virtual_ref_list
    else if t == prop_comments
    then comments
    else if t == prop_virtual_client
    then virtual_client
    else unknown

-- The errors, each about a property.
pub data Fault : Type 0 where
  wrong_default wrong_range wrong_length length_order no_store no_key recursive_object
        unknown_type :
      Fault

pub data Checked {ℓ} (A : Type ℓ) : Type ℓ where
  valid : A → Checked A
  invalid : Fault → String → Checked A

-- The tests of `MinLength` and `MaxLength`, with the fault that is found.
unfoldable pub check_length : ℤ → ℤ → Option Fault
check_length (negsuc n) m = some wrong_length
check_length (pos n) (negsuc m) = some wrong_length
check_length (pos zero) (pos m) = none
check_length (pos n) (pos zero) = none
check_length (pos n) (pos m) = if ltb m n then some length_order else none

module _ {F : Type 0} where
  -- The tests of `Default` in front of each case's own: nil passes, and so does an object with an
  -- expression.
  unfoldable pub default_fits : (Value F → Bool) → Value F → Bool
  default_fits fits null = true
  default_fits fits (object d) = not (is_null (field_or_null "$expression" d))
  default_fits fits v = fits v

  -- `checkDefaultFloat` and `checkDefaultInt`, which accept the same values.
  abbrev pub is_number : Value F → Bool
  is_number (number x) = true
  is_number _ = false

  abbrev pub is_bool : Value F → Bool
  is_bool (bool b) = true
  is_bool _ = false

  abbrev pub is_text : Value F → Bool
  is_text (string s) = true
  is_text _ = false

  abbrev pub is_array : Value F → Bool
  is_array (array vs) = true
  is_array _ = false

  -- `v.(time.Time)`: encoding/json puts no time into an interface.
  abbrev pub is_time : Value F → Bool
  is_time _ = false

  -- A bound of `checkMinMaxParams`: 0 for nil, `none` for what is no number.
  abbrev pub bound : Floats F → Value F → Option F
  bound fl null = some fl.zero
  bound fl (number x) = some x
  bound fl _ = none

  abbrev pub in_order : Floats F → Option F → Option F → Bool
  in_order fl (some min) (some max) =
      if fl.eq min fl.zero && fl.eq max fl.zero then true else not (fl.lt max min)
  in_order fl _ _ = false

module _ {F R : Type 0} where
  -- `clearNumberParams`
  unfoldable pub clear_number_params : Attrs F R → Attrs F R
  clear_number_params p = record p { min = null; max = null }

  -- `clearRefParams`
  unfoldable pub clear_ref_params : Attrs F R → Attrs F R
  clear_ref_params p = record p { store = ""; opposite_prop = ""; extra_query = null; query = null }

  -- `clearStringParams`. The empty strings are interfaces here.
  unfoldable pub clear_string_params : Attrs F R → Attrs F R
  clear_string_params p = record p {
    min_length = pos 0;
    max_length = pos 0;
    pattern = string "";
    mask = string "";
  }

  -- `checkMinMaxParams`
  unfoldable pub check_min_max_params : Floats F → Attrs F R → Bool
  check_min_max_params fl p = in_order fl (bound fl p.min) (bound fl p.max)
