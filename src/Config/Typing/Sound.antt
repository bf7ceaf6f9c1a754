-- ===== src/Config/Typing/Sound.antt =====
-- What each case of `validateProps` asks of the properties that it keeps.
use blank_sr.Base.{◌≡◌, ◌≢◌, ◌⊎◌, refl, String, Bool, true, ◌==◌, string_eq, nat_eq, arith}
use blank_sr.Config.Checks.{
  valid, is_number, is_bool, is_text, is_time, bound, check_min_max_params, clear_number_params,
  clear_ref_params, clear_string_params,
}
use blank_sr.Config.Props.{Floats, Attrs, Property, Properties}
use blank_sr.Config.Switch.{
  check_number, check_boolean, check_text, check_date, check_ref, check_virtual_ref_list,
}
use blank_sr.Config.Typing.{HasDefault, no_value, IsRange, HasLengths}
use blank_sr.Config.Typing.Defaults.{
  default_fits-HasDefault, has_key, in_order-IsRange, lengths, is_number-own, is_bool-own,
  is_text-own,
}
use blank_sr.Values.{Value, null, bool, number, string}

module _ {F R : Type 0} where
  pub number_typed :
      (fl : Floats F) (p : Attrs F R) (r : Property F R)
      → check_number fl p ≡ valid r
      → HasDefault F number p.default × IsRange fl p.min p.max
  unfolding check_number check_min_max_params clear_string_params clear_ref_params
  number_typed fl p r h = (
    default_fits-HasDefault F number is_number p.default is_number-own (ground arith),
    in_order-IsRange fl p.min p.max (bound fl p.min) (bound fl p.max) refl refl (ground arith),
  )

  pub text_typed :
      (p : Attrs F R) (r : Property F R)
      → check_text p ≡ valid r
      → HasDefault String string p.default × HasLengths p
  unfolding check_text clear_number_params clear_ref_params
  text_typed p r h = (
    default_fits-HasDefault String string is_text p.default is_text-own (ground arith),
    lengths p p.min_length p.max_length refl refl (ground arith),
  )

  pub boolean_typed :
      (p : Attrs F R) (r : Property F R)
      → check_boolean p ≡ valid r
      → HasDefault Bool bool p.default
  unfolding check_boolean clear_number_params clear_string_params clear_ref_params
  boolean_typed p r h =
      default_fits-HasDefault Bool bool is_bool p.default is_bool-own (ground arith)

  pub date_typed :
      (p : Attrs F R) (r : Property F R) → check_date p ≡ valid r → HasDefault ⊥ no_value p.default
  unfolding check_date clear_string_params clear_ref_params
  date_typed p r h =
      default_fits-HasDefault ⊥ no_value is_time p.default (λ w no. cc) (ground arith)

  pub ref_typed :
      (A : Type 0) (of : A → Value F) (fits : Value F → Bool)
      → ((w : Value F) → fits w ≡ true → (x : A) × (w ≡ of x))
      → (p : Attrs F R) (ps : Properties F R) (r : Property F R) → check_ref fits p ps ≡ valid r
      → HasDefault A of p.default × (p.store ≢ "")
  unfolding check_ref clear_number_params clear_string_params
  ref_typed A of fits own p ps r h =
      (default_fits-HasDefault A of fits p.default own (ground arith), λ no. ground arith)

  pub virtual_ref_list_typed :
      (p : Attrs F R) (r : Property F R)
      → check_virtual_ref_list p ≡ valid r
      → (p.store ≢ "") × ((p.foreign_key ≢ "") ⊎ (p.query ≢ null))
  unfolding check_virtual_ref_list clear_number_params clear_string_params
  virtual_ref_list_typed p r h =
      (λ no. ground arith, has_key p.foreign_key (p.foreign_key == "") refl p.query (ground arith))
