-- ===== src/Config/Switch.antt =====
-- config/process.go: the cases of `validateProps`, and its loop.
use blank_sr.Base.{
  String, Bool, true, false, not, ◌&&◌, Option, none, some, ◌==◌, if◌then◌else◌, string_eq,
}
use blank_sr.Config.Checks.{
  Kind, skipped, int, float, boolean, text, date, ref, ref_list, virtual, object_kind, object_list,
  virtual_ref_list, comments, virtual_client, unknown, kind_of, Fault, wrong_default, wrong_range,
  no_store, no_key, recursive_object, unknown_type, Checked, valid, invalid, clear_number_params,
  clear_ref_params, clear_string_params, default_fits, is_number, is_bool, is_text, is_array,
  is_time, check_min_max_params, check_length,
}
use blank_sr.Config.Names.{prop_string}
use blank_sr.Config.Props.{Floats, Attrs, Property, Properties, property, end, entry}
use blank_sr.Values.{Value, null, string, is_null}

module _ {F R : Type 0} where
  -- `prop.Name = pName`, and the type that an empty one stands for.
  abbrev pub typed : String → Attrs F R → Attrs F R
  typed name p = record p { name = name; typ = if p.typ == "" then prop_string else p.typ }

  -- A property is kept if the test passes.
  abbrev pub require : Bool → Fault → String → Property F R → Checked (Property F R)
  require true f name p = valid p
  require false f name p = invalid f name

  abbrev pub keep_if_none : Option Fault → String → Property F R → Checked (Property F R)
  keep_if_none none name p = valid p
  keep_if_none (some f) name p = invalid f name

  -- A property with its nested ones checked.
  abbrev pub with_nested : Checked (Properties F R) → Attrs F R → Checked (Property F R)
  with_nested (valid qs) p = valid (property p qs)
  with_nested (invalid f name) p = invalid f name

  -- The cases `PropInt` and `PropFloat`.
  unfoldable pub check_number : Floats F → Attrs F R → Checked (Property F R)
  unfolding clear_string_params clear_ref_params default_fits check_min_max_params
  check_number fl p =
      let q = clear_ref_params (clear_string_params p) in
      if default_fits is_number q.default
      then require (check_min_max_params fl q) wrong_range q.name (property q end)
      else invalid wrong_default q.name

  -- The case `PropBool`.
  unfoldable pub check_boolean : Attrs F R → Checked (Property F R)
  unfolding clear_string_params clear_ref_params clear_number_params default_fits
  check_boolean p =
      let q = clear_number_params (clear_ref_params (clear_string_params p)) in
      require (default_fits is_bool q.default) wrong_default q.name (property q end)

  -- The cases `PropString` and `PropUUID`.
  unfoldable pub check_text : Attrs F R → Checked (Property F R)
  unfolding clear_ref_params clear_number_params default_fits check_length
  check_text p =
      let q = clear_ref_params (clear_number_params p) in
      if default_fits is_text q.default
      then keep_if_none (check_length q.min_length q.max_length) q.name (property q end)
      else invalid wrong_default q.name

  -- The cases `PropDate` and `PropDateOnly`.
  unfoldable pub check_date : Attrs F R → Checked (Property F R)
  unfolding clear_string_params clear_ref_params default_fits
  check_date p =
      let q = clear_ref_params (clear_string_params p) in
      require (default_fits is_time q.default) wrong_default q.name (property q end)

  -- The cases `PropRef` and `PropRefList`.
  unfoldable pub check_ref : (Value F → Bool) → Attrs F R → Properties F R → Checked (Property F R)
  unfolding clear_string_params clear_number_params default_fits
  check_ref fits p ps =
      let q = clear_number_params (clear_string_params p) in
      if default_fits fits q.default
      then require (not (q.store == "")) no_store q.name (property q ps)
      else invalid wrong_default q.name

  -- The case `PropVirtual`.
  unfoldable pub check_virtual : Attrs F R → Checked (Property F R)
  unfolding clear_string_params clear_ref_params clear_number_params
  check_virtual p =
      let q = clear_number_params (clear_ref_params (clear_string_params p)) in
      valid (property (record q { default = null }) end)

  -- The case `PropObject`, for a property that may have nested ones.
  unfoldable pub check_object : Checked (Properties F R) → Attrs F R → Checked (Property F R)
  unfolding clear_string_params clear_ref_params clear_number_params
  check_object inner p =
      with_nested inner (clear_number_params (clear_ref_params (clear_string_params p)))

  -- The case `PropObjectList`.
  unfoldable pub check_object_list : Checked (Properties F R) → Attrs F R → Checked (Property F R)
  unfolding clear_ref_params clear_number_params
  check_object_list inner p =
      let q : Attrs F R = record p { pattern = string ""; mask = string "" } in
      with_nested inner (clear_number_params (clear_ref_params q))

  -- The case `PropVirtualRefList`.
  unfoldable pub check_virtual_ref_list : Attrs F R → Checked (Property F R)
  unfolding clear_string_params clear_number_params
  check_virtual_ref_list p =
      let q = clear_number_params (clear_string_params p) in
      if q.store == ""
      then invalid no_store q.name
      else require (not (q.foreign_key == "" && is_null q.query)) no_key q.name
          (property (record q { default = null }) end)

  -- The case `PropComments`.
  unfoldable pub check_comments : Attrs F R → Properties F R → Checked (Property F R)
  unfolding clear_string_params clear_number_params
  check_comments p ps = valid (property (clear_number_params (clear_string_params p)) ps)

  -- The switch. The kinds that it skips keep the property as it was, without its name.
  unfoldable pub by_kind :
      Floats F
      → Bool
      → Checked (Properties F R)
      → Property F R
      → Attrs F R
      → Properties F R
      → Kind
      → Checked (Property F R)
  unfolding check_number check_boolean check_text check_date check_ref check_virtual check_object
      check_object_list check_virtual_ref_list check_comments
  by_kind fl parse inner old p ps skipped = valid old
  by_kind fl parse inner old p ps int = check_number fl p
  by_kind fl parse inner old p ps float = check_number fl p
  by_kind fl parse inner old p ps boolean = check_boolean p
  by_kind fl parse inner old p ps text = check_text p
  by_kind fl parse inner old p ps date = check_date p
  by_kind fl parse inner old p ps ref = check_ref is_text p ps
  by_kind fl parse inner old p ps ref_list = check_ref is_array p ps
  by_kind fl parse inner old p ps virtual = check_virtual p
  by_kind fl true inner old p ps object_kind = check_object inner p
  by_kind fl false inner old p ps object_kind = invalid recursive_object p.name
  by_kind fl true inner old p ps object_list = check_object_list inner p
  by_kind fl false inner old p ps object_list = invalid recursive_object p.name
  by_kind fl parse inner old p ps virtual_ref_list = check_virtual_ref_list p
  by_kind fl parse inner old p ps comments = check_comments p ps
  by_kind fl parse inner old p ps virtual_client = valid old
  by_kind fl parse inner old p ps unknown = invalid unknown_type p.name

  -- One property and the rest of the loop.
  abbrev pub and_entry :
      String → Checked (Property F R) → Checked (Properties F R) → Checked (Properties F R)
  and_entry k (valid p) (valid ps) = valid (entry k p ps)
  and_entry k (valid p) (invalid f name) = invalid f name
  and_entry k (invalid f name) r = invalid f name

-- `validateProps`, and the body of its loop. It is called once more for the properties of an
-- object, with `parse` false.
unfoldable mutual
  pub validate_prop :
      {F R : Type 0} → Floats F → Bool → String → Property F R → Checked (Property F R)
  validate_prop fl parse name (property a ps) =
      let inner = validate_props fl false ps in
      by_kind fl parse inner (property a ps) (typed name a) ps (kind_of (typed name a).typ)

  pub validate_props : {F R : Type 0} → Floats F → Bool → Properties F R → Checked (Properties F R)
  validate_props fl parse end = valid end
  validate_props fl parse (entry k p ps) =
      and_entry k (validate_prop fl parse k p) (validate_props fl parse ps)
