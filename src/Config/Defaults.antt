-- ===== src/Config/Defaults.antt =====
-- config/process.go: what a store takes over from the default stores and from the providers.
pub mod Laws
pub mod Overrides
pub mod Untyped
use blank_sr.Base.{
  zero, String, Bool, true, false, not, ◌||◌, Option, none, some, List, [], ◌∷◌, ◌==◌,
  if◌then◌else◌, string_eq,
}
use blank_sr.Base.Int.{ℤ, is_zero}
use blank_sr.Base.Map.{Map, lookup, insert}
use blank_sr.Base.Merging.{merge_into}
use blank_sr.Config.Props.{Attrs, Property, Properties, property, attrs, nested, to_map, from_map}
use blank_sr.Config.Stores.{Store, Stores, Filter}
use blank_sr.Values.{Value, is_null, is_string}

-- `if x != "" { y = x }`, and the same for numbers, interfaces, slices and pointers.
abbrev pub text_or : String → String → String
text_or x y = if x == "" then y else x

abbrev pub number_or : ℤ → ℤ → ℤ
number_or x y = if is_zero x then y else x

abbrev pub value_or : {F : Type 0} → Value F → Value F → Value F
value_or x y = if is_null x then y else x

-- `v == ""` for an interface.
abbrev pub is_empty : {F : Type 0} → Value F → Bool
is_empty v = is_string v ""

abbrev pub some_or {ℓ} : {A : Type ℓ} → Option A → Option A → Option A
some_or none y = y
some_or (some x) y = some x

abbrev pub list_or {ℓ} : {A : Type ℓ} → List A → List A → List A
list_or [] y = y
list_or (x ∷ xs) y = x ∷ xs

module _ {F R : Type 0} where
  -- The default `p` with the settings of the store's own property `prop`. The comparison of
  -- `Disabled`, an interface, with the empty string is one of interfaces, so nil is taken over.
  unfoldable pub override : Attrs F R → Attrs F R → Attrs F R
  override prop p = record p {
    typ = text_or prop.typ p.typ;
    form_group = text_or prop.form_group p.form_group;
    form_tab = text_or prop.form_tab p.form_tab;
    form_order = number_or prop.form_order p.form_order;
    access = some_or prop.access p.access;
    display = text_or prop.display p.display;
    read_only = prop.read_only;
    required = prop.required;
    default = value_or prop.default p.default;
    min_length = number_or prop.min_length p.min_length;
    max_length = number_or prop.max_length p.max_length;
    min = value_or prop.min p.min;
    max = value_or prop.max p.max;
    hidden = value_or prop.hidden p.hidden;
    pattern = value_or prop.pattern p.pattern;
    mask = value_or prop.mask p.mask;
    load = text_or prop.load p.load;
    store = text_or prop.store p.store;
    populate_in = value_or prop.populate_in p.populate_in;
    label = text_or prop.label p.label;
    placeholder = text_or prop.placeholder p.placeholder;
    disabled = if is_empty prop.disabled then p.disabled else prop.disabled;
    search_by = list_or prop.search_by p.search_by;
    opposite_prop = text_or prop.opposite_prop p.opposite_prop;
  }

  abbrev pub merged : Property F R → Option (Property F R) → Property F R
  merged p none = p
  merged p (some prop) =
      if (attrs p).configurable then property (override (attrs prop) (attrs p)) (nested p) else p

  -- `LoadDefaultIntoProp`
  unfoldable pub load_default_into_prop : String → Property F R → Store F R → Store F R
  unfolding override to_map from_map
  load_default_into_prop name p s =
      let m = to_map s.props in
      record s { props = from_map (insert name (merged p (lookup name m)) m) }

  -- The loop over a default store's properties.
  unfoldable pub load_defaults : Map String (Property F R) → Store F R → Store F R
  unfolding load_default_into_prop
  load_defaults [] s = s
  load_defaults ((name, p) ∷ ps) s = load_defaults ps (load_default_into_prop name p s)

  -- `mergeAccess`
  unfoldable pub merge_access : Store F R → Store F R → Store F R
  merge_access default s = record s { access = list_or s.access default.access }

  -- `mergeWith`
  unfoldable pub merge_with : Store F R → Store F R → Store F R
  merge_with src s = record s {
    base_store = text_or src.base_store s.base_store;
    data_source = some_or src.data_source s.data_source;
    label = text_or src.label s.label;
  }

  -- The body of the loop of `mergeFilters`: the default's filter `v` under the store's own one.
  unfoldable pub merged_filter : Filter F R → Option (Filter F R) → Filter F R
  merged_filter v none = v
  merged_filter v (some f) = record f {
    label = text_or f.label v.label;
    display = text_or f.display v.display;
    placeholder = text_or f.placeholder v.placeholder;
    search_by = list_or f.search_by v.search_by;
    store = text_or f.store v.store;
    filter_by = text_or f.filter_by v.filter_by;
    options = list_or f.options v.options;
    mask = text_or f.mask v.mask;
    multi = if f.multi then true else v.multi;
  }

  -- `mergeFilters`
  unfoldable pub merge_filters : Store F R → Store F R → Store F R
  unfolding merged_filter
  merge_filters default s = record s {
    filters = merge_into merged_filter default.filters s.filters;
  }

  -- The loop over the stores of one provider in `loadFromProviders`.
  abbrev pub provided : Store F R → Option (Store F R) → Store F R
  provided src none = src
  provided src (some s) = merge_with src s
