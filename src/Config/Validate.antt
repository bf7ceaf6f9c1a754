-- ===== src/Config/Validate.antt =====
-- config/process.go: `Validate`.
-- `blank` is the zero value of the fields that `rest` stands for. Go ranges once over the given
-- stores and once over the valid ones; the lists are in the orders of these two runs.
pub mod Laws
pub mod Typed
pub mod References
pub mod Kept
use blank_sr.Base.{
  String, Bool, true, false, ◌&&◌, ◌||◌, Option, none, some, List, [], ◌∷◌, ◌==◌, if◌then◌else◌,
  string_eq,
}
use blank_sr.Base.Int.{pos}
use blank_sr.Base.Map.{Map, lookup, insert}
use blank_sr.Base.Merging.{collect}
use blank_sr.Config.Checks.{Checked, valid, invalid}
use blank_sr.Config.Defaults.{load_defaults, merge_access, merge_filters}
use blank_sr.Config.Migrations.{clean}
use blank_sr.Config.Names.{
  obj_directory, obj_process, obj_map, obj_workspace, obj_campaign, obj_notification, obj_single,
  obj_file, obj_proxy, default_directory, default_process, default_campaign, default_notification,
  default_single, prop_string, prop_ref, prop_ref_list, prop_virtual_ref_list,
}
use blank_sr.Config.Props.{
  Floats, Attrs, Property, Properties, property, end, entry, attrs, nested, to_map, from_map,
}
use blank_sr.Config.Stores.{Store, Stores, MigrationTask}
use blank_sr.Config.Switch.{validate_props}
use blank_sr.Values.{null}

-- The types that the first switch knows and leaves as they are.
abbrev pub is_known : String → Bool
is_known t =
    t == obj_directory
    || t == obj_process
    || t == obj_map
    || t == obj_workspace
    || t == obj_campaign
    || t == obj_notification
    || t == obj_single
    || t == obj_file
    || t == obj_proxy

module _ {F R : Type 0} (fl : Floats F) (blank : R) where
  -- `Prop{Type: PropString, Display: "none"}`
  unfoldable pub id_prop : Property F R
  id_prop =
      property
        (record {
          access = none;
          configurable = false;
          default = null;
          disabled = null;
          display = "none";
          extra_query = null;
          foreign_key = "";
          form_group = "";
          form_order = pos 0;
          form_tab = "";
          hidden = null;
          label = "";
          load = "";
          mask = null;
          max = null;
          max_length = pos 0;
          min = null;
          min_length = pos 0;
          name = "";
          opposite_prop = "";
          pattern = null;
          placeholder = "";
          populate_in = null;
          query = null;
          read_only = false;
          required = null;
          search_by = [];
          store = "";
          typ = prop_string;
          rest = blank;
        })
        end

  -- A store before its properties are checked.
  unfoldable pub prepare : String → Store F R → Store F R
  unfolding id_prop to_map from_map
  prepare name o =
      if o.typ == obj_map || o.typ == obj_workspace
      then record o { store = name; props = end }
      else if o.typ == obj_single
      then record o { store = name; props = from_map (insert "_id" id_prop (to_map o.props)) }
      else record o { store = name; typ = if is_known o.typ then o.typ else obj_directory }

  -- A checked store.
  abbrev pub checked : String → Store F R → Checked (Properties F R) → Option (String × Store F R)
  checked name o (valid ps) = some (name, record o { props = ps })
  checked name o (invalid f p) = none

  -- The body of the first loop: a store whose properties are valid, or `none`.
  unfoldable pub valid_store : String → Store F R → Option (String × Store F R)
  unfolding prepare
  valid_store name o = let p = prepare name o in checked name p (validate_props fl true p.props)

  -- The first loop.
  unfoldable pub valid_stores : Stores F R → Stores F R
  unfolding valid_store
  valid_stores conf = collect valid_store conf []

abbrev pub is_ref : String → Bool
is_ref t = t == prop_ref || t == prop_ref_list || t == prop_virtual_ref_list

abbrev pub is_default : String → Bool
is_default name =
    name == default_directory
    || name == default_single
    || name == default_campaign
    || name == default_notification
    || name == default_process

-- The migrations, if there are any.
abbrev pub cleaned :
    (List MigrationTask → List MigrationTask) → List MigrationTask → List MigrationTask
cleaned sort [] = []
cleaned sort (v ∷ vs) = clean sort (v ∷ vs)

module _ {F R : Type 0} where
  abbrev pub has_store : Stores F R → String → Bool
  has_store conf name = elim (lookup name conf) [ none ↦ false | some s ↦ true ]

  -- The store that a property refers to is there.
  abbrev pub ref_exists : Stores F R → Attrs F R → Bool
  ref_exists conf a = if is_ref a.typ then has_store conf a.store else true

  unfoldable pub sub_refs_exist : Stores F R → Properties F R → Bool
  sub_refs_exist conf end = true
  sub_refs_exist conf (entry k p ps) = ref_exists conf (attrs p) && sub_refs_exist conf ps

  -- The two loops over the properties of a store.
  unfoldable pub refs_exist : Stores F R → Properties F R → Bool
  unfolding sub_refs_exist
  refs_exist conf end = true
  refs_exist conf (entry k p ps) =
      (ref_exists conf (attrs p) && sub_refs_exist conf (nested p)) && refs_exist conf ps

  -- A default store's properties and filters.
  abbrev pub with_default : Option (Store F R) → Store F R → Store F R
  with_default none s = s
  with_default (some d) s = load_defaults (to_map d.props) (merge_filters d s)

  -- The default store for notifications gives its access rules and no filters.
  abbrev pub with_notification : Option (Store F R) → Store F R → Store F R
  with_notification none s = s
  with_notification (some d) s = load_defaults (to_map d.props) (merge_access d s)

  -- The inner switch, on the type of the store.
  abbrev pub with_type_default : Stores F R → Store F R → Store F R
  with_type_default conf s =
      if s.typ == obj_process
      then with_default (lookup default_process conf) s
      else if s.typ == obj_notification
      then with_notification (lookup default_notification conf) s
      else if s.typ == obj_single
      then with_default (lookup default_single conf) s
      else s

  -- The switch on the store's name: the default stores are left as they are.
  unfoldable pub complete : Stores F R → String → Store F R → Store F R
  complete conf name s =
      if is_default name
      then s
      else with_type_default conf (with_default (lookup default_directory conf) s)

  -- The body of the second loop: a completed store under its name, or `none` if it refers to a store
  -- that is not there.
  unfoldable pub finished :
      (List MigrationTask → List MigrationTask)
      → Stores F R
      → String
      → Store F R
      → Option (String × Store F R)
  unfolding refs_exist complete
  finished sort conf name s =
      if refs_exist conf s.props
      then (let t = complete conf name s in
          some (t.store, record t { migration = cleaned sort t.migration }))
      else none

  -- `Validate`
  unfoldable pub validate :
      Floats F → R → (List MigrationTask → List MigrationTask) → Stores F R → Stores F R
  unfolding valid_stores finished
  validate fl blank sort conf =
      let valid = valid_stores fl blank conf in collect (finished sort valid) valid []
