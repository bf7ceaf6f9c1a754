-- ===== src/Tests/Configs.antt =====
-- config/process.go: stores, properties and migrations.
use blank_sr.Base.{
  ℕ, ◌≡◌, ◌≢◌, ◌⊎◌, ◌∙◌, ap, sym, inl, refl, String, true, false, none, some, List, [], ◌∷◌, ◌==◌,
  string_eq, arith, ltb, nat_eq,
}
use blank_sr.Base.Int.{pos}
use blank_sr.Base.Map.{Map, lookup, insert, lookup-nil}
use blank_sr.Base.Merging.{IsUnique, collect}
use blank_sr.Config.Checks.{
  valid, kind_of, check_length, default_fits, clear_number_params, clear_ref_params,
  clear_string_params, check_min_max_params,
}
use blank_sr.Config.Defaults.{load_default_into_prop, load_defaults}
use blank_sr.Config.Defaults.Overrides.{Taken, Overridden, load_defaults_overrides, disabled_lost}
use blank_sr.Config.Idempotent.{validate_props_idem}
use blank_sr.Config.Migrations.{clean}
use blank_sr.Config.Migrations.Laws.{IsStrict, clean-IsStrict}
use blank_sr.Config.Props.{
  Floats, Attrs, Property, Properties, property, entry, attrs, to_map, from_map,
}
use blank_sr.Config.Stores.{MigrationTask, Store, Stores}
use blank_sr.Config.Switch.{
  validate_props, validate_prop, by_kind, check_number, check_text, check_ref,
}
use blank_sr.Config.Validate.{prepare, valid_store, valid_stores, validate}
use blank_sr.Config.Names.{default_directory}
use blank_sr.Config.Validate.Kept.{validate_keeps, ref_to_ignored}
use blank_sr.Config.Validate.References.{Among, first, later, RefersTo, Dangles, direct, within}
use blank_sr.Values.{Value, null, number, string}

-- Numbers as floating-point numbers.
abbrev pub nats : Floats ℕ
nats = record { zero = 0; lt = ltb; eq = λ x y. x == y }

abbrev pub plain : Attrs ℕ ℕ
plain = record {
  access = none;
  configurable = false;
  default = null;
  disabled = null;
  display = "";
  extra_query = null;
  foreign_key = "";
  form_group = "";
  form_order = pos 0;
  form_tab = "";
  hidden = null;
  label = "";
  load = "";
  mask = null;
  max = null;
  max_length = pos 0;
  min = null;
  min_length = pos 0;
  name = "";
  opposite_prop = "";
  pattern = null;
  placeholder = "";
  populate_in = null;
  query = null;
  read_only = false;
  required = null;
  search_by = [];
  store = "";
  typ = "string";
  rest = 0;
}

abbrev pub bare_store : Store ℕ ℕ
bare_store = record {
  access = [];
  base_store = "";
  data_source = none;
  entries = blank_sr.Values.end;
  filters = [];
  i18n = blank_sr.Values.end;
  label = "";
  migration = [];
  props = blank_sr.Config.Props.end;
  store = "";
  typ = "directory";
  rest = 0;
}

-- An integer with a length, which makes no sense, and an object with a text.
abbrev typed_in : Properties ℕ ℕ
typed_in =
    entry "age"
      (property (record plain { typ = "int"; max_length = pos 5 }) blank_sr.Config.Props.end)
      (entry "name" (property (record plain { typ = "" }) blank_sr.Config.Props.end)
        blank_sr.Config.Props.end)

abbrev accepted : Properties ℕ ℕ
accepted =
    entry "age"
      (property (record plain { name = "age"; typ = "int"; pattern = string ""; mask = string "" })
        blank_sr.Config.Props.end)
      (entry "name" (property (record plain { name = "name" }) blank_sr.Config.Props.end)
        blank_sr.Config.Props.end)

accepts : validate_props nats true typed_in ≡ valid accepted
unfolding validate_props validate_prop by_kind kind_of check_number check_text check_length
    default_fits clear_number_params clear_ref_params clear_string_params check_min_max_params
    string_eq nat_eq
accepts = refl

validate_props_idem_example : validate_props nats true accepted ≡ valid accepted
validate_props_idem_example = validate_props_idem nats true typed_in accepted accepts

abbrev refers : String → Properties ℕ ℕ
refers to =
    entry "link" (property (record plain { typ = "ref"; store = to }) blank_sr.Config.Props.end)
      blank_sr.Config.Props.end

-- "first" refers to "second", which refers to nothing that is there.
abbrev pub linked : Stores ℕ ℕ
linked =
    ("first", record bare_store { props = refers "second" })
    ∷ ("second", record bare_store { props = refers "third" })
    ∷ []

abbrev link_to : String → Property ℕ ℕ
link_to to =
    property
      (record plain {
        name = "link";
        typ = "ref";
        store = to;
        pattern = string "";
        mask = string "";
      })
      blank_sr.Config.Props.end

abbrev pub given_to : String → String → Store ℕ ℕ
given_to name to = record bare_store {
  store = name;
  props = entry "link" (link_to to) blank_sr.Config.Props.end;
}

abbrev pub same_order : List MigrationTask → List MigrationTask
same_order m = m

pub linked-IsUnique : IsUnique linked
unfolding lookup string_eq
linked-IsUnique = (refl, (refl, tt))

pub links : lookup "first" (valid_stores nats 0 linked) ≡ some (given_to "first" "second")
unfolding lookup valid_stores collect insert valid_store prepare validate_props validate_prop
    by_kind kind_of check_ref default_fits clear_number_params clear_string_params string_eq
links = refl

target : lookup "second" (valid_stores nats 0 linked) ≡ some (given_to "second" "third")
unfolding lookup valid_stores collect insert valid_store prepare validate_props validate_prop
    by_kind kind_of check_ref default_fits clear_number_params clear_string_params string_eq
target = refl

abbrev valid_linked : Stores ℕ ℕ
valid_linked = valid_stores nats 0 linked

no_default : lookup default_directory valid_linked ≡ none
unfolding lookup valid_stores collect insert valid_store prepare validate_props validate_prop
    by_kind kind_of check_ref default_fits clear_number_params clear_string_params string_eq
no_default = refl

no_third : lookup "third" valid_linked ≡ none
unfolding lookup valid_stores collect insert valid_store prepare validate_props validate_prop
    by_kind kind_of check_ref default_fits clear_number_params clear_string_params string_eq
no_third = refl

a_ref : (name to : String) → RefersTo to (given_to name to).props
a_ref name to = direct (link_to to) (first "link" blank_sr.Config.Props.end) (inl refl, refl)

none_among : (p : Property ℕ ℕ) → ¬ Among p blank_sr.Config.Props.end
none_among p at = elim at [ ]

only_ref : (n : String) → RefersTo n (given_to "first" "second").props → n ≡ "second"
only_ref n (direct p (first k ps) (kind, to)) = sym to
only_ref n (direct p (later k q ps at) (kind, to)) = absurd (none_among p at)
only_ref n (within p q (first k ps) at names) = absurd (none_among q at)
only_ref n (within p q (later k r ps at) inner names) = absurd (none_among p at)

first_refs : ¬ Dangles valid_linked (given_to "first" "second").props
first_refs (n, refers, missing) =
    there (sym (ap (λ m. lookup m valid_linked) (only_ref n refers)) ∙ missing)
  where
    there : lookup "second" valid_linked ≢ none
    there e = some_no (sym target ∙ e)
      where
        some_no : ¬ (some (given_to "second" "third") ≡ none)
        some_no h = cc

validate_keeps_example :
    ((lookup "second" valid_linked ≡ none)
      × (lookup "second" (validate nats 0 same_order linked) ≡ none))
    ⊎ ((s : Store ℕ ℕ) × (lookup "second" valid_linked ≡ some s)
        × (((r : Store ℕ ℕ) × (lookup "second" (validate nats 0 same_order linked) ≡ some r)
              × (¬ Dangles valid_linked s.props))
            ⊎ ((lookup "second" (validate nats 0 same_order linked) ≡ none)
                × Dangles valid_linked s.props)))
validate_keeps_example = validate_keeps nats 0 linked linked-IsUnique same_order "second"

kept_link_dangles :
    (r : Store ℕ ℕ) × (lookup "first" (validate nats 0 same_order linked) ≡ some r)
    × RefersTo "second" r.props
    × (lookup "second" (validate nats 0 same_order linked) ≡ none)
kept_link_dangles =
    ref_to_ignored nats 0 linked linked-IsUnique same_order "first" "second"
      (given_to "first" "second") (given_to "second" "third") no_default links refl first_refs
      (a_ref "first" "second") target ("third", a_ref "second" "third", no_third)

abbrev id_default : Property ℕ ℕ
id_default =
    property (record plain { configurable = true; label = "Id"; disabled = string "x" })
      blank_sr.Config.Props.end

abbrev id_own : Property ℕ ℕ
id_own = property (record plain { display = "none" }) blank_sr.Config.Props.end

abbrev with_id : Store ℕ ℕ
with_id = record bare_store { props = entry "_id" id_own blank_sr.Config.Props.end }

abbrev id_defaults : Map String (Property ℕ ℕ)
id_defaults = ("_id", id_default) ∷ []

default_id : lookup "_id" id_defaults ≡ some id_default
unfolding lookup string_eq
default_id = refl

load_defaults_overrides_example :
    (q : Property ℕ ℕ) × (lookup "_id" (to_map (load_defaults id_defaults with_id).props) ≡ some q)
    × Taken id_default (lookup "_id" (to_map with_id.props)) q
load_defaults_overrides_example =
    load_defaults_overrides id_defaults with_id "_id" id_default (lookup-nil "_id", tt) default_id

own_id : lookup "_id" (to_map with_id.props) ≡ some id_own
unfolding lookup to_map string_eq
own_id = refl

disabled_lost_example :
    (q : Property ℕ ℕ) × (lookup "_id"
        (to_map (load_default_into_prop "_id" id_default with_id).props)
      ≡ some q)
    × ((attrs q).disabled ≡ null)
    × Overridden (attrs id_own) (attrs id_default) (attrs q)
disabled_lost_example = disabled_lost "_id" id_default id_own with_id refl own_id refl

abbrev task : ℕ → String → MigrationTask
task n s = record { version = pos n; script = s }

abbrev tasks : List MigrationTask
tasks = task 1 "a" ∷ task 1 "b" ∷ task 2 "" ∷ task 3 "c" ∷ []

clean-IsStrict_example : IsStrict (clean same_order tasks)
clean-IsStrict_example =
    clean-IsStrict same_order tasks (omega arith, (omega arith, (omega arith, tt)))
