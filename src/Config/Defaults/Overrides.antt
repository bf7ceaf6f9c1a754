-- ===== src/Config/Defaults/Overrides.antt =====
-- What becomes of a store's property when the default of its name is loaded, setting by setting.
use blank_sr.Base.{
  ◌≡◌, ◌≢◌, ◌⊎◌, ◌∙◌, refl, ap, sym, zero, suc, inl, inr, String, Bool, true, false, Option, none,
  some, List, [], ◌∷◌, ◌==◌, if◌then◌else◌, string_eq, arith,
}
use blank_sr.Base.Int.{ℤ, pos, negsuc, is_zero}
use blank_sr.Base.Map.{Map, lookup, lookup-insert}
use blank_sr.Base.Merging.{IsUnique, completed}
use blank_sr.Config.Defaults.{
  text_or, number_or, value_or, some_or, list_or, is_empty, override, merged,
  load_default_into_prop, load_defaults,
}
use blank_sr.Config.Defaults.Laws.{load_default-props, load_defaults_lem}
use blank_sr.Config.Props.{Attrs, Property, property, attrs, nested, to_map}
use blank_sr.Config.Stores.{Store}
use blank_sr.Values.{Value, null, bool, int, number, string, array, object, is_null}

-- The default's setting where the store's own is unset, and the store's own otherwise.
abbrev pub Chosen {ℓ} : {A : Type ℓ} → A → A → A → A → Type ℓ
Chosen unset own default result =
    ((own ≡ unset) × (result ≡ default)) ⊎ ((own ≢ unset) × (result ≡ own))

true_no : ¬ (true ≡ false)
true_no h = cc

Chosen-if {ℓ} :
    {A : Type ℓ} (b : Bool) (unset own default : A)
    → (b ≡ true → own ≡ unset)
    → (b ≡ false → own ≢ unset)
    → Chosen unset own default (if b then default else own)
Chosen-if true unset own default is is_not = inl (is refl, refl)
Chosen-if false unset own default is is_not = inr (is_not refl, refl)

text_or-Chosen : (x y : String) → Chosen "" x y (text_or x y)
text_or-Chosen x y = Chosen-if (x == "") "" x y (λ h. ground arith) (λ h e. ground arith)

zero_is : (x : ℤ) → is_zero x ≡ true → x ≡ pos 0
zero_is (pos zero) h = refl
zero_is (pos (suc n)) h = cc
zero_is (negsuc n) h = cc

number_or-Chosen : (x y : ℤ) → Chosen (pos 0) x y (number_or x y)
number_or-Chosen x y =
    Chosen-if (is_zero x) (pos 0) x y (zero_is x) (λ h e. true_no (sym (ap is_zero e) ∙ h))

null_is : {F : Type 0} (x : Value F) → is_null x ≡ true → x ≡ null
null_is null h = refl
null_is (bool b) h = cc
null_is (int n) h = cc
null_is (number x) h = cc
null_is (string s) h = cc
null_is (array vs) h = cc
null_is (object fs) h = cc

value_or-Chosen : {F : Type 0} (x y : Value F) → Chosen null x y (value_or x y)
value_or-Chosen x y =
    Chosen-if (is_null x) null x y (null_is x) (λ h e. true_no (sym (ap is_null e) ∙ h))

empty_is : {F : Type 0} (x : Value F) → is_empty x ≡ true → x ≡ string ""
empty_is null h = cc
empty_is (bool b) h = cc
empty_is (int n) h = cc
empty_is (number x) h = cc
empty_is (string s) h = ap string (ground arith)
empty_is (array vs) h = cc
empty_is (object fs) h = cc

empty_string : (F : Type 0) → is_empty {F = F} (string "") ≡ true
unfolding string_eq
empty_string F = refl

disabled-Chosen :
    {F : Type 0} (x y : Value F) → Chosen (string "") x y (if is_empty x then y else x)
disabled-Chosen {F} x y =
    Chosen-if (is_empty x) (string "") x y (empty_is x)
      (λ h e. true_no (sym (empty_string F) ∙ sym (ap is_empty e) ∙ h))

some_or-Chosen {ℓ} : {A : Type ℓ} (x y : Option A) → Chosen none x y (some_or x y)
some_or-Chosen none y = inl (refl, refl)
some_or-Chosen (some x) y = inr ((λ e. cc), refl)

list_or-Chosen {ℓ} : {A : Type ℓ} (x y : List A) → Chosen [] x y (list_or x y)
list_or-Chosen [] y = inl (refl, refl)
list_or-Chosen (x ∷ xs) y = inr ((λ e. cc), refl)

module _ {F R : Type 0} where
  -- The result `q` of a store's own property over the default: for each setting that the store
  -- may leave out, whose zero value is named, one or the other; the store's own for two; and
  -- the default's for the others.
  pub record Overridden (own general q : Attrs F R) : Type 0 where
    pub typ : Chosen "" own.typ general.typ q.typ
    pub form_group : Chosen "" own.form_group general.form_group q.form_group
    pub form_tab : Chosen "" own.form_tab general.form_tab q.form_tab
    pub form_order : Chosen (pos 0) own.form_order general.form_order q.form_order
    pub access : Chosen none own.access general.access q.access
    pub display : Chosen "" own.display general.display q.display
    pub default : Chosen null own.default general.default q.default
    pub min_length : Chosen (pos 0) own.min_length general.min_length q.min_length
    pub max_length : Chosen (pos 0) own.max_length general.max_length q.max_length
    pub min : Chosen null own.min general.min q.min
    pub max : Chosen null own.max general.max q.max
    pub hidden : Chosen null own.hidden general.hidden q.hidden
    pub pattern : Chosen null own.pattern general.pattern q.pattern
    pub mask : Chosen null own.mask general.mask q.mask
    pub load : Chosen "" own.load general.load q.load
    pub store : Chosen "" own.store general.store q.store
    pub populate_in : Chosen null own.populate_in general.populate_in q.populate_in
    pub label : Chosen "" own.label general.label q.label
    pub placeholder : Chosen "" own.placeholder general.placeholder q.placeholder
    pub disabled : Chosen (string "") own.disabled general.disabled q.disabled
    pub search_by : Chosen [] own.search_by general.search_by q.search_by
    pub opposite_prop : Chosen "" own.opposite_prop general.opposite_prop q.opposite_prop
    pub read_only : q.read_only ≡ own.read_only
    pub required : q.required ≡ own.required
    pub configurable : q.configurable ≡ general.configurable
    pub name : q.name ≡ general.name
    pub foreign_key : q.foreign_key ≡ general.foreign_key
    pub query : q.query ≡ general.query
    pub extra_query : q.extra_query ≡ general.extra_query
    pub rest : q.rest ≡ general.rest

  pub override-Overridden :
      (own default : Attrs F R) → Overridden own default (override own default)
  unfolding override
  override-Overridden own default = record {
    typ = text_or-Chosen own.typ default.typ;
    form_group = text_or-Chosen own.form_group default.form_group;
    form_tab = text_or-Chosen own.form_tab default.form_tab;
    form_order = number_or-Chosen own.form_order default.form_order;
    access = some_or-Chosen own.access default.access;
    display = text_or-Chosen own.display default.display;
    default = value_or-Chosen own.default default.default;
    min_length = number_or-Chosen own.min_length default.min_length;
    max_length = number_or-Chosen own.max_length default.max_length;
    min = value_or-Chosen own.min default.min;
    max = value_or-Chosen own.max default.max;
    hidden = value_or-Chosen own.hidden default.hidden;
    pattern = value_or-Chosen own.pattern default.pattern;
    mask = value_or-Chosen own.mask default.mask;
    load = text_or-Chosen own.load default.load;
    store = text_or-Chosen own.store default.store;
    populate_in = value_or-Chosen own.populate_in default.populate_in;
    label = text_or-Chosen own.label default.label;
    placeholder = text_or-Chosen own.placeholder default.placeholder;
    disabled = disabled-Chosen own.disabled default.disabled;
    search_by = list_or-Chosen own.search_by default.search_by;
    opposite_prop = text_or-Chosen own.opposite_prop default.opposite_prop;
    read_only = refl;
    required = refl;
    configurable = refl;
    name = refl;
    foreign_key = refl;
    query = refl;
    extra_query = refl;
    rest = refl;
  }

  -- What stands under the name of the default `p`, by what the store has under it.
  abbrev pub Taken : Property F R → Option (Property F R) → Property F R → Type 0
  Taken p none q = q ≡ p
  Taken p (some own) q =
      (((attrs p).configurable ≡ false) × (q ≡ p))
      ⊎ (((attrs p).configurable ≡ true)
          × Overridden (attrs own) (attrs p) (attrs q)
          × (nested q ≡ nested p))

  merged-Taken : (p : Property F R) (old : Option (Property F R)) → Taken p old (merged p old)
  merged-Taken p none = refl
  merged-Taken p (some own) = go (attrs p).configurable refl
    where
      go :
          (b : Bool)
          → (attrs p).configurable ≡ b
          → Taken p
              (some own)
              (if b then property (override (attrs own) (attrs p)) (nested p) else p)
      go true e = inr (e, override-Overridden (attrs own) (attrs p), refl)
      go false e = inl (e, refl)

  -- After the loop over the properties of a default store, whose names are different, each of them
  -- stands in the store: as it is if the store had none of that name or the default is not
  -- configurable. Otherwise each setting is the default's where the store's own was unset, and the
  -- store's own where it was not; "read only" and "required" are always the store's own, and the
  -- name, "configurable", the foreign key, the queries, the nested properties and what the code does
  -- not name are the default's. "Disabled" is unset only as an empty string.
  pub load_defaults_overrides :
      (ps : Map String (Property F R)) (s : Store F R) (name : String) (p : Property F R)
      → IsUnique ps
      → lookup name ps ≡ some p
      → (q : Property F R) × (lookup name (to_map (load_defaults ps s).props) ≡ some q)
        × Taken p (lookup name (to_map s.props)) q
  load_defaults_overrides ps s name p u at =
      let old = lookup name (to_map s.props) in
      (
        merged p old,
        load_defaults_lem ps s name u ∙ ap (λ o. completed merged o old) at,
        merged-Taken p old,
      )

  -- Where a store has a property of its own for a configurable default, without a setting of
  -- "disabled", the condition of the default that disables the property is lost. Every other
  -- setting that the store leaves unset is taken from the default, but "read only" and "required",
  -- which are always the store's own.
  pub disabled_lost :
      (name : String) (p prop : Property F R) (s : Store F R)
      → (attrs p).configurable ≡ true
      → lookup name (to_map s.props) ≡ some prop
      → (attrs prop).disabled ≡ null
      → (q : Property F R) × (lookup name (to_map (load_default_into_prop name p s).props) ≡ some q)
        × ((attrs q).disabled ≡ null)
        × Overridden (attrs prop) (attrs p) (attrs q)
  unfolding override
  disabled_lost name p prop s c e d =
      let m = to_map s.props in
      let v = merged p (lookup name m) in
      (
        property (override (attrs prop) (attrs p)) (nested p),
        ap (lookup name) (load_default-props name p s)
            ∙ lookup-insert name name v m
            ∙ ground (arith, e, c),
        ground (arith, d),
        override-Overridden (attrs prop) (attrs p),
      )
