-- ===== src/Config/Defaults/Laws.antt =====
-- Which settings win when defaults are loaded.
use blank_sr.Base.{
  ◌≡◌, ◌∙◌, refl, ap, sym, String, Bool, true, false, Option, none, some, List, [], ◌∷◌,
  if◌then◌else◌, string_eq, arith,
}
use blank_sr.Base.Int.{ℤ}
use blank_sr.Base.Map.{Map, lookup, insert, lookup-insert, insert-insert}
use blank_sr.Base.Merging.{merge_into, completed, IsUnique, lookup-merge_into}
use blank_sr.Config.Defaults.{
  text_or, number_or, value_or, some_or, list_or, is_empty, override, merged, merged_filter,
  load_default_into_prop, load_defaults, merge_filters,
}
use blank_sr.Config.Props.{Attrs, Property, property, attrs, to_map, to_map-from_map}
use blank_sr.Config.Stores.{Store}
use blank_sr.Values.{Value}

text_or_self : (x : String) → text_or x x ≡ x
text_or_self x = ground arith

number_or_self : (x : ℤ) → number_or x x ≡ x
number_or_self x = ground arith

value_or_self : {F : Type 0} (x : Value F) → value_or x x ≡ x
value_or_self x = ground arith

disabled_self : {F : Type 0} (x : Value F) → (if is_empty x then x else x) ≡ x
disabled_self x = ground arith

list_or_self {ℓ} : {A : Type ℓ} (x : List A) → list_or x x ≡ x
list_or_self [] = refl
list_or_self (x ∷ xs) = refl

some_or_self {ℓ} : {A : Type ℓ} (x : Option A) → some_or x x ≡ x
some_or_self none = refl
some_or_self (some x) = refl

text_or_idem : (x y : String) → text_or (text_or x y) y ≡ text_or x y
text_or_idem x y = ground arith

number_or_idem : (x y : ℤ) → number_or (number_or x y) y ≡ number_or x y
number_or_idem x y = ground arith

value_or_idem : {F : Type 0} (x y : Value F) → value_or (value_or x y) y ≡ value_or x y
value_or_idem x y = ground arith

disabled_idem :
    {F : Type 0} (x y : Value F)
    → (if is_empty (if is_empty x then y else x) then y else (if is_empty x then y else x))
      ≡ (if is_empty x then y else x)
disabled_idem x y = ground arith

list_or_idem {ℓ} : {A : Type ℓ} (x y : List A) → list_or (list_or x y) y ≡ list_or x y
list_or_idem [] [] = refl
list_or_idem [] (y ∷ ys) = refl
list_or_idem (x ∷ xs) y = refl

some_or_idem {ℓ} : {A : Type ℓ} (x y : Option A) → some_or (some_or x y) y ≡ some_or x y
some_or_idem none none = refl
some_or_idem none (some y) = refl
some_or_idem (some x) y = refl

module _ {F R : Type 0} where
  pub load_default-props :
      (name : String) (p : Property F R) (s : Store F R)
      → to_map (load_default_into_prop name p s).props
        ≡ insert name (merged p (lookup name (to_map s.props))) (to_map s.props)
  unfolding load_default_into_prop
  load_default-props name p s = to_map-from_map _

  load_defaults-props :
      (ps : Map String (Property F R)) (s : Store F R)
      → to_map (load_defaults ps s).props ≡ merge_into merged ps (to_map s.props)
  unfolding load_defaults merge_into
  load_defaults-props [] s = refl
  load_defaults-props ((name, p) ∷ ps) s =
      load_defaults-props ps (load_default_into_prop name p s)
      ∙ ap (merge_into merged ps) (load_default-props name p s)

  -- After the loop over the properties of a default store, each of them stands in the store: as it
  -- is if the store had none of that name or the default is not configurable, and otherwise with
  -- the store's own settings put over it. The store's other properties stay, in any order of
  -- ranging over the default's.
  pub load_defaults_lem :
      (ps : Map String (Property F R)) (s : Store F R) (j : String)
      → IsUnique ps
      → lookup j (to_map (load_defaults ps s).props)
        ≡ completed merged (lookup j ps) (lookup j (to_map s.props))
  load_defaults_lem ps s j u =
      ap (lookup j) (load_defaults-props ps s) ∙ lookup-merge_into merged ps (to_map s.props) j u

  -- After `mergeFilters` each filter of the default store stands in the store, with the store's own
  -- settings first where it had a filter of that name, and the store's other filters stay.
  pub merge_filters_lem :
      (d s : Store F R) (j : String)
      → IsUnique d.filters
      → lookup j (merge_filters d s).filters
        ≡ completed merged_filter (lookup j d.filters) (lookup j s.filters)
  unfolding merge_filters
  merge_filters_lem d s j u = lookup-merge_into merged_filter d.filters s.filters j u

  override_idem : (x p : Attrs F R) → override (override x p) p ≡ override x p
  unfolding override
  override_idem x p i = record (override x p) {
    typ = text_or_idem x.typ p.typ i;
    form_group = text_or_idem x.form_group p.form_group i;
    form_tab = text_or_idem x.form_tab p.form_tab i;
    form_order = number_or_idem x.form_order p.form_order i;
    access = some_or_idem x.access p.access i;
    display = text_or_idem x.display p.display i;
    default = value_or_idem x.default p.default i;
    min_length = number_or_idem x.min_length p.min_length i;
    max_length = number_or_idem x.max_length p.max_length i;
    min = value_or_idem x.min p.min i;
    max = value_or_idem x.max p.max i;
    hidden = value_or_idem x.hidden p.hidden i;
    pattern = value_or_idem x.pattern p.pattern i;
    mask = value_or_idem x.mask p.mask i;
    load = text_or_idem x.load p.load i;
    store = text_or_idem x.store p.store i;
    populate_in = value_or_idem x.populate_in p.populate_in i;
    label = text_or_idem x.label p.label i;
    placeholder = text_or_idem x.placeholder p.placeholder i;
    search_by = list_or_idem x.search_by p.search_by i;
    opposite_prop = text_or_idem x.opposite_prop p.opposite_prop i;
    disabled = disabled_idem x.disabled p.disabled i;
  }

  override_self : (p : Attrs F R) → override p p ≡ p
  unfolding override
  override_self p i = record p {
    typ = text_or_self p.typ i;
    form_group = text_or_self p.form_group i;
    form_tab = text_or_self p.form_tab i;
    form_order = number_or_self p.form_order i;
    access = some_or_self p.access i;
    display = text_or_self p.display i;
    default = value_or_self p.default i;
    min_length = number_or_self p.min_length i;
    max_length = number_or_self p.max_length i;
    min = value_or_self p.min i;
    max = value_or_self p.max i;
    hidden = value_or_self p.hidden i;
    pattern = value_or_self p.pattern i;
    mask = value_or_self p.mask i;
    load = text_or_self p.load i;
    store = text_or_self p.store i;
    populate_in = value_or_self p.populate_in i;
    label = text_or_self p.label i;
    placeholder = text_or_self p.placeholder i;
    search_by = list_or_self p.search_by i;
    opposite_prop = text_or_self p.opposite_prop i;
    disabled = disabled_self p.disabled i;
  }

  merged_idem :
      (p : Property F R) (old : Option (Property F R))
      → merged p (some (merged p old)) ≡ merged p old
  merged_idem (property a ps) none = own a.configurable
    where
      own : (b : Bool) → (if b then property (override a a) ps else property a ps) ≡ property a ps
      own true = ap (λ z. property z ps) (override_self a)
      own false = refl
  merged_idem (property a ps) (some (property x qs)) = own a.configurable
    where
      own :
          (b : Bool)
          → (if b
              then property
                  (override (attrs (if b then property (override x a) ps else property a ps)) a)
                  ps
              else property a ps)
            ≡ (if b then property (override x a) ps else property a ps)
      own true = ap (λ z. property z ps) (override_idem x a)
      own false = refl

  -- To load a default that a store has taken over once more changes nothing.
  pub load_default_again :
      (name : String) (p : Property F R) (s : Store F R)
      → to_map (load_default_into_prop name p (load_default_into_prop name p s)).props
        ≡ to_map (load_default_into_prop name p s).props
  load_default_again name p s =
      let m = to_map s.props in
      let v = merged p (lookup name m) in
      let t = load_default_into_prop name p s in
      let at : lookup name (to_map t.props) ≡ some v =
        ap (lookup name) (load_default-props name p s)
        ∙ lookup-insert name name v m
        ∙ ground arith in
      load_default-props name p t
      ∙ ap (λ o. insert name (merged p o) (to_map t.props)) at
      ∙ ap (λ w. insert name w (to_map t.props)) (merged_idem p (lookup name m))
      ∙ ap (insert name v) (load_default-props name p s)
      ∙ insert-insert name v v m
      ∙ sym (load_default-props name p s)
