-- ===== src/Config/Validate/Laws.antt =====
-- Which stores are in the result of `Validate`.
use blank_sr.Base.{
  ◌≡◌, ◌∙◌, refl, ap, sym, String, Bool, true, false, Option, none, some, List, [], ◌∷◌, ◌==◌,
  if◌then◌else◌, string_eq, arith,
}
use blank_sr.Base.Map.{Map, lookup, lookup-nil}
use blank_sr.Base.Merging.{IsUnique, first_of, made, value_of, lookup-collect, collect-IsUnique}
use blank_sr.Config.Checks.{Checked, valid, invalid}
use blank_sr.Config.Defaults.{load_defaults, merge_access, merge_filters, load_default_into_prop}
use blank_sr.Config.Names.{obj_process, obj_notification, obj_single, default_directory}
use blank_sr.Config.Props.{Floats, Property, Properties}
use blank_sr.Config.Stores.{Store, Stores, MigrationTask}
use blank_sr.Config.Switch.{validate_props}
use blank_sr.Config.Validate.{
  prepare, checked, valid_store, valid_stores, refs_exist, with_default, with_notification,
  with_type_default, complete, is_default, cleaned, finished, validate,
}

first_of-none {ℓ} : {A : Type ℓ} (o : Option A) → first_of o none ≡ o
first_of-none none = refl
first_of-none (some a) = refl

module _ {F R : Type 0} where
  load_default-store :
      (name : String) (p : Property F R) (s : Store F R)
      → (load_default_into_prop name p s).store ≡ s.store
  unfolding load_default_into_prop
  load_default-store name p s = refl

  load_defaults-store :
      (ps : Map String (Property F R)) (s : Store F R) → (load_defaults ps s).store ≡ s.store
  unfolding load_defaults
  load_defaults-store [] s = refl
  load_defaults-store ((name, p) ∷ ps) s =
      load_defaults-store ps (load_default_into_prop name p s) ∙ load_default-store name p s

  with_default-store : (d : Option (Store F R)) (s : Store F R) → (with_default d s).store ≡ s.store
  unfolding merge_filters
  with_default-store none s = refl
  with_default-store (some d) s = load_defaults-store _ (merge_filters d s)

  with_notification-store :
      (d : Option (Store F R)) (s : Store F R) → (with_notification d s).store ≡ s.store
  unfolding merge_access
  with_notification-store none s = refl
  with_notification-store (some d) s = load_defaults-store _ (merge_access d s)

  with_type-store : (conf : Stores F R) (s : Store F R) → (with_type_default conf s).store ≡ s.store
  with_type-store conf s =
      choose (s.typ == obj_process) (s.typ == obj_notification) (s.typ == obj_single)
    where
      choose :
          (a b c : Bool)
          → (if a
              then with_default (lookup "_defaultProcess" conf) s
              else if b
              then with_notification (lookup "_defaultNotifications" conf) s
              else if c
              then with_default (lookup "_defaultSingle" conf) s
              else s).store
            ≡ s.store
      choose true b c = with_default-store _ s
      choose false true c = with_notification-store _ s
      choose false false true = with_default-store _ s
      choose false false false = refl

  pub complete-store :
      (conf : Stores F R) (name : String) (s : Store F R) → (complete conf name s).store ≡ s.store
  unfolding complete
  complete-store conf name s = choose (is_default name)
    where
      choose :
          (b : Bool)
          → (if b
              then s
              else with_type_default conf (with_default (lookup default_directory conf) s)).store
            ≡ s.store
      choose true = refl
      choose false = with_type-store conf _ ∙ with_default-store (lookup default_directory conf) s

  finished-keys :
      (sort : List MigrationTask → List MigrationTask) (conf : Stores F R) (k j : String)
      (s t : Store F R)
      → s.store ≡ k
      → finished sort conf k s ≡ some (j, t)
      → j ≡ k
  unfolding finished
  finished-keys sort conf k j s t own h = ground (arith, complete-store conf k s)

module _ {F R : Type 0} (fl : Floats F) (blank : R) where
  prepare-store : (name : String) (o : Store F R) → (prepare fl blank name o).store ≡ name
  unfolding prepare
  prepare-store name o = ground arith

  checked-keys :
      (name : String) (o : Store F R) (c : Checked (Properties F R)) (j : String) (s : Store F R)
      → checked fl blank name o c ≡ some (j, s)
      → (j ≡ name) × (s.store ≡ o.store)
  checked-keys name o (valid ps) j s h = (ground arith, ground arith)
  checked-keys name o (invalid f p) j s h = cc

  valid_store-keys :
      (name : String) (o : Store F R) (j : String) (s : Store F R)
      → valid_store fl blank name o ≡ some (j, s)
      → (j ≡ name) × (s.store ≡ name)
  unfolding valid_store
  valid_store-keys name o j s h =
      let p = prepare fl blank name o in
      let (key, store) = checked-keys name p (validate_props fl true p.props) j s h in
      (key, store ∙ prepare-store name o)

  module _ (conf : Stores F R) (unique : IsUnique conf) where
    abbrev pub given : Stores F R
    given = valid_stores fl blank conf

    -- The first loop.
    pub lookup-valid : (j : String) → lookup j given ≡ made (valid_store fl blank) j (lookup j conf)
    unfolding valid_stores
    lookup-valid j =
        lookup-collect (valid_store fl blank) conf [] j
          (λ k i v w at h. (valid_store-keys k v i w h).0) unique
        ∙ ap (first_of (made (valid_store fl blank) j (lookup j conf))) (lookup-nil j)
        ∙ first_of-none _

    value_of-store :
        (j : String) (o : Option (Store F R)) (s : Store F R)
        → made (valid_store fl blank) j o ≡ some s
        → s.store ≡ j
    value_of-store j none s h = cc
    value_of-store j (some o) s h = go (valid_store fl blank j o) refl h
      where
        go :
            (r : Option (String × Store F R))
            → valid_store fl blank j o ≡ r
            → value_of r ≡ some s
            → s.store ≡ j
        go none e h = cc
        go (some (i, t)) e h = ground (arith, (valid_store-keys j o i t e).1)

    given-store : (j : String) (s : Store F R) → lookup j given ≡ some s → s.store ≡ j
    given-store j s h = value_of-store j (lookup j conf) s (sym (lookup-valid j) ∙ h)

    module _ (sort : List MigrationTask → List MigrationTask) where
      -- The second loop.
      pub lookup-validate :
          (j : String)
          → lookup j (validate fl blank sort conf) ≡ made (finished sort given) j (lookup j given)
      unfolding validate
      lookup-validate j =
          lookup-collect (finished sort given) given [] j
            (λ k i v w at h. finished-keys sort given k i v w (given-store k v at) h)
            (collect-IsUnique (valid_store fl blank) conf [] tt)
          ∙ ap (first_of (made (finished sort given) j (lookup j given))) (lookup-nil j)
          ∙ first_of-none _

      made-none : (j : String) → made (finished sort given) j none ≡ none
      made-none j = refl

      pub made-some :
          (j : String) (s : Store F R)
          → made (finished sort given) j (some s) ≡ (
              if refs_exist given s.props
              then some (record (complete given j s) {
                migration = cleaned sort (complete given j s).migration;
              })
              else none)
      unfolding finished
      made-some j s = ground arith

      -- A store is in the result of `Validate` exactly when its properties pass `validateProps` and
      -- each store that they, or the properties nested in them, refer to is given and passes too;
      -- it is then completed from the default stores, and its migrations are cleaned up.
      pub validate_lem :
          (j : String)
          → lookup j (validate fl blank sort conf)
            ≡ elim (made (valid_store fl blank) j (lookup j conf)) [
              | none ↦ none
              | some s ↦
                  if refs_exist given s.props
                  then some (record (complete given j s) {
                    migration = cleaned sort (complete given j s).migration;
                  })
                  else none
            ]
      validate_lem j =
          lookup-validate j
          ∙ ap (made (finished sort given) j) (lookup-valid j)
          ∙ go (made (valid_store fl blank) j (lookup j conf))
        where
          go :
              (o : Option (Store F R))
              → made (finished sort given) j o ≡ elim o [
                | none ↦ none
                | some s ↦
                    if refs_exist given s.props
                    then some (record (complete given j s) {
                      migration = cleaned sort (complete given j s).migration;
                    })
                    else none
              ]
          go none = refl
          go (some s) = made-some j s
