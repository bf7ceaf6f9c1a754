-- ===== src/Config/Validate/Typed.antt =====
-- The properties of the stores that the first loop of `Validate` keeps.
use blank_sr.Base.{◌≡◌, ◌∙◌, refl, sym, String, true, Option, none, some, string_eq, arith, subst}
use blank_sr.Base.Map.{lookup}
use blank_sr.Base.Merging.{IsUnique, made, value_of}
use blank_sr.Config.Checks.{Checked, valid, invalid}
use blank_sr.Config.Props.{Floats, Properties}
use blank_sr.Config.Stores.{Store, Stores}
use blank_sr.Config.Switch.{validate_props}
use blank_sr.Config.Typing.{AllTyped}
use blank_sr.Config.Typing.Accepted.{validate_props-AllTyped}
use blank_sr.Config.Validate.{prepare, checked, valid_store, valid_stores}
use blank_sr.Config.Validate.Laws.{lookup-valid}

module _ {F R : Type 0} (fl : Floats F) (blank : R) where
  checked-AllTyped :
      (name : String) (o : Store F R) (c : Checked (Properties F R)) (s : Store F R)
      → ((qs : Properties F R) → c ≡ valid qs → AllTyped fl true qs)
      → value_of (checked fl blank name o c) ≡ some s
      → AllTyped fl true s.props
  checked-AllTyped name o (valid qs) s own h = subst (AllTyped fl true) (ground arith) (own qs refl)
  checked-AllTyped name o (invalid f p) s own h = cc

  made-AllTyped :
      (j : String) (o : Option (Store F R)) (s : Store F R)
      → made (valid_store fl blank) j o ≡ some s
      → AllTyped fl true s.props
  unfolding valid_store
  made-AllTyped j none s h = cc
  made-AllTyped j (some o) s h =
      let p = prepare fl blank j o in
      checked-AllTyped j p (validate_props fl true p.props) s
        (validate_props-AllTyped fl true p.props) h

  -- The properties of a store that passes the first loop of `Validate`, whose given stores have
  -- different names, are typed, nested ones of objects included: each is of a known type and,
  -- unless `validateProps` leaves its type alone, has a default of its own type, an expression or
  -- none where its type has defaults, bounds or lengths in order, the store or key that a
  -- reference needs, and none of the parameters that its type clears; an object has no objects in
  -- it.
  pub valid_stores-AllTyped :
      (conf : Stores F R)
      → IsUnique conf
      → (j : String) (s : Store F R) → lookup j (valid_stores fl blank conf) ≡ some s
      → AllTyped fl true s.props
  valid_stores-AllTyped conf unique j s h =
      made-AllTyped j (lookup j conf) s (sym (lookup-valid fl blank conf unique j) ∙ h)
