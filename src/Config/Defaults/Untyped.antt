-- ===== src/Config/Defaults/Untyped.antt =====
-- `Validate` checks the properties of a store before it completes them, and not again.
use blank_sr.Base.{
  ◌≡◌, ◌≢◌, ◌∙◌, refl, ap, sym, subst, String, Bool, true, false, some, string_eq, arith,
}
use blank_sr.Base.Map.{lookup, lookup-insert}
use blank_sr.Config.Checks.{
  int, unknown, kind_of, invalid, wrong_default, clear_string_params, clear_ref_params,
  default_fits,
}
use blank_sr.Config.Defaults.{text_or, override, merged, load_default_into_prop}
use blank_sr.Config.Defaults.Laws.{load_default-props}
use blank_sr.Config.Props.{
  Floats, Attrs, Property, Properties, property, end, attrs, nested, to_map,
}
use blank_sr.Config.Stores.{Store}
use blank_sr.Config.Switch.{typed, check_number, by_kind, validate_prop, validate_props}
use blank_sr.Config.Typing.{HasDefault, unset, expression, constant, OfKind, IsTyped, AllTyped}
use blank_sr.Values.{Value, string, number, null}

kind_of-empty : kind_of "" ≡ unknown
unfolding kind_of string_eq
kind_of-empty = refl

int_named : (t : String) → kind_of t ≡ int → t ≢ ""
int_named t k e = no (sym k ∙ ap kind_of e ∙ kind_of-empty)
  where
    no : ¬ (int ≡ unknown)
    no e = cc

text_or-some : (x y : String) → x ≢ "" → text_or x y ≡ x
text_or-some x y ne = ground arith

module _ {F : Type 0} where
  string_no_number : (u : String) (v : Value F) → v ≡ string u → HasDefault F number v → ⊥
  string_no_number u v e (unset h) = cc
  string_no_number u v e (expression d h k) = cc
  string_no_number u v e (constant x h) = cc

typed-named :
    {F R : Type 0} (name : String) (a : Attrs F R) → a.typ ≢ "" → (typed name a).typ ≡ a.typ
typed-named name a ne = ground arith

module _ {F R : Type 0} (fl : Floats F) (parse : Bool) where
  int_default :
      (a : Attrs F R) (ps : Properties F R) (u : String)
      → kind_of a.typ ≡ int
      → a.default ≡ string u
      → IsTyped fl parse (property a ps)
      → ⊥
  unfolding IsTyped OfKind
  int_default a ps u k d of =
      string_no_number u a.default d
        (subst (OfKind fl parse (ps ≡ end) (AllTyped fl false ps) a) k of).0

  check_number-string :
      (name : String) (a : Attrs F R) (u : String)
      → a.default ≡ string u
      → check_number fl (typed name a) ≡ invalid wrong_default name
  unfolding check_number clear_string_params clear_ref_params default_fits
  check_number-string name a u d = rw d refl

  validate_prop-int :
      (name : String) (a : Attrs F R) (ps : Properties F R) (u : String)
      → kind_of a.typ ≡ int
      → a.default ≡ string u
      → validate_prop fl parse name (property a ps) ≡ invalid wrong_default name
  unfolding validate_prop by_kind
  validate_prop-int name a ps u k d =
      let is_int : kind_of (typed name a).typ ≡ int =
        ap kind_of (typed-named name a (int_named a.typ k)) ∙ k in
      ap (by_kind fl parse (validate_props fl false ps) (property a ps) (typed name a) ps) is_int
      ∙ check_number-string name a u d

  -- Where a store has an integer property without a default value, and the default store has a
  -- configurable property of that name whose default value is a string, the completed property of
  -- the store is an integer with that string as its default value: `validateProps` refuses that
  -- property, as one with a wrong default, and it is not typed.
  pub untyped_default :
      (name : String) (p prop : Property F R) (s : Store F R) (u : String)
      → (attrs p).configurable ≡ true
      → (attrs p).default ≡ string u
      → lookup name (to_map s.props) ≡ some prop
      → kind_of (attrs prop).typ ≡ int
      → (attrs prop).default ≡ null
      → (q : Property F R) × (lookup name (to_map (load_default_into_prop name p s).props) ≡ some q)
        × (kind_of (attrs q).typ ≡ int)
        × ((attrs q).default ≡ string u)
        × (validate_prop fl parse name q ≡ invalid wrong_default name)
        × (¬ IsTyped fl parse q)
  unfolding override
  untyped_default name p prop s u c d e k bare =
      let m = to_map s.props in
      let v = merged p (lookup name m) in
      let q = override (attrs prop) (attrs p) in
      let typ : kind_of q.typ ≡ int =
        ap kind_of (text_or-some (attrs prop).typ (attrs p).typ (int_named (attrs prop).typ k))
        ∙ k in
      let default : q.default ≡ string u = ground (arith, bare, d) in
      (
        property q (nested p),
        ap (lookup name) (load_default-props name p s)
            ∙ lookup-insert name name v m
            ∙ ground (arith, e, c),
        typ,
        default,
        validate_prop-int name q (nested p) u typ default,
        int_default q (nested p) u typ default,
      )
