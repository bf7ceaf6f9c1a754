-- ===== src/Config/Again.antt =====
-- Checked properties pass `validateProps` again, and it changes nothing.
pub mod Cases
use blank_sr.Base.{
  String, Bool, true, false, not, ◌&&◌, ◌≡◌, ◌≢◌, ◌∙◌, refl, ap, sym, subst, Option, none, some,
  ◌==◌, if◌then◌else◌, string_eq, arith, Bool-cases, inl, inr,
}
use blank_sr.Config.Checks.{
  Kind, skipped, int, float, boolean, text, date, ref, ref_list, virtual, object_kind, object_list,
  virtual_ref_list, comments, virtual_client, unknown, kind_of, Fault, Checked, valid, invalid,
  clear_number_params, clear_ref_params, clear_string_params, is_text, is_array,
}
use blank_sr.Config.Names.{prop_string}
use blank_sr.Config.Props.{Floats, Attrs, Property, Properties, property, end, entry}
use blank_sr.Config.Switch.{
  typed, with_nested, check_number, check_boolean, check_text, check_date, check_ref, check_virtual,
  check_object, check_object_list, check_virtual_ref_list, check_comments, by_kind, and_entry,
  validate_prop, validate_props,
}
use blank_sr.Values.{Value, null, string}

string_named : prop_string ≢ ""
string_named e = cc

pub kind_of-string : kind_of prop_string ≡ text
unfolding kind_of string_eq
kind_of-string = refl

module _ {F R : Type 0} (fl : Floats F) (parse : Bool) (name : String) where
  pub typed-typ : (a : Attrs F R) → (typed name a).typ ≢ ""
  typed-typ a = ground (arith, string_named)

  typed_same : (q : Attrs F R) → q.name ≡ name → q.typ ≢ "" → typed name q ≡ q
  typed_same q h k = ground arith

  pub validate_prop-property :
      (a : Attrs F R) (ps : Properties F R)
      → validate_prop fl parse name (property a ps)
        ≡ by_kind fl parse
            (validate_props fl false ps)
            (property a ps)
            (typed name a)
            ps
            (kind_of (typed name a).typ)
  unfolding validate_prop
  validate_prop-property a ps = refl

  again :
      (q : Attrs F R) (qs : Properties F R) (k : Kind)
      → q.name ≡ name
      → q.typ ≢ ""
      → kind_of q.typ ≡ k
      → validate_prop fl parse name (property q qs)
        ≡ by_kind fl parse (validate_props fl false qs) (property q qs) q qs k
  again q qs k h n e =
      let inner = validate_props fl false qs in
      validate_prop-property q qs
      ∙ ap (λ z. by_kind fl parse inner (property q qs) z qs (kind_of z.typ)) (typed_same q h n)
      ∙ ap (by_kind fl parse inner (property q qs) q qs) e

  -- A result that its own case gives back passes again.
  pub finish :
      (q : Attrs F R) (qs : Properties F R) (k : Kind) (r : Property F R)
      → property q qs ≡ r
      → q.name ≡ name
      → q.typ ≢ ""
      → kind_of q.typ ≡ k
      → by_kind fl parse (validate_props fl false qs) (property q qs) q qs k ≡ valid r
      → validate_prop fl parse name r ≡ valid r
  finish q qs k r kept h n e last =
      subst (λ z. validate_prop fl parse name z ≡ valid r) kept (again q qs k h n e ∙ last)

module _ {F R : Type 0} where
  -- What each case keeps, where it keeps a property.
  pub check_number-kept :
      (fl : Floats F) (p : Attrs F R) (r : Property F R)
      → check_number fl p ≡ valid r
      → property (clear_ref_params (clear_string_params p)) end ≡ r
  unfolding check_number
  check_number-kept fl p r h = ground arith

  pub check_boolean-kept :
      (p : Attrs F R) (r : Property F R)
      → check_boolean p ≡ valid r
      → property (clear_number_params (clear_ref_params (clear_string_params p))) end ≡ r
  unfolding check_boolean
  check_boolean-kept p r h = ground arith

  pub check_text-kept :
      (p : Attrs F R) (r : Property F R)
      → check_text p ≡ valid r
      → property (clear_ref_params (clear_number_params p)) end ≡ r
  unfolding check_text
  check_text-kept p r h = ground arith

  pub check_date-kept :
      (p : Attrs F R) (r : Property F R)
      → check_date p ≡ valid r
      → property (clear_ref_params (clear_string_params p)) end ≡ r
  unfolding check_date
  check_date-kept p r h = ground arith

  pub check_ref-kept :
      (fits : Value F → Bool) (p : Attrs F R) (ps : Properties F R) (r : Property F R)
      → check_ref fits p ps ≡ valid r
      → property (clear_number_params (clear_string_params p)) ps ≡ r
  unfolding check_ref
  check_ref-kept fits p ps r h = ground arith

  pub check_virtual_ref_list-kept :
      (p : Attrs F R) (r : Property F R)
      → check_virtual_ref_list p ≡ valid r
      → property (record (clear_number_params (clear_string_params p)) { default = null }) end ≡ r
  unfolding check_virtual_ref_list
  check_virtual_ref_list-kept p r h = ground arith

pub valid-injective {ℓ} : {A : Type ℓ} (x y : A) → valid x ≡ valid y → x ≡ y
valid-injective x y h = cc
