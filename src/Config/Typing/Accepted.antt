-- ===== src/Config/Typing/Accepted.antt =====
-- What `validateProps` accepts is typed.
use blank_sr.Base.{
  ◌≡◌, ◌≢◌, ◌∙◌, refl, sym, subst, String, Bool, true, false, string_eq, ◌==◌, if◌then◌else◌,
}
use blank_sr.Config.Again.{
  validate_prop-property, kind_of-string, valid-injective, check_number-kept, check_boolean-kept,
  check_text-kept, check_date-kept, check_ref-kept, check_virtual_ref_list-kept,
}
use blank_sr.Config.Checks.{
  Kind, skipped, int, float, boolean, text, date, ref, ref_list, virtual, object_kind, object_list,
  virtual_ref_list, comments, virtual_client, unknown, kind_of, Checked, valid, invalid,
  clear_number_params, clear_ref_params, clear_string_params, is_text, is_array,
}
use blank_sr.Config.Idempotent.{validate_props-entry, validate_props-end}
use blank_sr.Config.Props.{Floats, Attrs, Property, Properties, property, end, entry}
use blank_sr.Config.Switch.{
  typed, with_nested, by_kind, and_entry, validate_prop, validate_props, check_object,
  check_object_list, check_virtual, check_comments,
}
use blank_sr.Config.Typing.{OfKind, IsTyped, AllTyped}
use blank_sr.Config.Typing.Defaults.{is_text-own, is_array-own}
use blank_sr.Config.Typing.Sound.{
  number_typed, text_typed, boolean_typed, date_typed, ref_typed, virtual_ref_list_typed,
}
use blank_sr.Values.{Values, null, string, array}

module _ {F R : Type 0} (fl : Floats F) (parse : Bool) where
  -- A kept property is of its kind.
  made-IsTyped :
      (q : Attrs F R) (qs : Properties F R) (k : Kind) (r : Property F R)
      → property q qs ≡ r
      → kind_of q.typ ≡ k
      → OfKind fl parse (qs ≡ end) (AllTyped fl false qs) q k
      → IsTyped fl parse r
  unfolding IsTyped
  made-IsTyped q qs k r kept e of =
      subst (IsTyped fl parse) kept
        (subst (OfKind fl parse (qs ≡ end) (AllTyped fl false qs) q) (sym e) of)

  abbrev Object : Attrs F R → Kind → Type 1
  Object q k = (leaf inner : Type 0) → inner → OfKind fl parse leaf inner q k

  nested-IsTyped :
      (k : Kind) (q : Attrs F R) (inner : Checked (Properties F R)) (r : Property F R)
      → kind_of q.typ ≡ k
      → Object q k
      → ((qs : Properties F R) → inner ≡ valid qs → AllTyped fl false qs)
      → with_nested inner q ≡ valid r
      → IsTyped fl parse r
  nested-IsTyped k q (invalid f m) r e of ih h = cc
  nested-IsTyped k q (valid qs) r e of ih h =
      made-IsTyped q qs k r (valid-injective _ r h) e (of _ _ (ih qs refl))

module _ {F R : Type 0} (fl : Floats F) (name : String) (a : Attrs F R) (ps : Properties F R)
    (r : Property F R) where
  abbrev t : Attrs F R
  t = typed name a

  own_kind :
      (b : Bool) (k : Kind)
      → (a.typ == "") ≡ b
      → kind_of (if b then "string" else a.typ) ≡ k
      → k ≢ text
      → kind_of a.typ ≡ k
  own_kind true k same e other = elim (other (sym e ∙ kind_of-string)) [ ]
  own_kind false k same e other = e

  -- A kind that is skipped keeps the property with its own type.
  left-IsTyped :
      (parse : Bool) (k : Kind)
      → kind_of t.typ ≡ k
      → k ≢ text
      → ((leaf inner : Type 0) → OfKind fl parse leaf inner a k)
      → property a ps ≡ r
      → IsTyped fl parse r
  left-IsTyped parse k e other of h =
      made-IsTyped fl parse a ps k r h (own_kind (a.typ == "") k refl e other) (of _ _)

  kind-IsTyped :
      (parse : Bool) (k : Kind) (inner : Checked (Properties F R))
      → kind_of t.typ ≡ k
      → ((qs : Properties F R) → inner ≡ valid qs → AllTyped fl false qs)
      → by_kind fl parse inner (property a ps) t ps k ≡ valid r
      → IsTyped fl parse r
  unfolding by_kind OfKind clear_number_params clear_ref_params clear_string_params check_object
      check_object_list check_virtual check_comments
  kind-IsTyped parse skipped inner e ih h =
      left-IsTyped parse skipped e (λ no. cc) (λ l i. tt) (valid-injective _ r h)
  kind-IsTyped parse virtual_client inner e ih h =
      left-IsTyped parse virtual_client e (λ no. cc) (λ l i. tt) (valid-injective _ r h)
  kind-IsTyped parse int inner e ih h =
      let (d, b) = number_typed fl t r h in
      made-IsTyped fl parse (clear_ref_params (clear_string_params t)) end int r
        (check_number-kept fl t r h) e
        (d, b, (refl, refl, (refl, refl)), (refl, refl, refl, refl), refl)
  kind-IsTyped parse float inner e ih h =
      let (d, b) = number_typed fl t r h in
      made-IsTyped fl parse (clear_ref_params (clear_string_params t)) end float r
        (check_number-kept fl t r h) e
        (d, b, (refl, refl, (refl, refl)), (refl, refl, refl, refl), refl)
  kind-IsTyped parse boolean inner e ih h =
      made-IsTyped fl parse (clear_number_params (clear_ref_params (clear_string_params t))) end
        boolean r (check_boolean-kept t r h) e
        (
          boolean_typed t r h,
          (refl, refl),
          (refl, refl, (refl, refl)),
          (refl, refl, refl, refl),
          refl,
        )
  kind-IsTyped parse text inner e ih h =
      let (d, l) = text_typed t r h in
      made-IsTyped fl parse (clear_ref_params (clear_number_params t)) end text r
        (check_text-kept t r h) e (d, l, (refl, refl), (refl, refl, refl, refl), refl)
  kind-IsTyped parse date inner e ih h =
      made-IsTyped fl parse (clear_ref_params (clear_string_params t)) end date r
        (check_date-kept t r h) e
        (date_typed t r h, (refl, refl, (refl, refl)), (refl, refl, refl, refl), refl)
  kind-IsTyped parse ref inner e ih h =
      let (d, s) = ref_typed String string is_text is_text-own t ps r h in
      made-IsTyped fl parse (clear_number_params (clear_string_params t)) ps ref r
        (check_ref-kept is_text t ps r h) e (d, s, (refl, refl), (refl, refl, (refl, refl)))
  kind-IsTyped parse ref_list inner e ih h =
      let (d, s) = ref_typed (Values F) array is_array is_array-own t ps r h in
      made-IsTyped fl parse (clear_number_params (clear_string_params t)) ps ref_list r
        (check_ref-kept is_array t ps r h) e (d, s, (refl, refl), (refl, refl, (refl, refl)))
  kind-IsTyped parse virtual inner e ih h =
      made-IsTyped fl parse
        (record (clear_number_params (clear_ref_params (clear_string_params t))) { default = null })
        end virtual r (valid-injective _ r h) e
        (refl, (refl, refl), (refl, refl, (refl, refl)), (refl, refl, refl, refl), refl)
  kind-IsTyped true object_kind inner e ih h =
      nested-IsTyped fl true object_kind
        (clear_number_params (clear_ref_params (clear_string_params t))) inner r e
        (λ l i given.
          (refl, (refl, refl), (refl, refl, (refl, refl)), (refl, refl, refl, refl), given))
        ih h
  kind-IsTyped false object_kind inner e ih h = cc
  kind-IsTyped true object_list inner e ih h =
      nested-IsTyped fl true object_list
        (clear_number_params
          (clear_ref_params (record t { pattern = string ""; mask = string "" })))
        inner r e (λ l i given. (refl, (refl, refl), (refl, refl), (refl, refl, refl, refl), given))
        ih h
  kind-IsTyped false object_list inner e ih h = cc
  kind-IsTyped parse virtual_ref_list inner e ih h =
      let (s, k) = virtual_ref_list_typed t r h in
      made-IsTyped fl parse
        (record (clear_number_params (clear_string_params t)) { default = null }) end
        virtual_ref_list r (check_virtual_ref_list-kept t r h) e
        (refl, s, k, (refl, refl), (refl, refl, (refl, refl)), refl)
  kind-IsTyped parse comments inner e ih h =
      made-IsTyped fl parse (clear_number_params (clear_string_params t)) ps comments r
        (valid-injective _ r h) e ((refl, refl), (refl, refl, (refl, refl)))
  kind-IsTyped parse unknown inner e ih h = cc

end-AllTyped : (F R : Type 0) (fl : Floats F) (parse : Bool) → AllTyped {R = R} fl parse end
unfolding AllTyped
end-AllTyped F R fl parse = tt

module _ {F R : Type 0} (fl : Floats F) where
  entry-AllTyped :
      (parse : Bool) (k : String) (c : Checked (Property F R)) (d : Checked (Properties F R))
      (qs : Properties F R)
      → ((q : Property F R) → c ≡ valid q → IsTyped fl parse q)
      → ((rs : Properties F R) → d ≡ valid rs → AllTyped fl parse rs)
      → and_entry k c d ≡ valid qs
      → AllTyped fl parse qs
  unfolding AllTyped
  entry-AllTyped parse k (valid q) (valid rs) qs one rest h =
      subst (AllTyped fl parse) (valid-injective (entry k q rs) qs h) (one q refl, rest rs refl)
  entry-AllTyped parse k (valid q) (invalid f n) qs one rest h = cc
  entry-AllTyped parse k (invalid f n) d qs one rest h = cc

  mutual
    prop-IsTyped :
        (parse : Bool) (name : String) (p q : Property F R)
        → validate_prop fl parse name p ≡ valid q
        → IsTyped fl parse q
    prop-IsTyped parse name (property a ps) q h =
        kind-IsTyped fl name a ps q parse (kind_of (typed name a).typ) (validate_props fl false ps)
          refl (props-AllTyped false ps) (sym (validate_prop-property fl parse name a ps) ∙ h)

    props-AllTyped :
        (parse : Bool) (ps qs : Properties F R)
        → validate_props fl parse ps ≡ valid qs
        → AllTyped fl parse qs
    props-AllTyped parse end qs h =
        subst (AllTyped fl parse) (valid-injective end qs (sym (validate_props-end fl parse) ∙ h))
          (end-AllTyped F R fl parse)
    props-AllTyped parse (entry k p ps) qs h =
        entry-AllTyped parse k (validate_prop fl parse k p) (validate_props fl parse ps) qs
          (prop-IsTyped parse k p) (props-AllTyped parse ps)
          (sym (validate_props-entry fl parse k p ps) ∙ h)

  -- The properties that `validateProps` accepts are left as `AllTyped` says, nested ones of objects
  -- included.
  pub validate_props-AllTyped :
      (parse : Bool) (ps qs : Properties F R)
      → validate_props fl parse ps ≡ valid qs
      → AllTyped fl parse qs
  validate_props-AllTyped = props-AllTyped
