-- ===== src/Config/Again/Cases.antt =====
-- Each case of the switch gives its own result back.
use blank_sr.Base.{String, Bool, true, false, ◌≡◌, ◌≢◌, ◌∙◌, refl, ap, subst}
use blank_sr.Config.Again.{
  finish, typed-typ, validate_prop-property, check_number-kept, check_boolean-kept, check_text-kept,
  check_date-kept, check_ref-kept, check_virtual_ref_list-kept, valid-injective,
}
use blank_sr.Config.Checks.{
  Kind, skipped, int, float, boolean, text, date, ref, ref_list, virtual, object_kind, object_list,
  virtual_ref_list, comments, virtual_client, unknown, kind_of, Checked, valid, invalid,
  clear_number_params, clear_ref_params, clear_string_params, is_text, is_array,
}
use blank_sr.Config.Props.{Floats, Attrs, Property, Properties, property, end}
use blank_sr.Config.Switch.{
  typed, with_nested, check_number, check_boolean, by_kind, validate_prop, validate_props,
}
use blank_sr.Values.{null, string}

module _ {F R : Type 0} (fl : Floats F) (name : String) (a : Attrs F R) (ps : Properties F R)
    (r : Property F R) where
  abbrev t : Attrs F R
  t = typed name a

  number_idem :
      (parse : Bool) (k : Kind)
      → kind_of t.typ ≡ k
      → ((q : Attrs F R)
          → by_kind fl parse (validate_props fl false end) (property q end) q end k
            ≡ check_number fl q)
      → check_number fl t ≡ valid r
      → validate_prop fl parse name r ≡ valid r
  unfolding check_number
  number_idem parse k e case h =
      finish fl parse name (clear_ref_params (clear_string_params t)) end k r
        (check_number-kept fl t r h) refl (typed-typ fl parse name a) e (case _ ∙ h)

  nested_idem :
      (parse : Bool) (k : Kind) (q : Attrs F R) (inner : Checked (Properties F R))
      → q.name ≡ name
      → q.typ ≢ ""
      → kind_of q.typ ≡ k
      → ((ps' : Properties F R)
          → by_kind fl parse (validate_props fl false ps') (property q ps') q ps' k
            ≡ with_nested (validate_props fl false ps') q)
      → ((qs : Properties F R) → inner ≡ valid qs → validate_props fl false qs ≡ valid qs)
      → with_nested inner q ≡ valid r
      → validate_prop fl parse name r ≡ valid r
  nested_idem parse k q (invalid f m) same n e case ih h = cc
  nested_idem parse k q (valid qs) same n e case ih h =
      finish fl parse name q qs k r (valid-injective _ r h) same n e
        (case qs ∙ ap (λ z. with_nested z q) (ih qs refl) ∙ h)

  -- A property that is left as it was.
  left_idem :
      (parse : Bool) (k : Kind)
      → kind_of t.typ ≡ k
      → ((inner : Checked (Properties F R))
          → by_kind fl parse inner (property a ps) t ps k ≡ valid (property a ps))
      → property a ps ≡ r
      → validate_prop fl parse name r ≡ valid r
  left_idem parse k e case h =
      subst (λ z. validate_prop fl parse name z ≡ valid z) h
        (validate_prop-property fl parse name a ps
          ∙ ap (by_kind fl parse (validate_props fl false ps) (property a ps) t ps) e
          ∙ case (validate_props fl false ps))

  pub kind_idem :
      (parse : Bool) (k : Kind) (inner : Checked (Properties F R))
      → kind_of t.typ ≡ k
      → ((qs : Properties F R) → inner ≡ valid qs → validate_props fl false qs ≡ valid qs)
      → by_kind fl parse inner (property a ps) t ps k ≡ valid r
      → validate_prop fl parse name r ≡ valid r
  unfolding by_kind check_boolean
  kind_idem parse skipped inner e ih h =
      left_idem parse skipped e (λ i. refl) (valid-injective _ r h)
  kind_idem parse int inner e ih h = number_idem parse int e (λ q. refl) h
  kind_idem parse float inner e ih h = number_idem parse float e (λ q. refl) h
  kind_idem parse boolean inner e ih h =
      finish fl parse name (clear_number_params (clear_ref_params (clear_string_params t))) end
        boolean r (check_boolean-kept t r h) refl (typed-typ fl parse name a) e h
  kind_idem parse text inner e ih h =
      finish fl parse name (clear_ref_params (clear_number_params t)) end text r
        (check_text-kept t r h) refl (typed-typ fl parse name a) e h
  kind_idem parse date inner e ih h =
      finish fl parse name (clear_ref_params (clear_string_params t)) end date r
        (check_date-kept t r h) refl (typed-typ fl parse name a) e h
  kind_idem parse ref inner e ih h =
      finish fl parse name (clear_number_params (clear_string_params t)) ps ref r
        (check_ref-kept is_text t ps r h) refl (typed-typ fl parse name a) e h
  kind_idem parse ref_list inner e ih h =
      finish fl parse name (clear_number_params (clear_string_params t)) ps ref_list r
        (check_ref-kept is_array t ps r h) refl (typed-typ fl parse name a) e h
  kind_idem parse virtual inner e ih h =
      finish fl parse name
        (record (clear_number_params (clear_ref_params (clear_string_params t))) { default = null })
        end virtual r (valid-injective _ r h) refl (typed-typ fl parse name a) e h
  kind_idem true object_kind inner e ih h =
      nested_idem true object_kind (clear_number_params (clear_ref_params (clear_string_params t)))
        inner refl (typed-typ fl true name a) e (λ ps'. refl) ih h
  kind_idem false object_kind inner e ih h = cc
  kind_idem true object_list inner e ih h =
      nested_idem true object_list
        (clear_number_params
          (clear_ref_params (record t { pattern = string ""; mask = string "" })))
        inner refl (typed-typ fl true name a) e (λ ps'. refl) ih h
  kind_idem false object_list inner e ih h = cc
  kind_idem parse virtual_ref_list inner e ih h =
      finish fl parse name (record (clear_number_params (clear_string_params t)) { default = null })
        end virtual_ref_list r (check_virtual_ref_list-kept t r h) refl (typed-typ fl parse name a)
        e h
  kind_idem parse comments inner e ih h =
      finish fl parse name (clear_number_params (clear_string_params t)) ps comments r
        (valid-injective _ r h) refl (typed-typ fl parse name a) e h
  kind_idem parse virtual_client inner e ih h =
      left_idem parse virtual_client e (λ i. refl) (valid-injective _ r h)
  kind_idem parse unknown inner e ih h = cc
