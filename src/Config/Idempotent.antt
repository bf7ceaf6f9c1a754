-- ===== src/Config/Idempotent.antt =====
-- `validateProps` on its own results.
use blank_sr.Base.{String, Bool, false, ◌≡◌, ◌∙◌, refl, sym, subst}
use blank_sr.Config.Again.{valid-injective, validate_prop-property}
use blank_sr.Config.Again.Cases.{kind_idem}
use blank_sr.Config.Checks.{Checked, valid, invalid, kind_of}
use blank_sr.Config.Props.{Floats, Property, Properties, property, end, entry}
use blank_sr.Config.Switch.{typed, and_entry, validate_prop, validate_props}

module _ {F R : Type 0} (fl : Floats F) where
  pub validate_props-entry :
      (parse : Bool) (k : String) (p : Property F R) (ps : Properties F R)
      → validate_props fl parse (entry k p ps)
        ≡ and_entry k (validate_prop fl parse k p) (validate_props fl parse ps)
  unfolding validate_props
  validate_props-entry parse k p ps = refl

  pub validate_props-end : (parse : Bool) → validate_props {R = R} fl parse end ≡ valid end
  unfolding validate_props
  validate_props-end parse = refl

  entry_idem :
      (parse : Bool) (k : String) (c : Checked (Property F R)) (d : Checked (Properties F R))
      (qs : Properties F R)
      → ((q : Property F R) → c ≡ valid q → validate_prop fl parse k q ≡ valid q)
      → ((rs : Properties F R) → d ≡ valid rs → validate_props fl parse rs ≡ valid rs)
      → and_entry k c d ≡ valid qs
      → validate_props fl parse qs ≡ valid qs
  entry_idem parse k (valid q) (valid rs) qs one rest h =
      subst (λ z. validate_props fl parse z ≡ valid z) (valid-injective (entry k q rs) qs h)
        (rw (validate_props-entry parse k q rs, one q refl, rest rs refl) refl)
  entry_idem parse k (valid q) (invalid f n) qs one rest h = cc
  entry_idem parse k (invalid f n) d qs one rest h = cc

  mutual
    prop_idem :
        (parse : Bool) (name : String) (p q : Property F R)
        → validate_prop fl parse name p ≡ valid q
        → validate_prop fl parse name q ≡ valid q
    prop_idem parse name (property a ps) q h =
        kind_idem fl name a ps q parse (kind_of (typed name a).typ) (validate_props fl false ps)
          refl (props_idem false ps) (sym (validate_prop-property fl parse name a ps) ∙ h)

    props_idem :
        (parse : Bool) (ps qs : Properties F R)
        → validate_props fl parse ps ≡ valid qs
        → validate_props fl parse qs ≡ valid qs
    props_idem parse end qs h =
        subst (λ z. validate_props fl parse z ≡ valid z)
          (valid-injective end qs (sym (validate_props-end parse) ∙ h)) (validate_props-end parse)
    props_idem parse (entry k p ps) qs h =
        entry_idem parse k (validate_prop fl parse k p) (validate_props fl parse ps) qs
          (prop_idem parse k p) (props_idem parse ps) (sym (validate_props-entry parse k p ps) ∙ h)

  -- What `validateProps` makes of properties that it accepts, it accepts again and leaves as it
  -- is, nested properties included.
  pub validate_props_idem :
      (parse : Bool) (ps qs : Properties F R)
      → validate_props fl parse ps ≡ valid qs
      → validate_props fl parse qs ≡ valid qs
  validate_props_idem = props_idem
