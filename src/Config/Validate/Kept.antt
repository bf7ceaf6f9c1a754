-- ===== src/Config/Validate/Kept.antt =====
-- Which stores `Validate` keeps, by what their properties refer to.
use blank_sr.Base.{
  ◌≡◌, ◌⊎◌, ◌∙◌, refl, ap, sym, subst, inl, inr, String, Bool, true, false, none, some, List, ◌==◌,
  if◌then◌else◌, string_eq, Option-cases,
}
use blank_sr.Base.Map.{lookup}
use blank_sr.Base.Merging.{IsUnique, made}
use blank_sr.Config.Names.{
  obj_directory, default_directory, obj_process, obj_notification, obj_single, default_process,
  default_notification, default_single,
}
use blank_sr.Config.Props.{Floats}
use blank_sr.Config.Stores.{Store, Stores, MigrationTask}
use blank_sr.Config.Validate.{
  is_default, with_default, with_notification, with_type_default, refs_exist, complete, cleaned,
  finished, validate, valid_stores,
}
use blank_sr.Config.Validate.Laws.{given, lookup-validate, made-some}
use blank_sr.Config.Validate.References.{RefersTo, Dangles, refs_kept, refs_lost}

module _ {F R : Type 0} (fl : Floats F) (blank : R) (conf : Stores F R) (unique : IsUnique conf)
    (sort : List MigrationTask → List MigrationTask) where
  abbrev valid : Stores F R
  valid = given fl blank conf unique

  validate-some :
      (j : String) (s : Store F R)
      → lookup j valid ≡ some s
      → lookup j (validate fl blank sort conf) ≡ (
          if refs_exist valid s.props
          then some (record (complete valid j s) {
            migration = cleaned sort (complete valid j s).migration;
          })
          else none)
  validate-some j s at =
      lookup-validate fl blank conf unique sort j
      ∙ ap (made (finished sort valid) j) at
      ∙ made-some fl blank conf unique sort j s

  all_kept : (s : Store F R) → ¬ Dangles valid s.props → refs_exist valid s.props ≡ true
  all_kept s all = go (refs_exist valid s.props) refl
    where
      go : (b : Bool) → refs_exist valid s.props ≡ b → refs_exist valid s.props ≡ true
      go true h = h
      go false h = absurd (all (refs_lost valid s.props h))

  one_lost : (s : Store F R) → Dangles valid s.props → refs_exist valid s.props ≡ false
  one_lost s (n, refers, lost) = go (refs_exist valid s.props) refl
    where
      go : (b : Bool) → refs_exist valid s.props ≡ b → refs_exist valid s.props ≡ false
      go true h = absurd (refs_kept valid n s.props h refers lost)
      go false h = h

  -- Of the stores that pass the first loop of `Validate`, whose given stores have different names,
  -- exactly those are in the result of which each store that a property, or one nested in it,
  -- refers to passes the first loop too. A store that is not in the result refers to one that does
  -- not pass. Nothing else is in the result.
  pub validate_keeps :
      (j : String)
      → ((lookup j (valid_stores fl blank conf) ≡ none)
          × (lookup j (validate fl blank sort conf) ≡ none))
        ⊎ ((s : Store F R) × (lookup j (valid_stores fl blank conf) ≡ some s)
            × (((r : Store F R) × (lookup j (validate fl blank sort conf) ≡ some r)
                  × (¬ Dangles (valid_stores fl blank conf) s.props))
                ⊎ ((lookup j (validate fl blank sort conf) ≡ none)
                    × Dangles (valid_stores fl blank conf) s.props)))
  validate_keeps j = elim (Option-cases (lookup j valid)) [
    | inl e ↦
        inl (e, lookup-validate fl blank conf unique sort j ∙ ap (made (finished sort valid) j) e)
    | inr (s, e) ↦ inr (s, e, go s (validate-some j s e) (refs_exist valid s.props) refl)
  ]
    where
      go :
          (s : Store F R)
          → lookup j (validate fl blank sort conf) ≡ (
              if refs_exist valid s.props
              then some (record (complete valid j s) {
                migration = cleaned sort (complete valid j s).migration;
              })
              else none)
          → (b : Bool) → refs_exist valid s.props ≡ b
          → ((r : Store F R) × (lookup j (validate fl blank sort conf) ≡ some r)
              × (¬ Dangles valid s.props))
            ⊎ ((lookup j (validate fl blank sort conf) ≡ none) × Dangles valid s.props)
      go s is true h = inl (
        record (complete valid j s) { migration = cleaned sort (complete valid j s).migration },
        is ∙ rw h refl,
        λ (n, refers, lost). refs_kept valid n s.props h refers lost,
      )
      go s is false h = inr (is ∙ rw h refl, refs_lost valid s.props h)

  with_type_default-plain : (s : Store F R) → s.typ ≡ obj_directory → with_type_default valid s ≡ s
  unfolding string_eq
  with_type_default-plain s typ =
      ap
        (λ (t : String).
          if t == obj_process
          then with_default (lookup default_process valid) s
          else if t == obj_notification
          then with_notification (lookup default_notification valid) s
          else if t == obj_single
          then with_default (lookup default_single valid) s
          else s)
        typ

  complete-plain :
      (j : String) (s : Store F R)
      → s.typ ≡ obj_directory
      → lookup default_directory valid ≡ none
      → complete valid j s ≡ s
  unfolding complete
  complete-plain j s typ bare =
      ap (λ o. if is_default j then s else with_type_default valid (with_default o s)) bare
      ∙ either (is_default j)
    where
      either : (b : Bool) → (if b then s else with_type_default valid s) ≡ s
      either true = refl
      either false = with_type_default-plain s typ

  -- References are not looked at again for what is dropped: a directory that passes the first loop, where there
  -- is no default directory and every store to which it refers passes that loop, is in the result
  -- and still refers to a store that passed it but is not in the result, since that one refers to
  -- a store that did not pass.
  pub ref_to_ignored :
      (a b : String) (s t : Store F R)
      → lookup default_directory (valid_stores fl blank conf) ≡ none
      → lookup a (valid_stores fl blank conf) ≡ some s
      → s.typ ≡ obj_directory
      → ¬ Dangles (valid_stores fl blank conf) s.props
      → RefersTo b s.props
      → lookup b (valid_stores fl blank conf) ≡ some t
      → Dangles (valid_stores fl blank conf) t.props
      → (r : Store F R) × (lookup a (validate fl blank sort conf) ≡ some r)
        × RefersTo b r.props
        × (lookup b (validate fl blank sort conf) ≡ none)
  ref_to_ignored a b s t bare at dir all refers bt lost =
      let u = complete valid a s in
      (
        record u { migration = cleaned sort u.migration },
        validate-some a s at ∙ rw (all_kept s all) refl,
        subst (λ (v : Store F R). RefersTo b v.props) (sym (complete-plain a s dir bare)) refers,
        validate-some b t bt ∙ rw (one_lost t lost) refl,
      )
