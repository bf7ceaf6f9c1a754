-- ===== src/Handlers/Cases.antt =====
-- What holds of each outcome of a handler: the checks of its arguments fail, or the handler goes on.
use blank_sr.Base.{◌≡◌, refl, String, Option, none, some, List, [], ◌∷◌}
use blank_sr.Handlers.Guards.{not_nil, not_empty, two, three, four}
use blank_sr.Handlers.State.{App, Args, Reply, fails, panics, invalid_arguments}
use blank_sr.Values.{Value, as_string}

module _ {F Db : Type 0} (P : Reply F × App F Db → Type 0) (s : App F Db)
    (refused : P (fails invalid_arguments, s)) where
  abbrev H : Type 0
  H = App F Db → Reply F × App F Db

  pub not_nil-cases :
      (args : Args F) (k : Value F → List (Value F) → H)
      → P (panics, s)
      → ((v : Value F) (vs : List (Value F)) → args ≡ some (v ∷ vs) → P (k v vs s))
      → P (not_nil args k s)
  not_nil-cases none k out h = refused
  not_nil-cases (some []) k out h = out
  not_nil-cases (some (v ∷ vs)) k out h = h v vs refl

  pub not_empty-cases :
      (args : Args F) (k : Value F → List (Value F) → H)
      → ((v : Value F) (vs : List (Value F)) → P (k v vs s))
      → P (not_empty args k s)
  not_empty-cases none k h = refused
  not_empty-cases (some []) k h = refused
  not_empty-cases (some (v ∷ vs)) k h = h v vs

  -- `with_string`, with its function applied to the state.
  pub with_string-cases :
      (v : Value F) (k : String → Reply F × App F Db)
      → ((t : String) → as_string v ≡ some t → P (k t))
      → P (elim (as_string v) [ none ↦ (fails invalid_arguments, s) | some t ↦ k t ])
  with_string-cases v k h = go (as_string v) h
    where
      go :
          (o : Option String)
          → ((t : String) → o ≡ some t → P (k t))
          → P (elim o [ none ↦ (fails invalid_arguments, s) | some t ↦ k t ])
      go none h = refused
      go (some t) h = h t refl

  pub two-cases :
      (args : Args F) (k : Value F → Value F → H)
      → ((a b : Value F) (vs : List (Value F)) → args ≡ some (a ∷ b ∷ vs) → P (k a b s))
      → P (two args k s)
  two-cases none k h = refused
  two-cases (some []) k h = refused
  two-cases (some (a ∷ [])) k h = refused
  two-cases (some (a ∷ b ∷ vs)) k h = h a b vs refl

  pub three-cases :
      (args : Args F) (k : Value F → Value F → Value F → H)
      → ((a b c : Value F) → P (k a b c s))
      → P (three args k s)
  three-cases none k h = refused
  three-cases (some []) k h = refused
  three-cases (some (a ∷ [])) k h = refused
  three-cases (some (a ∷ b ∷ [])) k h = refused
  three-cases (some (a ∷ b ∷ c ∷ _)) k h = h a b c

  pub four-cases :
      (args : Args F) (k : Value F → Value F → Value F → Value F → H)
      → ((a b c d : Value F) → P (k a b c d s))
      → P (four args k s)
  four-cases none k h = refused
  four-cases (some []) k h = refused
  four-cases (some (a ∷ [])) k h = refused
  four-cases (some (a ∷ b ∷ [])) k h = refused
  four-cases (some (a ∷ b ∷ c ∷ [])) k h = refused
  four-cases (some (a ∷ b ∷ c ∷ d ∷ _)) k h = h a b c d
