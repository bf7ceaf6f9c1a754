-- ===== src/Handlers/Guards.antt =====
-- The checks of arguments with which the handlers begin.
use blank_sr.Base.{String, none, some, List, [], ◌∷◌}
use blank_sr.Handlers.State.{App, Args, Reply, fails, panics, invalid_arguments}
use blank_sr.Values.{Value, as_string}

module _ {F Db : Type 0} where
  -- `if args == nil`, and then `args[0]`.
  abbrev pub not_nil :
      Args F
      → (Value F → List (Value F) → App F Db → Reply F × App F Db)
      → App F Db
      → Reply F × App F Db
  not_nil none k s = (fails invalid_arguments, s)
  not_nil (some []) k s = (panics, s)
  not_nil (some (v ∷ vs)) k s = k v vs s

  -- `if len(args) == 0`, and then `args[0]`.
  abbrev pub not_empty :
      Args F
      → (Value F → List (Value F) → App F Db → Reply F × App F Db)
      → App F Db
      → Reply F × App F Db
  not_empty none k s = (fails invalid_arguments, s)
  not_empty (some []) k s = (fails invalid_arguments, s)
  not_empty (some (v ∷ vs)) k s = k v vs s

  -- `x, ok := v.(string)`, and `ErrInvalidArguments` if it is not ok.
  abbrev pub with_string :
      Value F → (String → App F Db → Reply F × App F Db) → App F Db → Reply F × App F Db
  with_string v k s = elim (as_string v) [ none ↦ (fails invalid_arguments, s) | some t ↦ k t s ]

  -- `len(args) < 2`
  abbrev pub two :
      Args F → (Value F → Value F → App F Db → Reply F × App F Db) → App F Db → Reply F × App F Db
  two (some (a ∷ b ∷ _)) k s = k a b s
  two _ k s = (fails invalid_arguments, s)

  -- `len(args) < 3`
  abbrev pub three :
      Args F
      → (Value F → Value F → Value F → App F Db → Reply F × App F Db)
      → App F Db
      → Reply F × App F Db
  three (some (a ∷ b ∷ c ∷ _)) k s = k a b c s
  three _ k s = (fails invalid_arguments, s)

  -- `len(args) < 4`
  abbrev pub four :
      Args F
      → (Value F → Value F → Value F → Value F → App F Db → Reply F × App F Db)
      → App F Db
      → Reply F × App F Db
  four (some (a ∷ b ∷ c ∷ d ∷ _)) k s = k a b c d s
  four _ k s = (fails invalid_arguments, s)
