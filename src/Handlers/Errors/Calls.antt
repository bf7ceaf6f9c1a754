-- ===== src/Handlers/Errors/Calls.antt =====
-- Each handler keeps the state where it returns an error.
use blank_sr.Base.{
  ℕ, ◌≡◌, refl, String, Bool, true, false, Option, none, some, List, [], ◌∷◌, ◌==◌, if◌then◌else◌,
  string_eq,
}
use blank_sr.Database.{Database}
use blank_sr.Handlers.Dispatch.{Env}
use blank_sr.Handlers.Errors.{Keeps, not_nil-Keeps, with_string-Keeps}
use blank_sr.Handlers.Services.{
  register_handler, register_typed, register_service, publish_handler, publish_to,
}
use blank_sr.Handlers.Sessions.{created, session_id_of, new_session_handler}
use blank_sr.Handlers.State
use blank_sr.Handlers.State.{
  App, Args, Reply, Result, Failure, fails, replies, waits, panics, exits,
}
use blank_sr.Sessions.Data.{Codec}
use blank_sr.Sessions.Data
use blank_sr.Sessions.Store
use blank_sr.Storage.{Text}
use blank_sr.Values.{Value, as_string, as_object, array, Fields, field_of}

module _ {F Db : Type 0} where
  pub replies-Keeps : (r : Result F) (t s : App F Db) → Keeps (replies r, t) s
  replies-Keeps r t s e p = cc

  unfailed-Keeps :
      (r : Reply F) (t s : App F Db) → ((e : Failure) → r ≡ fails e → ⊥) → Keeps (r, t) s
  unfailed-Keeps r t s h e p = absurd (h e p)

module _ (D : Database) (T : Text D.Bytes) {F : Type 0} (C : Codec F D.Bytes) (s : App F D.Db) where
  pub with_session-Keeps :
      (key : String) (k : ℕ → Reply F × App F D.Db)
      → ((p : ℕ) → Keeps (k p) s)
      → Keeps
          (elim (Store.get_by_api_key D C key s.store) [
            | none ↦ (fails State.not_found, s)
            | some p ↦ k p
          ])
          s
  with_session-Keeps key k h = go (Store.get_by_api_key D C key s.store)
    where
      go : (o : Option ℕ) → Keeps (elim o [ none ↦ (fails State.not_found, s) | some p ↦ k p ]) s
      go none = λ e p. refl
      go (some p) = h p

  publish_to-Keeps : (uri : String) (vs : List (Value F)) → Keeps (publish_to D uri vs s) s
  unfolding publish_to
  publish_to-Keeps uri [] = λ e p. refl
  publish_to-Keeps uri (v ∷ []) = λ e p. refl
  publish_to-Keeps uri (v ∷ array ws ∷ _) = replies-Keeps _ _ s
  publish_to-Keeps uri (v ∷ w ∷ _) = λ e p. refl

  pub publish-Keeps : (args : Args F) → Keeps (publish_handler D args s) s
  unfolding publish_handler
  publish-Keeps none = λ e p. refl
  publish-Keeps (some []) = λ e p. refl
  publish-Keeps (some (v ∷ vs)) =
      with_string-Keeps v (λ uri. publish_to D uri vs s) s (λ uri. publish_to-Keeps uri vs)

  typed-Keeps :
      (types : List String) (addr conn : String) (o : Option (Value F)) (m : Fields F)
      → Keeps (register_typed D types addr conn o m s) s
  unfolding register_typed
  typed-Keeps types addr conn none m = λ e p. refl
  typed-Keeps types addr conn (some v) m = go (as_string v)
    where
      checked :
          (typ : String) (empty : Bool)
          → Keeps
              (if empty
                then (fails State.no_type, s)
                else (replies State.nothing, register_service D types addr conn typ m s))
              s
      checked typ true = λ e p. refl
      checked typ false = replies-Keeps _ _ s

      go :
          (o : Option String)
          → Keeps
              (elim o [
                | none ↦ (fails State.no_type, s)
                | some typ ↦
                    if typ == ""
                    then (fails State.no_type, s)
                    else (replies State.nothing, register_service D types addr conn typ m s)
              ])
              s
      go none = λ e p. refl
      go (some typ) = checked typ (typ == "")

  pub register-Keeps :
      (types : List String) (addr conn : String) (args : Args F)
      → Keeps (register_handler D types addr conn args s) s
  unfolding register_handler
  register-Keeps types addr conn args = not_nil-Keeps args _ s (λ v vs. go (as_object v))
    where
      go :
          (o : Option (Fields F))
          → Keeps
              (elim o [
                | none ↦ (fails State.invalid_message, s)
                | some m ↦ register_typed D types addr conn (field_of "type" m) m s
              ])
              s
      go none = λ e p. refl
      go (some m) = typed-Keeps types addr conn (field_of "type" m) m

  created-Keeps : (r : Option (ℕ × Data.Store F D.Db)) → Keeps (created D C r s) s
  unfolding created
  created-Keeps none = λ e p. refl
  created-Keeps (some (q, t)) = replies-Keeps _ _ s

  pub new_session-Keeps :
      (env : Env F) (args : Args F)
      → Keeps
          (new_session_handler D C env.sign env.uuid env.jwt_ttl env.props env.now env.later args s)
          s
  unfolding new_session_handler
  new_session-Keeps env args = not_nil-Keeps args _ s (λ v vs. go (as_object v) vs)
    where
      go :
          (o : Option (Fields F)) (vs : List (Value F))
          → Keeps
              (elim o [
                | none ↦ (fails State.invalid_arguments, s)
                | some u ↦
                    created D C
                      (Store.new_session D C env.sign env.uuid env.jwt_ttl env.props env.now
                        env.later u
                        (session_id_of vs)
                        s.store)
                      s
              ])
              s
      go none vs = λ e p. refl
      go (some u) vs = created-Keeps _
