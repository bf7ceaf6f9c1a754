-- ===== src/Handlers/Errors.antt =====
-- A call that is answered with an error changes nothing.
pub mod Calls
pub mod Unchanged
use blank_sr.Base.{
  ℕ, ◌≡◌, refl, String, Bool, true, false, Option, none, some, List, [], ◌∷◌, ◌==◌, if◌then◌else◌,
  string_eq, arith, Bool-cases, inl, inr, Option-cases,
}
use blank_sr.Base.Map.{Map, lookup}
use blank_sr.Database.{Database}
use blank_sr.Handlers.Cases.{
  not_nil-cases, not_empty-cases, with_string-cases, two-cases, three-cases, four-cases,
}
use blank_sr.Handlers.Dispatch
use blank_sr.Handlers.Dispatch.{Rpc, Env, handle}
use blank_sr.Handlers.Guards.{not_nil, not_empty, with_string, two, three, four}
use blank_sr.Handlers.Items.{
  local_storage_get_item_handler, local_storage_set_item_handler, local_storage_remove_item_handler,
  local_storage_clear_handler,
}
use blank_sr.Handlers.Services.{register_handler, register_typed, publish_handler, publish_to}
use blank_sr.Handlers.Sessions.{
  with_session, created, session_id_of, new_session_handler, check_session_by_api_key_handler,
  delete_session_handler, session_subscribed_handler, session_unsubscribed_handler,
  session_delete_connection_handler, session_user_update_handler,
}
use blank_sr.Handlers.State
use blank_sr.Handlers.State.{App, Args, Reply, Failure, fails}
use blank_sr.Handlers.Sync.{
  sync_lock_handler, sync_unlock_handler, sync_once_handler, lock_now, unlocked, once_reply,
}
use blank_sr.Sessions.Data.{Codec, Store}
use blank_sr.Sessions.Store
use blank_sr.Storage
use blank_sr.Storage.{Text}
use blank_sr.Sync.Mutex
use blank_sr.Sync.Once
use blank_sr.Values.{Value, as_string, as_object, array, Fields, field_of}

module _ {F Db : Type 0} where
  abbrev pub Keeps : Reply F × App F Db → App F Db → Type 0
  Keeps r s = (e : Failure) → r.0 ≡ fails e → r.1 ≡ s

  -- The checks of the arguments keep the state.
  pub not_nil-Keeps :
      (args : Args F) (k : Value F → List (Value F) → App F Db → Reply F × App F Db) (s : App F Db)
      → ((v : Value F) (vs : List (Value F)) → Keeps (k v vs s) s)
      → Keeps (not_nil args k s) s
  not_nil-Keeps args k s h =
      not_nil-cases (λ r. Keeps r s) s (λ e p. refl) args k (λ e p. refl) (λ v vs same. h v vs)

  pub not_empty-Keeps :
      (args : Args F) (k : Value F → List (Value F) → App F Db → Reply F × App F Db) (s : App F Db)
      → ((v : Value F) (vs : List (Value F)) → Keeps (k v vs s) s)
      → Keeps (not_empty args k s) s
  not_empty-Keeps args k s h = not_empty-cases (λ r. Keeps r s) s (λ e p. refl) args k h

  pub with_string-Keeps :
      (v : Value F) (k : String → Reply F × App F Db) (s : App F Db)
      → ((t : String) → Keeps (k t) s)
      → Keeps (elim (as_string v) [ none ↦ (fails State.invalid_arguments, s) | some t ↦ k t ]) s
  with_string-Keeps v k s h = with_string-cases (λ r. Keeps r s) s (λ e p. refl) v k (λ t own. h t)

  pub two-Keeps :
      (args : Args F) (k : Value F → Value F → App F Db → Reply F × App F Db) (s : App F Db)
      → ((a b : Value F) → Keeps (k a b s) s)
      → Keeps (two args k s) s
  two-Keeps args k s h = two-cases (λ r. Keeps r s) s (λ e p. refl) args k (λ a b vs same. h a b)

  pub three-Keeps :
      (args : Args F) (k : Value F → Value F → Value F → App F Db → Reply F × App F Db)
      (s : App F Db)
      → ((a b c : Value F) → Keeps (k a b c s) s)
      → Keeps (three args k s) s
  three-Keeps args k s h = three-cases (λ r. Keeps r s) s (λ e p. refl) args k h

  pub four-Keeps :
      (args : Args F) (k : Value F → Value F → Value F → Value F → App F Db → Reply F × App F Db)
      (s : App F Db)
      → ((a b c d : Value F) → Keeps (k a b c d s) s)
      → Keeps (four args k s) s
  four-Keeps args k s h = four-cases (λ r. Keeps r s) s (λ e p. refl) args k h
