-- ===== src/Handlers/Kept.antt =====
-- The calls of clients keep the sessions in memory and those in the database in step.
pub mod Others
use blank_sr.Base.{
  ℕ, ◌≡◌, refl, String, Option, none, some, List, [], ◌∷◌, ◌==◌, if◌then◌else◌, string_eq, nat_eq,
  Option-cases, inl, inr, Bool, true, false,
}
use blank_sr.Base.Map.{lookup}
use blank_sr.Database.{Database, IsLawful}
use blank_sr.Handlers.Cases.{
  not_nil-cases, not_empty-cases, with_string-cases, two-cases, three-cases, four-cases,
}
use blank_sr.Handlers.Dispatch.{Rpc, Env, handle}
use blank_sr.Handlers.Items.{
  local_storage_get_item_handler, local_storage_set_item_handler, local_storage_remove_item_handler,
  local_storage_clear_handler,
}
use blank_sr.Handlers.Services.{
  publish_registry, run_create, register_service, register_typed, register_handler, publish_to,
  publish_handler, registry_deleted, run_delete,
}
use blank_sr.Handlers.Sessions.{
  created, session_id_of, new_session_handler, check_session_by_api_key_handler,
  delete_session_handler, session_subscribed_handler, session_unsubscribed_handler,
  session_delete_connection_handler, session_user_update_handler, with_session, stored,
}
use blank_sr.Handlers.State
use blank_sr.Handlers.State.{App, Args, Reply, fails, replies}
use blank_sr.Handlers.Sync.{
  sync_lock_handler, sync_unlock_handler, sync_once_handler, lock_now, unlocked, once_reply,
  on_session_close,
}
use blank_sr.Registry.{Call}
use blank_sr.Sessions.Data.{Codec, Store}
use blank_sr.Sessions.History.{creates-Inv}
use blank_sr.Sessions.Invariant.{IsFaithful, Inv}
use blank_sr.Sessions.Operations.{
  add_subscription-Inv, delete_connection-Inv, delete_subscription-Inv, delete_session-Inv,
  delete_all_connections-Inv, delete_each-Inv,
}
use blank_sr.Sessions.Store.{get_by_api_key, new_session, doomed}
use blank_sr.Storage.{Text, get_item}
use blank_sr.Storage.Laws.{storage_keeps_sessions, moved-Inv, removed_apart, cleared_apart}
use blank_sr.Values.{Value, string, Fields, as_string, as_object, field_of}

module _ (D : Database) (L : IsLawful D) (T : Text D.Bytes) {F : Type 0} (C : Codec F D.Bytes)
    (faithful : IsFaithful C) where
  -- The program after a call, with memory and database in step.
  pub record Good (r : Reply F × App F D.Db) : Type 0 where
    pub inv : Inv D C L r.1.store

  module _ (s : App F D.Db) (v : Inv D C L s.store) where
    pub same_store : (r : Reply F) → Good (r, s)
    same_store r = record { inv = v }

    with_session-Good :
        (key : String) (k : ℕ → Reply F × App F D.Db)
        → ((p : ℕ) → lookup key s.store.sessions ≡ some p → Good (k p))
        → Good (elim (get_by_api_key D C key s.store) [
          | none ↦ (fails State.not_found, s)
          | some p ↦ k p
        ])
    unfolding get_by_api_key
    with_session-Good key k h = go (lookup key s.store.sessions) h
      where
        go :
            (o : Option ℕ)
            → ((p : ℕ) → o ≡ some p → Good (k p))
            → Good (elim o [ none ↦ (fails State.not_found, s) | some p ↦ k p ])
        go none h = same_store _
        go (some p) h = h p refl

    created-Good :
        (o : Option (ℕ × Store F D.Db))
        → ((r : ℕ × Store F D.Db) → o ≡ some r → Inv D C L r.1)
        → Good (created D C o s)
    unfolding created
    created-Good none h = same_store _
    created-Good (some (p, t)) h = record { inv = h (p, t) refl }

    pub new_session-Good :
        (env : Env F) (args : Args F)
        → ((w : Value F) (vs : List (Value F))
            → args ≡ some (w ∷ vs)
            → L.IsKey (if session_id_of vs == "" then env.uuid else session_id_of vs))
        → Good (
            new_session_handler D C env.sign env.uuid env.jwt_ttl env.props env.now env.later args
              s)
    unfolding new_session_handler
    new_session-Good env args key =
        not_nil-cases Good s (same_store _) args _ (same_store _)
          (λ w vs same. go (as_object w) vs (key w vs same))
      where
        go :
            (o : Option (Fields F)) (vs : List (Value F))
            → L.IsKey (if session_id_of vs == "" then env.uuid else session_id_of vs)
            → Good (elim o [
              | none ↦ (fails State.invalid_arguments, s)
              | some u ↦
                  created D C
                    (new_session D C env.sign env.uuid env.jwt_ttl env.props env.now env.later u
                      (session_id_of vs)
                      s.store)
                    s
            ])
        go none vs taken = same_store _
        go (some u) vs taken = created-Good _ (λ r e.
            creates-Inv D L C faithful env.sign env.uuid env.jwt_ttl env.props env.now env.later u
              (session_id_of vs) s.store r taken e v)

    pub session_check-Good : (args : Args F) → Good (check_session_by_api_key_handler D C args s)
    unfolding check_session_by_api_key_handler
    session_check-Good args =
        not_nil-cases Good s (same_store _) args _ (same_store _) (λ a vs same.
          with_string-cases Good s (same_store _) a _
            (λ key own. with_session-Good key _ (λ p at. same_store _)))

    pub session_delete-Good : (args : Args F) → Good (delete_session_handler D C args s)
    unfolding delete_session_handler
    session_delete-Good args =
        not_nil-cases Good s (same_store _) args _ (same_store _) (λ a vs same.
          with_string-cases Good s (same_store _) a _ (λ key own.
            with_session-Good key _
              (λ p at. record { inv = delete_session-Inv D L C faithful s.store v p })))

    pub session_subscribed-Good : (args : Args F) → Good (session_subscribed_handler D C args s)
    unfolding session_subscribed_handler
    session_subscribed-Good args = four-cases Good s (same_store _) args _ (λ a b c extra.
        with_string-cases Good s (same_store _) a _ (λ key own. with_session-Good key _ (λ p at.
          with_string-cases Good s (same_store _) b _ (λ id _.
            with_string-cases Good s (same_store _) c _ (λ uri _. record {
              inv = add_subscription-Inv D L C faithful s.store v key p at id uri extra;
            })))))

    pub session_unsubscribed-Good : (args : Args F) → Good (session_unsubscribed_handler D C args s)
    unfolding session_unsubscribed_handler
    session_unsubscribed-Good args = three-cases Good s (same_store _) args _ (λ a b c.
        with_string-cases Good s (same_store _) a _ (λ key own. with_session-Good key _ (λ p at.
          with_string-cases Good s (same_store _) b _ (λ id _.
            with_string-cases Good s (same_store _) c _ (λ uri _. record {
              inv = delete_subscription-Inv D L C faithful s.store v key p at id uri;
            })))))

    pub delete_connection-Good :
        (args : Args F) → Good (session_delete_connection_handler D C args s)
    unfolding session_delete_connection_handler
    delete_connection-Good args = two-cases Good s (same_store _) args _ (λ a b vs same.
        with_string-cases Good s (same_store _) a _ (λ key own. with_session-Good key _ (λ p at.
          with_string-cases Good s (same_store _) b _
            (λ id _. record { inv = delete_connection-Inv D L C faithful s.store v key p at id }))))

    pub user_update-Good :
        (keys : List String) (args : Args F) → Good (session_user_update_handler D C keys args s)
    unfolding session_user_update_handler
    user_update-Good keys args =
        not_empty-cases Good s (same_store _) args _
          (λ a vs. with_string-cases Good s (same_store _) a _ (λ id own. go id vs))
      where
        go :
            (id : String) (vs : List (Value F))
            → Good (session_user_update_handler D C keys (some (string id ∷ vs)) s)
        go id [] = record {
          inv = delete_each-Inv D L C faithful (doomed D C keys id s.store) s.store v;
        }
        go id (w ∷ ws) = record { inv = v }

    pub set_item-Good :
        (args : Args F)
        → ((a : Value F) (vs : List (Value F))
            → args ≡ some (a ∷ vs)
            → (id : String) → as_string a ≡ some id
            → L.IsKey id)
        → Good (local_storage_set_item_handler D T args s)
    unfolding local_storage_set_item_handler
    set_item-Good args key = two-cases Good s (same_store _) args _ (λ a b vs same.
        with_string-cases Good s (same_store _) a _ (λ id own.
          with_string-cases Good s (same_store _) b _ (λ item _. record {
            inv = (storage_keeps_sessions D L T C id item s.store (key a (b ∷ vs) same id own) v).0;
          })))

    pub remove_item-Good : (args : Args F) → Good (local_storage_remove_item_handler D T args s)
    unfolding local_storage_remove_item_handler
    remove_item-Good args = not_empty-cases Good s (same_store _) args _ (λ a vs.
        with_string-cases Good s (same_store _) a _ (λ id own. record {
          inv = moved-Inv D L T C s.store _ (removed_apart D L T id s.store.db) v;
        }))

    pub clear-Good : Good (local_storage_clear_handler D T s)
    unfolding local_storage_clear_handler
    clear-Good = record { inv = moved-Inv D L T C s.store _ (cleared_apart D L T s.store.db) v }

    pub get_item-Good : (args : Args F) → Good (local_storage_get_item_handler D T args s)
    unfolding local_storage_get_item_handler
    get_item-Good args = not_empty-cases Good s (same_store _) args _ (λ a vs.
        with_string-cases Good s (same_store _) a _ (λ id own. go (get_item D T id s.store.db)))
      where
        go :
            (o : Option String)
            → Good (elim o [
              | none ↦ (replies State.nothing, s)
              | some item ↦ (replies (State.text item), s)
            ])
        go none = same_store _
        go (some item) = same_store _
