-- ===== src/Handlers/Errors/Unchanged.antt =====
-- All calls of clients.
use blank_sr.Base.{ℕ, ◌≡◌, refl, String, Option, none, some, List, [], ◌∷◌, string_eq}
use blank_sr.Base.Map.{lookup}
use blank_sr.Database.{Database}
use blank_sr.Handlers.Dispatch.{Rpc, Env, handle}
use blank_sr.Handlers.Errors.{
  Keeps, not_nil-Keeps, not_empty-Keeps, with_string-Keeps, two-Keeps, three-Keeps, four-Keeps,
}
use blank_sr.Handlers.Errors.Calls.{
  replies-Keeps, with_session-Keeps, publish-Keeps, register-Keeps, new_session-Keeps,
}
use blank_sr.Handlers.Items.{
  local_storage_get_item_handler, local_storage_set_item_handler, local_storage_remove_item_handler,
  local_storage_clear_handler,
}
use blank_sr.Handlers.Sessions.{
  check_session_by_api_key_handler, delete_session_handler, session_subscribed_handler,
  session_unsubscribed_handler, session_delete_connection_handler, session_user_update_handler,
}
use blank_sr.Handlers.State
use blank_sr.Handlers.State.{
  App, Args, Reply, Result, Failure, fails, replies, waits, panics, exits,
}
use blank_sr.Handlers.Sync.{
  sync_lock_handler, sync_unlock_handler, sync_once_handler, lock_now, unlocked, once_reply,
}
use blank_sr.Sessions.Data.{Codec}
use blank_sr.Storage.{Text, get_item}
use blank_sr.Sync.Mutex
use blank_sr.Sync.Mutex.{done, blocks}
use blank_sr.Sync.Once
use blank_sr.Sync.Once.{once, make_oncer}
use blank_sr.Values.{Value}

module _ (D : Database) (T : Text D.Bytes) {F : Type 0} (C : Codec F D.Bytes) (s : App F D.Db) where
  session_check-Keeps : (args : Args F) → Keeps (check_session_by_api_key_handler D C args s) s
  unfolding check_session_by_api_key_handler
  session_check-Keeps args = not_nil-Keeps args _ s (λ v vs.
      with_string-Keeps v _ s (λ key. with_session-Keeps D T C s key _ (λ p. replies-Keeps _ _ s)))

  session_delete-Keeps : (args : Args F) → Keeps (delete_session_handler D C args s) s
  unfolding delete_session_handler
  session_delete-Keeps args = not_nil-Keeps args _ s (λ v vs.
      with_string-Keeps v _ s (λ key. with_session-Keeps D T C s key _ (λ p. replies-Keeps _ _ s)))

  session_subscribed-Keeps : (args : Args F) → Keeps (session_subscribed_handler D C args s) s
  unfolding session_subscribed_handler
  session_subscribed-Keeps args = four-Keeps args _ s (λ a b c extra.
      with_string-Keeps a _ s (λ key. with_session-Keeps D T C s key _ (λ p.
        with_string-Keeps b _ s (λ id. with_string-Keeps c _ s (λ uri. replies-Keeps _ _ s)))))

  session_unsubscribed-Keeps : (args : Args F) → Keeps (session_unsubscribed_handler D C args s) s
  unfolding session_unsubscribed_handler
  session_unsubscribed-Keeps args = three-Keeps args _ s (λ a b c. with_string-Keeps a _ s (λ key.
      with_session-Keeps D T C s key _ (λ p.
        with_string-Keeps b _ s (λ id. with_string-Keeps c _ s (λ uri. replies-Keeps _ _ s)))))

  delete_connection-Keeps : (args : Args F) → Keeps (session_delete_connection_handler D C args s) s
  unfolding session_delete_connection_handler
  delete_connection-Keeps args = two-Keeps args _ s (λ a b. with_string-Keeps a _ s (λ key.
      with_session-Keeps D T C s key _ (λ p. with_string-Keeps b _ s (λ id. replies-Keeps _ _ s))))

  user_update-Keeps :
      (keys : List String) (args : Args F) → Keeps (session_user_update_handler D C keys args s) s
  unfolding session_user_update_handler
  user_update-Keeps keys args = not_empty-Keeps args _ s go
    where
      go :
          (v : Value F) (vs : List (Value F))
          → Keeps (session_user_update_handler D C keys (some (v ∷ vs)) s) s
      go v [] = with_string-Keeps v _ s (λ id. replies-Keeps _ _ s)
      go v (w ∷ ws) = with_string-Keeps v _ s (λ id. replies-Keeps _ _ s)

  unlocked-Keeps : (o : Mutex.Outcome) → Keeps (unlocked D o s) s
  unfolding unlocked
  unlocked-Keeps (done t) = replies-Keeps _ _ s
  unlocked-Keeps (blocks t) = λ e p. cc
  unlocked-Keeps (Mutex.panics t) = λ e p. cc

  lock_now-Keeps : (r : ℕ × Mutex.State) → Keeps (lock_now D r s) s
  unfolding lock_now
  lock_now-Keeps (p, t) = go (Mutex.lock p t)
    where
      go :
          (o : Option Mutex.State)
          → Keeps
              (elim o [
                | none ↦ (waits, record s { locks = t })
                | some u ↦ (replies State.nothing, record s { locks = u })
              ])
              s
      go none = λ e p. cc
      go (some u) = replies-Keeps _ _ s

  sync_lock-Keeps : (conn : String) (args : Args F) → Keeps (sync_lock_handler D conn args s) s
  unfolding sync_lock_handler
  sync_lock-Keeps conn args =
      not_empty-Keeps args _ s (λ v vs. with_string-Keeps v _ s (λ id. lock_now-Keeps _))

  sync_unlock-Keeps : (conn : String) (args : Args F) → Keeps (sync_unlock_handler D conn args s) s
  unfolding sync_unlock_handler
  sync_unlock-Keeps conn args =
      not_empty-Keeps args _ s (λ v vs. with_string-Keeps v _ s (λ id. unlocked-Keeps _))

  once-Keeps : (id : String) (now : ℕ) → Keeps (once_reply D (once id now s.oncers) s) s
  unfolding once once_reply
  once-Keeps id now = go (lookup id s.oncers.oncers)
    where
      go :
          (o : Option (Unit {0}))
          → Keeps
              (once_reply D
                (elim o [
                  | none ↦ (none, make_oncer id now s.oncers)
                  | some _ ↦ (some Once.executed, s.oncers)
                ])
                s)
              s
      go none = replies-Keeps _ _ s
      go (some _) = λ e p. refl

  sync_once-Keeps : (now : ℕ) (args : Args F) → Keeps (sync_once_handler D now args s) s
  unfolding sync_once_handler
  sync_once-Keeps now args =
      not_empty-Keeps args _ s (λ v vs. with_string-Keeps v _ s (λ id. once-Keeps id now))

  get_item-Keeps : (args : Args F) → Keeps (local_storage_get_item_handler D T args s) s
  unfolding local_storage_get_item_handler
  get_item-Keeps args =
      not_empty-Keeps args _ s
        (λ v vs. with_string-Keeps v _ s (λ id. go (get_item D T id s.store.db)))
    where
      go :
          (o : Option String)
          → Keeps
              (elim o [
                | none ↦ (replies State.nothing, s)
                | some item ↦ (replies (State.text item), s)
              ])
              s
      go none = replies-Keeps _ _ s
      go (some item) = replies-Keeps _ _ s

  set_item-Keeps : (args : Args F) → Keeps (local_storage_set_item_handler D T args s) s
  unfolding local_storage_set_item_handler
  set_item-Keeps args =
      two-Keeps args _ s (λ a b.
        with_string-Keeps a _ s (λ id. with_string-Keeps b _ s (λ item. replies-Keeps _ _ s)))

  remove_item-Keeps : (args : Args F) → Keeps (local_storage_remove_item_handler D T args s) s
  unfolding local_storage_remove_item_handler
  remove_item-Keeps args =
      not_empty-Keeps args _ s (λ v vs. with_string-Keeps v _ s (λ id. replies-Keeps _ _ s))

  clear-Keeps : Keeps (local_storage_clear_handler D T s) s
  unfolding local_storage_clear_handler
  clear-Keeps = replies-Keeps _ _ s

  -- Whatever a client calls with whatever arguments, a call that is answered with an error leaves
  -- the state of the whole program as it was.
  pub error_keeps_state :
      (env : Env F) (rpc : Rpc) (args : Args F) (e : Failure)
      → (handle D T C env rpc args s).0 ≡ fails e
      → (handle D T C env rpc args s).1 ≡ s
  error_keeps_state env Rpc.register args =
      register-Keeps D T C s env.types env.remote_addr env.conn_id args
  error_keeps_state env Rpc.publish args = publish-Keeps D T C s args
  error_keeps_state env Rpc.session_new args = new_session-Keeps D T C s env args
  error_keeps_state env Rpc.session_check args = session_check-Keeps args
  error_keeps_state env Rpc.session_delete args = session_delete-Keeps args
  error_keeps_state env Rpc.session_subscribed args = session_subscribed-Keeps args
  error_keeps_state env Rpc.session_unsubscribed args = session_unsubscribed-Keeps args
  error_keeps_state env Rpc.session_delete_connection args = delete_connection-Keeps args
  error_keeps_state env Rpc.session_user_update args = user_update-Keeps env.keys args
  error_keeps_state env Rpc.sync_lock args = sync_lock-Keeps env.conn_id args
  error_keeps_state env Rpc.sync_unlock args = sync_unlock-Keeps env.conn_id args
  error_keeps_state env Rpc.sync_once args = sync_once-Keeps env.now args
  error_keeps_state env Rpc.storage_get_item args = get_item-Keeps args
  error_keeps_state env Rpc.storage_set_item args = set_item-Keeps args
  error_keeps_state env Rpc.storage_remove_item args = remove_item-Keeps args
  error_keeps_state env Rpc.storage_clear args = clear-Keeps
