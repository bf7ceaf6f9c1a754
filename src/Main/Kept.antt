-- ===== src/Main/Kept.antt =====
-- Each call of a client, and the closing of a connection, keeps the sessions in memory and those in
-- the database in step.
use blank_sr.Base.{◌≡◌, refl, String, some, List, ◌∷◌, ◌==◌, if◌then◌else◌, string_eq}
use blank_sr.Database.{Database, IsLawful}
use blank_sr.Handlers.Dispatch.{Rpc, Env, handle}
use blank_sr.Handlers.Kept.{
  Good, new_session-Good, session_check-Good, session_delete-Good, session_subscribed-Good,
  session_unsubscribed-Good, delete_connection-Good, user_update-Good, set_item-Good,
  remove_item-Good, clear-Good, get_item-Good,
}
use blank_sr.Handlers.Kept.Others.{
  publish-Good, register-Good, sync_lock-Good, sync_unlock-Good, sync_once-Good,
}
use blank_sr.Handlers.Sessions.{session_id_of}
use blank_sr.Handlers.State.{App, Args}
use blank_sr.Sessions.Data.{Codec}
use blank_sr.Sessions.Invariant.{IsFaithful, Inv}
use blank_sr.Storage.{Text}
use blank_sr.Values.{Value, as_string}

module _ (D : Database) (L : IsLawful D) (T : Text D.Bytes) {F : Type 0} (C : Codec F D.Bytes)
    (faithful : IsFaithful C) where
  -- The database takes the key that the call saves under: of a new session, or of an item.
  abbrev pub TakesKey : Env F → Rpc → Args F → Type 0
  TakesKey env rpc args =
      (v : Value F) (vs : List (Value F))
      → args ≡ some (v ∷ vs)
      → ((rpc ≡ Rpc.session_new)
          → L.IsKey (if session_id_of vs == "" then env.uuid else session_id_of vs))
        × ((rpc ≡ Rpc.storage_set_item) → (id : String) → as_string v ≡ some id → L.IsKey id)

  pub handle-Good :
      (env : Env F) (rpc : Rpc) (args : Args F) (s : App F D.Db)
      → TakesKey env rpc args
      → Inv D C L s.store
      → Good D L T C faithful (handle D T C env rpc args s)
  handle-Good env Rpc.register args s key v =
      register-Good D L T C faithful s v env.types env.remote_addr env.conn_id args
  handle-Good env Rpc.publish args s key v = publish-Good D L T C faithful s v args
  handle-Good env Rpc.session_new args s key v =
      new_session-Good D L T C faithful s v env args (λ w vs same. (key w vs same).0 refl)
  handle-Good env Rpc.session_check args s key v = session_check-Good D L T C faithful s v args
  handle-Good env Rpc.session_delete args s key v = session_delete-Good D L T C faithful s v args
  handle-Good env Rpc.session_subscribed args s key v =
      session_subscribed-Good D L T C faithful s v args
  handle-Good env Rpc.session_unsubscribed args s key v =
      session_unsubscribed-Good D L T C faithful s v args
  handle-Good env Rpc.session_delete_connection args s key v =
      delete_connection-Good D L T C faithful s v args
  handle-Good env Rpc.session_user_update args s key v =
      user_update-Good D L T C faithful s v env.keys args
  handle-Good env Rpc.sync_lock args s key v = sync_lock-Good D L T C faithful s v env.conn_id args
  handle-Good env Rpc.sync_unlock args s key v =
      sync_unlock-Good D L T C faithful s v env.conn_id args
  handle-Good env Rpc.sync_once args s key v = sync_once-Good D L T C faithful s v env.now args
  handle-Good env Rpc.storage_get_item args s key v = get_item-Good D L T C faithful s v args
  handle-Good env Rpc.storage_set_item args s key v =
      set_item-Good D L T C faithful s v args (λ w vs same. (key w vs same).1 refl)
  handle-Good env Rpc.storage_remove_item args s key v = remove_item-Good D L T C faithful s v args
  handle-Good env Rpc.storage_clear args s key v = clear-Good D L T C faithful s v
