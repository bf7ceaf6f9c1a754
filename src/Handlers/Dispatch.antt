-- ===== src/Handlers/Dispatch.antt =====
-- main.go: which handler answers a call of a client.
use blank_sr.Base.{ℕ, String, Option, List}
use blank_sr.Base.Map.{Map}
use blank_sr.Database.{Database}
use blank_sr.Handlers.Items.{
  local_storage_get_item_handler, local_storage_set_item_handler, local_storage_remove_item_handler,
  local_storage_clear_handler,
}
use blank_sr.Handlers.Services.{register_handler, publish_handler}
use blank_sr.Handlers.Sessions.{
  new_session_handler, check_session_by_api_key_handler, delete_session_handler,
  session_subscribed_handler, session_unsubscribed_handler, session_delete_connection_handler,
  session_user_update_handler,
}
use blank_sr.Handlers.State.{App, Args, Reply}
use blank_sr.Handlers.Sync.{sync_lock_handler, sync_unlock_handler, sync_once_handler}
use blank_sr.Sessions.Data.{Codec}
use blank_sr.Storage.{Text}
use blank_sr.Values.{Value}

-- The names under which main registers handlers: "register", "session.new" and so on.
pub data Rpc : Type 0 where
  register publish : Rpc
  session_new session_check session_delete session_subscribed session_unsubscribed : Rpc
  session_delete_connection session_user_update : Rpc
  sync_lock sync_unlock sync_once : Rpc
  storage_get_item storage_set_item storage_remove_item storage_clear : Rpc

-- What a call takes from its connection, the configuration, the clock, the libraries and the order
-- in which Go ranges over the services and the sessions.
pub record Env (F : Type 0) : Type 0 where
  pub conn_id : String
  pub remote_addr : String
  pub sign : Map String (Value F) → Option String
  pub uuid : String
  pub jwt_ttl : Option ℕ
  pub props : List String
  pub now : ℕ
  pub later : ℕ
  pub types : List String
  pub keys : List String

module _ (D : Database) (T : Text D.Bytes) {F : Type 0} (C : Codec F D.Bytes) (env : Env F) where
  abbrev pub handle : Rpc → Args F → App F D.Db → Reply F × App F D.Db
  handle register args = register_handler D env.types env.remote_addr env.conn_id args
  handle publish args = publish_handler D args
  handle session_new args =
      new_session_handler D C env.sign env.uuid env.jwt_ttl env.props env.now env.later args
  handle session_check args = check_session_by_api_key_handler D C args
  handle session_delete args = delete_session_handler D C args
  handle session_subscribed args = session_subscribed_handler D C args
  handle session_unsubscribed args = session_unsubscribed_handler D C args
  handle session_delete_connection args = session_delete_connection_handler D C args
  handle session_user_update args = session_user_update_handler D C env.keys args
  handle sync_lock args = sync_lock_handler D env.conn_id args
  handle sync_unlock args = sync_unlock_handler D env.conn_id args
  handle sync_once args = sync_once_handler D env.now args
  handle storage_get_item args = local_storage_get_item_handler D T args
  handle storage_set_item args = local_storage_set_item_handler D T args
  handle storage_remove_item args = local_storage_remove_item_handler D T args
  handle storage_clear args = local_storage_clear_handler D T
