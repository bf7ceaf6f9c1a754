-- ===== src/Sessions/Subscriptions.antt =====
-- A session's connections and their subscriptions.
use blank_sr.Base.{
  ℕ, String, Bool, true, false, List, [], ◌∷◌, ◌++◌, ◌==◌, if◌then◌else◌, string_eq, nat_eq,
}
use blank_sr.Base.Map.{Map, insert, erase}
use blank_sr.Database.{Database}
use blank_sr.Sessions.Data.{Conn, Store, Codec}
use blank_sr.Sessions.Store.{write, session_updated}
use blank_sr.Values.{Value}

module _ {F : Type 0} where
  abbrev pub has_conn : String → List (Conn F) → Bool
  has_conn id [] = false
  has_conn id (c ∷ cs) = if c.conn_id == id then true else has_conn id cs

  -- The first connection with the id, changed.
  unfoldable pub change_conn :
      String → (Map String (Value F) → Map String (Value F)) → List (Conn F) → List (Conn F)
  change_conn id f [] = []
  change_conn id f (c ∷ cs) =
      if c.conn_id == id
      then record c { subscriptions = f c.subscriptions } ∷ cs
      else c ∷ change_conn id f cs

  -- The list without the first connection with the id.
  unfoldable pub drop_conn : String → List (Conn F) → List (Conn F)
  drop_conn id [] = []
  drop_conn id (c ∷ cs) = if c.conn_id == id then cs else c ∷ drop_conn id cs

  -- The connections after `AddSubscription`.
  unfoldable pub subscribed : String → String → Value F → List (Conn F) → List (Conn F)
  unfolding change_conn
  subscribed id uri extra cs =
      let all =
        if has_conn id cs then cs else cs ++ (record { conn_id = id; subscriptions = [] } ∷ []) in
      change_conn id (insert uri extra) all

  module _ (D : Database) (C : Codec F D.Bytes) where
    abbrev set_connections : ℕ → List (Conn F) → Store F D.Db → Store F D.Db
    set_connections p cs s = record s {
      heap = write s.heap p (record (s.heap p) { connections = cs });
    }

    -- `AddSubscription`
    unfoldable pub add_subscription : ℕ → String → String → Value F → Store F D.Db → Store F D.Db
    add_subscription p id uri extra s =
        session_updated D C p (set_connections p (subscribed id uri extra (s.heap p).connections) s)

    -- `DeleteConnection`
    unfoldable pub delete_connection : ℕ → String → Store F D.Db → Store F D.Db
    delete_connection p id s =
        session_updated D C p (set_connections p (drop_conn id (s.heap p).connections) s)

    -- `DeleteSubscription`
    unfoldable pub delete_subscription : ℕ → String → String → Store F D.Db → Store F D.Db
    delete_subscription p id uri s =
        if has_conn id (s.heap p).connections
        then session_updated D C p
            (set_connections p (change_conn id (erase uri) (s.heap p).connections) s)
        else s
