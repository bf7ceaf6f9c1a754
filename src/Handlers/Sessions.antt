-- ===== src/Handlers/Sessions.antt =====
-- handlers.go: the calls about sessions.
use blank_sr.Base.{ℕ, String, Option, none, some, List, [], ◌∷◌, ◌++◌}
use blank_sr.Base.Map.{Map}
use blank_sr.Database.{Database}
use blank_sr.Handlers.Guards.{not_nil, not_empty, with_string, two, three, four}
use blank_sr.Handlers.State.{
  App, Args, Reply, replies, fails, exits, invalid_arguments, not_found, nothing, text, value,
  session, all, user,
}
use blank_sr.Sessions.Data.{Codec, Store}
use blank_sr.Sessions.Store
use blank_sr.Sessions.Subscriptions.{add_subscription, delete_subscription, delete_connection}
use blank_sr.Values.{Value, as_string, as_object}

-- `sessionID` of `newSessionHandler`: empty if there is no second argument or it is no string.
abbrev pub session_id_of : {F : Type 0} → List (Value F) → String
session_id_of [] = ""
session_id_of (v ∷ _) = elim (as_string v) [ none ↦ "" | some id ↦ id ]

module _ (D : Database) {F : Type 0} (C : Codec F D.Bytes) where
  abbrev H : Type 0
  H = App F D.Db → Reply F × App F D.Db

  -- `s, err := sessionstore.GetByAPIKey(apiKey)`
  abbrev pub with_session : String → (ℕ → H) → H
  with_session key k s = elim (Store.get_by_api_key D C key s.store) [
    | none ↦ (fails not_found, s)
    | some p ↦ k p s
  ]

  -- The handlers after a change of the store.
  abbrev pub stored : Store F D.Db → App F D.Db → Reply F × App F D.Db
  stored t s = (replies nothing, record s { store = t })

  -- The end of `newSessionHandler`.
  unfoldable pub created : Option (ℕ × Store F D.Db) → App F D.Db → Reply F × App F D.Db
  created none s = (exits, s)
  created (some (p, t)) s = (replies (text (t.heap p).access_token), record s { store = t })

  -- `newSessionHandler`
  unfoldable pub new_session_handler :
      (Map String (Value F) → Option String) → String → Option ℕ → List String → ℕ → ℕ → Args F → H
  unfolding created
  new_session_handler sign uuid jwt_ttl props now later args = not_nil args (λ v vs s.
      elim (as_object v) [
        | none ↦ (fails invalid_arguments, s)
        | some u ↦
            created
              (Store.new_session D C sign uuid jwt_ttl props now later u (session_id_of vs) s.store)
              s
      ])

  -- `checkSessionByAPIKeyHandler`
  unfoldable pub check_session_by_api_key_handler : Args F → H
  check_session_by_api_key_handler args = not_nil args (λ v vs.
      with_string v
        (λ key. with_session key (λ p s. (replies (value (Store.get_user_id D C p s.store)), s))))

  -- `getSessionByUserIDHandler`
  unfoldable pub get_session_by_user_id_handler : List String → Args F → H
  get_session_by_user_id_handler order args = not_nil args (λ v vs. with_string v (λ id s.
      elim (Store.get_by_user_id D C order id s.store) [
        | none ↦ (fails not_found, s)
        | some x ↦ (replies (session x), s)
      ]))

  -- `deleteSessionHandler`
  unfoldable pub delete_session_handler : Args F → H
  delete_session_handler args = not_nil args (λ v vs.
      with_string v
        (λ key. with_session key (λ p s. stored (Store.delete_session D C p s.store) s)))

  -- `sessionSubscribedHandler`
  unfoldable pub session_subscribed_handler : Args F → H
  session_subscribed_handler args = four args (λ a b c extra. with_string a (λ key.
      with_session key (λ p.
        with_string b
          (λ id. with_string c (λ uri s. stored (add_subscription D C p id uri extra s.store) s)))))

  -- `sessionUnsubscribedHandler`
  unfoldable pub session_unsubscribed_handler : Args F → H
  session_unsubscribed_handler args = three args (λ a b c. with_string a (λ key.
      with_session key (λ p.
        with_string b
          (λ id. with_string c (λ uri s. stored (delete_subscription D C p id uri s.store) s)))))

  -- `sessionDeleteConnectionHandler`
  unfoldable pub session_delete_connection_handler : Args F → H
  session_delete_connection_handler args = two args (λ a b. with_string a (λ key.
      with_session key
        (λ p. with_string b (λ id s. stored (delete_connection D C p id s.store) s))))

  -- `sessionUserUpdateHandler`. `order` is the order in which the goroutines of `DeleteAllForUser`
  -- find the sessions; they run before anything else here.
  unfoldable pub session_user_update_handler : List String → Args F → H
  session_user_update_handler order args = not_empty args (λ v vs. with_string v (λ id s.
      let t : App F D.Db = record s { published = s.published ++ (user id ∷ []) } in
      elim vs [
        | [] ↦ stored (Store.delete_each D C (Store.doomed D C order id t.store) t.store) t
        | w ∷ ws ↦ (replies nothing, t)
      ]))

  -- `subSessionsHandler`
  unfoldable pub sub_sessions_handler : List String → H
  sub_sessions_handler order s = (replies (all (Store.get_all D C order s.store)), s)
