-- ===== src/Handlers/Tokens.antt =====
-- A session through the calls of handlers.go: created, found, deleted.
use blank_sr.Base.{
  ℕ, ◌+◌, ◌≡◌, ◌≢◌, ◌∙◌, refl, ap, String, Option, none, some, List, [], ◌∷◌, string_eq, nat_eq,
  arith, or_else,
}
use blank_sr.Base.Map.{Map, lookup, insert, erase, lookup-insert, lookup-erase}
use blank_sr.Database.{Database}
use blank_sr.Handlers.Sessions.{
  new_session_handler, created, check_session_by_api_key_handler, delete_session_handler,
}
use blank_sr.Handlers.State.{App, Reply, replies, fails, nothing, text, value, not_found}
use blank_sr.Sessions.Data.{Session, Store, Codec}
use blank_sr.Sessions.Store.{
  claims, day, new_session, store_session, session_updated, delete_session, get_by_api_key,
  get_user_id,
}
use blank_sr.Values.{Value, Fields, string, object, field_or_null}

module _ (D : Database) {F : Type 0} (C : Codec F D.Bytes) where
  store_session-fields :
      (x : Session F) (s : Store F D.Db)
      → let t = (store_session D C x s).1 in
        (t.sessions ≡ insert x.api_key s.fresh s.sessions)
        × ((t.heap s.fresh).api_key ≡ x.api_key)
        × ((t.heap s.fresh).user_id ≡ x.user_id)
        × ((t.heap s.fresh).access_token ≡ x.access_token)
  unfolding store_session session_updated
  store_session-fields x s = (refl, ground arith, ground arith, ground arith)

  store_session-token :
      (x : Session F) (s : Store F D.Db)
      → ((store_session D C x s).1.heap (store_session D C x s).0).access_token ≡ x.access_token
  unfolding store_session session_updated
  store_session-token x s = ground arith

  get_by_api_key-lookup :
      (id : String) (s : Store F D.Db) → get_by_api_key D C id s ≡ lookup id s.sessions
  unfolding get_by_api_key
  get_by_api_key-lookup id s = refl

  pub check_found :
      (id : String) (p : ℕ) (s : App F D.Db)
      → lookup id s.store.sessions ≡ some p
      → check_session_by_api_key_handler D C (some (string id ∷ [])) s
        ≡ (replies (value (s.store.heap p).user_id), s)
  unfolding check_session_by_api_key_handler get_user_id
  check_found id p s e = ground (arith, get_by_api_key-lookup id s.store, e)

  pub check_missing :
      (id : String) (s : App F D.Db)
      → lookup id s.store.sessions ≡ none
      → check_session_by_api_key_handler D C (some (string id ∷ [])) s ≡ (fails not_found, s)
  unfolding check_session_by_api_key_handler
  check_missing id s e = ground (arith, get_by_api_key-lookup id s.store, e)

  pub delete_found :
      (id : String) (p : ℕ) (s : App F D.Db)
      → lookup id s.store.sessions ≡ some p
      → delete_session_handler D C (some (string id ∷ [])) s
        ≡ (replies nothing, record s { store = delete_session D C p s.store })
  unfolding delete_session_handler
  delete_found id p s e = ground (arith, get_by_api_key-lookup id s.store, e)

  pub delete_missing :
      (id : String) (s : App F D.Db)
      → lookup id s.store.sessions ≡ none
      → delete_session_handler D C (some (string id ∷ [])) s ≡ (fails not_found, s)
  unfolding delete_session_handler
  delete_missing id s e = ground (arith, get_by_api_key-lookup id s.store, e)

  pub delete_session-sessions :
      (p : ℕ) (s : Store F D.Db)
      → (delete_session D C p s).sessions ≡ erase (s.heap p).api_key s.sessions
  unfolding delete_session
  delete_session-sessions p s = refl

  module _ (sign : Map String (Value F) → Option String) (uuid : String) (jwt_ttl : Option ℕ)
      (props : List String) (now later : ℕ) (u : Fields F) (id token : String)
      (s : App F D.Db) where
    abbrev given : Session F
    given = record {
      api_key = id;
      access_token = token;
      user_id = field_or_null "_id" u;
      connections = [];
      created_at = later;
      last_request = 0;
      ttl = now + or_else jwt_ttl day;
      v = 0;
    }

    abbrev pub call : Reply F × App F D.Db
    call =
        new_session_handler D C sign uuid jwt_ttl props now later (some (object u ∷ string id ∷ []))
          s

    call-eq :
        id ≢ ""
        → sign (claims u id now (now + or_else jwt_ttl day) props) ≡ some token
        → call ≡ created D C (some (store_session D C given s.store)) s
    unfolding new_session_handler new_session
    call-eq named signed = ground (arith, signed)

    created-some :
        (r : ℕ × Store F D.Db)
        → created D C (some r) s
          ≡ (replies (text (r.1.heap r.0).access_token), record s { store = r.1 })
    unfolding created
    created-some r = refl

    created-given :
        created D C (some (store_session D C given s.store)) s
        ≡ (replies (text token), record s { store = (store_session D C given s.store).1 })
    created-given =
        created-some (store_session D C given s.store)
        ∙ ap (λ z. (replies (text z), record s { store = (store_session D C given s.store).1 }))
            (store_session-token given s.store)

    -- A session that a client creates with an id of its own, where the signer gives a token, is
    -- answered with that token; it is then found under the id with the `_id` of its user, and when
    -- it is deleted it is not found any more.
    pub session_life :
        id ≢ ""
        → sign (claims u id now (now + or_else jwt_ttl day) props) ≡ some token
        → (call.0 ≡ replies (text token))
          × ((check_session_by_api_key_handler D C (some (string id ∷ [])) call.1).0
              ≡ replies (value (field_or_null "_id" u)))
          × ((check_session_by_api_key_handler D C
                (some (string id ∷ []))
                (delete_session_handler D C (some (string id ∷ [])) call.1).1).0
              ≡ fails not_found)
    session_life named signed =
        let (sessions, key, user, tok) = store_session-fields given s.store in
        let t = (store_session D C given s.store).1 in
        let p = s.store.fresh in
        let found : lookup id t.sessions ≡ some p =
          rw sessions (lookup-insert id id p s.store.sessions ∙ ground arith) in
        let made = record s { store = t } in
        let gone = record made { store = delete_session D C p t } in
        let absent : lookup id gone.store.sessions ≡ none =
          rw (delete_session-sessions p t, key) (lookup-erase id id t.sessions ∙ ground arith) in
        rw (call-eq named signed ∙ created-given) (
          refl,
          rw (check_found id p made found) (ap (λ z. replies (value z)) user),
          rw (delete_found id p made found) (ap (λ z. z.0) (check_missing id gone absent)),
        )
