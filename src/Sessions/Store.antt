-- ===== src/Sessions/Store.antt =====
-- The store's operations on whole sessions.
use blank_sr.Base.{
  ℕ, suc, ◌+◌, ◌*◌, ◌/◌, ◌-◌, ◌^◌, String, Option, none, some, List, [], ◌∷◌, ◌++◌, map, ◌==◌,
  if◌then◌else◌, string_eq, nat_eq, ltb, or_else,
}
use blank_sr.Base.Map.{Map, lookup, insert, erase}
use blank_sr.Database.{Database}
use blank_sr.Sessions.Data.{Session, updated, deleted, Store, Codec, bucket, copy_session}
use blank_sr.Values.{Value, string, int, Fields, is_null, is_string, field_or_null}

-- `*p = x`
abbrev pub write : {F : Type 0} → (ℕ → Session F) → ℕ → Session F → ℕ → Session F
write heap p x q = if q == p then x else heap q

-- `time.Hour * 24`
abbrev pub day : ℕ
day = 24 * 60 * 60 * 10 ^ 9

-- `Unix`, of a time that is not before 1970: the seconds since then. A time here is the number of
-- nanoseconds since Go's zero time.
abbrev pub unix : ℕ → ℕ
unix t = t / 10 ^ 9 - 62135596800

module _ {F : Type 0} where
  -- The loop over `config.JWTExtraProps()`: the user's properties that are not nil are added.
  unfoldable pub add_props : Fields F → List String → Map String (Value F) → Map String (Value F)
  add_props user [] m = m
  add_props user (k ∷ ks) m =
      add_props user ks
        (if is_null (field_or_null k user) then m else insert k (field_or_null k user) m)

  -- The claims of a token.
  unfoldable pub claims : Fields F → String → ℕ → ℕ → List String → Map String (Value F)
  unfolding add_props
  claims user id now ttl props = add_props user props (
      ("iss", string "Blank ltd")
      ∷ ("iat", int (unix now))
      ∷ ("exp", int (unix ttl))
      ∷ ("userId", field_or_null "_id" user)
      ∷ ("sessionId", string id)
      ∷ [])

module _ (D : Database) {F : Type 0} (C : Codec F D.Bytes) where
  abbrev S : Type 0
  S = Store F D.Db

  -- `(*Session).Save`: an error is logged.
  unfoldable pub save : ℕ → S → S
  save p s =
      let x = copy_session (s.heap p) in
      record s { db = (D.save bucket x.api_key (C.marshal x) s.db).1 }

  -- `db.Delete`, whose error is logged.
  abbrev pub delete_stored : String → S → S
  delete_stored k s = record s { db = (D.delete bucket k s.db).1 }

  abbrev pub bump : ℕ → S → S
  bump p s = record s { heap = write s.heap p (record (s.heap p) { v = suc (s.heap p).v }) }

  -- `sessionUpdated`
  unfoldable pub session_updated : ℕ → S → S
  unfolding save
  session_updated p s =
      let t = bump p (save p s) in
      record t {
        notices = t.notices ++ map (λ h. updated h (copy_session (s.heap p))) t.update_handlers;
      }

  -- `sessionDeleted`
  unfoldable pub session_deleted : ℕ → S → S
  session_deleted p s =
      let t = bump p s in
      record t { notices = t.notices ++ map (λ h. deleted h p) t.delete_handlers }

  -- The part of `New` under the lock: the session goes into the map and is saved.
  unfoldable pub store_session : Session F → S → ℕ × S
  unfolding session_updated
  store_session x s = (
    s.fresh,
    session_updated s.fresh (record s {
      sessions = insert x.api_key s.fresh s.sessions;
      heap = write s.heap s.fresh x;
      fresh = suc s.fresh;
    }),
  )

  -- `New`. The TTL of `config.JWTTTL` may be missing, which stands for its error; `sign` is the
  -- JWT library's signer, and where it fails the process exits, `none`. `uuid` is a fresh one, and
  -- `now` and `later` are the two readings of the clock.
  unfoldable pub new_session :
      (Map String (Value F) → Option String)
      → String
      → Option ℕ
      → List String
      → ℕ
      → ℕ
      → Fields F
      → String
      → S
      → Option (ℕ × S)
  unfolding store_session claims
  new_session sign uuid jwt_ttl props now later user session_id s =
      let id = if session_id == "" then uuid else session_id in
      let ttl = now + or_else jwt_ttl day in
      elim (sign (claims user id now ttl props)) [
        | none ↦ none
        | some token ↦ some (
            store_session
              (record {
                api_key = id;
                access_token = token;
                user_id = field_or_null "_id" user;
                connections = [];
                created_at = later;
                last_request = 0;
                ttl = ttl;
                v = 0;
              })
              s)
      ]

  -- The body of the loop of `DeleteAllConnections`.
  unfoldable pub reset_one : String → S → S
  unfolding save
  reset_one k s = elim (lookup k s.sessions) [
    | none ↦ s
    | some p ↦ save p (record s { heap = write s.heap p (record (s.heap p) { connections = [] }) })
  ]

  -- `DeleteAllConnections`, over the keys in the order in which Go ranges.
  unfoldable pub delete_all_connections : List String → S → S
  unfolding reset_one
  delete_all_connections [] s = s
  delete_all_connections (k ∷ order) s = delete_all_connections order (reset_one k s)

  -- `GetAll`: the pointers.
  unfoldable pub get_all : List String → S → List ℕ
  get_all [] s = []
  get_all (k ∷ order) s =
      let rest = get_all order s in elim (lookup k s.sessions) [ none ↦ rest | some p ↦ p ∷ rest ]

  -- `GetByAPIKey`: the pointer, or `berror.DbNotFound` for `none`.
  unfoldable pub get_by_api_key : String → S → Option ℕ
  get_by_api_key k s = lookup k s.sessions

  -- `GetByUserID` for a user id that is a string: a copy of the first session of that user.
  -- The first copy, with its token blanked, is dropped; the second one is returned.
  unfoldable pub get_by_user_id : List String → String → S → Option (Session F)
  get_by_user_id [] id s = none
  get_by_user_id (k ∷ order) id s =
      let rest = get_by_user_id order id s in
      elim (lookup k s.sessions) [
        | none ↦ rest
        | some p ↦ if is_string (s.heap p).user_id id then some (copy_session (s.heap p)) else rest
      ]

  -- `Delete` by API key.
  unfoldable pub delete_key : String → S → S
  unfolding session_deleted
  delete_key k s =
      let t = delete_stored k s in
      let u : S = record t { sessions = erase k t.sessions } in
      elim (lookup k s.sessions) [ none ↦ u | some p ↦ session_deleted p u ]

  -- `(*Session).Delete`
  unfoldable pub delete_session : ℕ → S → S
  unfolding session_deleted
  delete_session p s =
      let k = (s.heap p).api_key in
      let t = delete_stored k s in session_deleted p (record t { sessions = erase k t.sessions })

  -- `DeleteAllForUser`: the sessions for which it starts `go s.Delete()`.
  unfoldable pub doomed : List String → String → S → List ℕ
  doomed [] id s = []
  doomed (k ∷ order) id s =
      let rest = doomed order id s in
      elim (lookup k s.sessions) [
        | none ↦ rest
        | some p ↦ if is_string (s.heap p).user_id id then p ∷ rest else rest
      ]

  -- The goroutines of `DeleteAllForUser`, in the order in which they come to run.
  unfoldable pub delete_each : List ℕ → S → S
  delete_each [] s = s
  delete_each (p ∷ ps) s = delete_each ps (delete_session p s)

  -- The body of the loop of `clearRottenSessions`. No handler is told.
  unfoldable pub clear_found : ℕ → ℕ → S → S
  clear_found now p s =
      if ltb (s.heap p).ttl now
      then (let t = delete_stored (s.heap p).api_key s in
          record t { sessions = erase (s.heap p).api_key t.sessions })
      else s

  unfoldable pub clear_one : ℕ → String → S → S
  unfolding clear_found
  clear_one now k s = elim (lookup k s.sessions) [ none ↦ s | some p ↦ clear_found now p s ]

  -- `clearRottenSessions`
  unfoldable pub clear_rotten : List String → ℕ → S → S
  unfolding clear_one
  clear_rotten [] now s = s
  clear_rotten (k ∷ order) now s = clear_rotten order now (clear_one now k s)

  -- A loaded session, with its connections cut, is saved and put into the map.
  unfoldable pub load_fresh : Session F → S → S
  unfolding save
  load_fresh x s =
      let t = save s.fresh (record s { heap = write s.heap s.fresh x; fresh = suc s.fresh }) in
      record t { sessions = insert x.api_key s.fresh t.sessions }

  -- The body of the loop of `loadSessions`, for one stored record.
  unfoldable pub load_one : ℕ → Option (Session F) → S → S
  unfolding load_fresh
  load_one now none s = s
  load_one now (some x) s =
      if ltb x.ttl now
      then delete_stored x.api_key s
      else load_fresh (record x { connections = [] }) s

  unfoldable pub load_each : ℕ → List D.Bytes → S → S
  unfolding load_one
  load_each now [] s = s
  load_each now (b ∷ bs) s = load_each now bs (load_one now (C.unmarshal b) s)

  -- `loadSessions`. A missing bucket reads as no records.
  unfoldable pub load_sessions : ℕ → S → S
  unfolding load_each
  load_sessions now s = load_each now (or_else (D.get_all bucket s.db) []) s

  -- `OnSessionUpdate`
  unfoldable pub on_session_update : ℕ → S → S
  on_session_update handler s = record s { update_handlers = s.update_handlers ++ (handler ∷ []) }

  -- `OnSessionDelete`
  unfoldable pub on_session_delete : ℕ → S → S
  on_session_delete handler s = record s { delete_handlers = s.delete_handlers ++ (handler ∷ []) }

  -- `GetUserID`
  unfoldable pub get_user_id : ℕ → S → Value F
  get_user_id p s = (s.heap p).user_id

  -- `GetAPIKey`
  unfoldable pub get_api_key : ℕ → S → String
  get_api_key p s = (s.heap p).api_key
