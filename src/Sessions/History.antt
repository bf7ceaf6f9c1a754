-- ===== src/Sessions/History.antt =====
-- Histories of the session store, with restarts of the service.
use blank_sr.Base.{
  ℕ, ◌≡◌, ◌<◌, String, Option, none, some, List, [], ◌∷◌, refl, ap, ◌∙◌, sym, subst, arith, ◌==◌,
  if◌then◌else◌, string_eq, nat_eq, Option-cases, inl, inr, or_else,
}
use mathlib.Core.Option.{some-injective}
use blank_sr.Base.Map.{Map, lookup, lookup-nil}
use blank_sr.Database.{Database, IsLawful, values, NodupKeys}
use blank_sr.Sessions.Data.{Session, Store, Codec, bucket}
use blank_sr.Sessions.Invariant.{Kept, Kept-trans, IsFaithful, Inv, InvWith}
use blank_sr.Sessions.Loading.{reset, Readable, lookup-cons, load_each-Inv}
use blank_sr.Sessions.Operations.{
  add_subscription-Inv, delete_connection-Inv, delete_subscription-Inv, delete_session-Inv,
  delete_key-Inv, delete_all_connections-Inv, clear_rotten-Inv, store_session-Inv,
  new_session_cases,
}
use blank_sr.Sessions.Restart.{Loaded-load_each, absent-load_each}
use blank_sr.Sessions.Store.{
  new_session, delete_all_connections, delete_key, delete_session, clear_rotten, load_each,
  load_sessions,
}
use blank_sr.Sessions.Subscriptions.{add_subscription, delete_connection, delete_subscription}
use blank_sr.Values.{Value, Fields}

module _ (D : Database) (L : IsLawful D) {F : Type 0} (C : Codec F D.Bytes)
    (faithful : IsFaithful C) where
  abbrev S : Type 0
  S = Store F D.Db

  Kept-reset : (y : Session F) → Kept y (reset y)
  Kept-reset y = record { api_key = refl; access_token = refl; ttl = refl; user = λ u. refl }

  -- The service is started again: the memory is lost, the database stays.
  abbrev pub restart : S → S
  restart s = record s { sessions = []; fresh = 0; notices = [] }

  -- Every record that the database lists can be read.
  Readable-sub :
      (s : S) (m : Map String D.Bytes)
      → Inv D C L s
      → NodupKeys m
      → ((k : String) (b : D.Bytes) → lookup k m ≡ some b → D.get bucket k s.db ≡ some b)
      → Readable D L C faithful m
  Readable-sub s [] v d h = tt
  Readable-sub s ((k, b) ∷ m) v d h =
      let got : D.get bucket k s.db ≡ some b = h k b (ground (arith, lookup-cons k b m k)) in
      (
        elim (Option-cases (lookup k s.sessions)) [
          | inl e ↦ absurd (lost k b e got)
          | inr (p, e) ↦
              let q = v.stored k p e in
              (
                q.read,
                ap C.unmarshal (some-injective b q.bytes (sym got ∙ q.found)) ∙ q.decoded,
                q.kept.api_key ∙ v.keyed k p e,
                v.storable k p e,
              )
        ],
        Readable-sub s m v d.1 (λ j c e. h j c (ground (arith, lookup-cons k b m j, d.0))),
      )
    where
      lost :
          (k : String) (b : D.Bytes) → lookup k s.sessions ≡ none → D.get bucket k s.db ≡ some b → ⊥
      lost k b e got = cc (v.gone k e, lookup-nil {V = D.Bytes} k)

  -- What a restart needs of the records, from the invariant before it.
  restart-InvWith :
      (s : S) (m : Map String D.Bytes)
      → ((k : String) → lookup k m ≡ D.get bucket k s.db)
      → InvWith D C L m (restart s)
  restart-InvWith s m h = record {
    keyed = λ k p e. absurd (none_found k p e);
    allocated = λ k p e. absurd (none_found k p e);
    storable = λ k p e. absurd (none_found k p e);
    stored = λ k p e. absurd (none_found k p e);
    gone = λ k e. sym (h k);
    waiting = λ k e. lookup-nil k;
  }
    where
      none_found : (k : String) (p : ℕ) → lookup k [] ≡ some p → ⊥
      none_found k p e = cc (lookup-nil {V = ℕ} k)

  load_sessions-restart :
      (now : ℕ) (s : S) (m : Map String D.Bytes)
      → or_else (D.get_all bucket s.db) [] ≡ values m
      → load_sessions D C now (restart s) ≡ load_each D C now (values m) (restart s)
  unfolding load_sessions
  load_sessions-restart now s m e = rw e

  pub restart-Inv : (now : ℕ) (s : S) → Inv D C L s → Inv D C L (load_sessions D C now (restart s))
  restart-Inv now s v =
      let (m, nodup, at, all) = L.listing bucket s.db in
      rw (load_sessions-restart now s m all) (
        load_each-Inv D L C faithful now m (restart s) nodup
          (Readable-sub s m v nodup (λ k b e. sym (at k) ∙ e)) (restart-InvWith s m at))

  module _ (now : ℕ) (s : S) (k : String) (v : Inv D C L s) where
    -- If each session had its record in the database, then after a restart a session that has not
    -- run out is there again, under its key, with its token
    -- and TTL, with its user, where that is a string, but with no connections and with Go's zero time as its time of creation.
    pub restart_recovers :
        (p : ℕ)
        → lookup k s.sessions ≡ some p
        → ¬ ((s.heap p).ttl < now)
        → (q : ℕ) × (lookup k (load_sessions D C now (restart s)).sessions ≡ some q)
          × Kept (s.heap p) ((load_sessions D C now (restart s)).heap q)
          × (((load_sessions D C now (restart s)).heap q).connections ≡ [])
          × (((load_sessions D C now (restart s)).heap q).created_at ≡ 0)
    restart_recovers p e young =
        let (m, nodup, at, all) = L.listing bucket s.db in
        let readable = Readable-sub s m v nodup (λ j b f. sym (at j) ∙ f) in
        let q = v.stored k p e in
        let l =
          Loaded-load_each D L C faithful now m (restart s) k q.bytes q.read nodup readable
            (lookup-nil k) (at k ∙ q.found) q.decoded in
        let (r, found, heap) = l.1 (λ old. young (rw (← q.kept.ttl) old)) in
        rw (load_sessions-restart now s m all) (
          r,
          found,
          rw heap (Kept-trans (s.heap p) q.read (reset q.read) q.kept (Kept-reset q.read)),
          rw heap refl,
          rw heap q.undated,
        )

    -- If each session had its record in the database, then after a restart there is no session
    -- under a key whose session had run out.
    pub restart_drops_expired :
        (p : ℕ)
        → lookup k s.sessions ≡ some p
        → (s.heap p).ttl < now
        → lookup k (load_sessions D C now (restart s)).sessions ≡ none
    restart_drops_expired p e old =
        let (m, nodup, at, all) = L.listing bucket s.db in
        let readable = Readable-sub s m v nodup (λ j b f. sym (at j) ∙ f) in
        let q = v.stored k p e in
        rw (load_sessions-restart now s m all) (
          (Loaded-load_each D L C faithful now m (restart s) k q.bytes q.read nodup readable
              (lookup-nil k) (at k ∙ q.found) q.decoded).0
            (rw q.kept.ttl old))

    -- If each session had its record in the database, and there were no other records, then after a
    -- restart there is no session under a key that had none.
    pub restart_adds_none :
        lookup k s.sessions ≡ none → lookup k (load_sessions D C now (restart s)).sessions ≡ none
    restart_adds_none e =
        let (m, nodup, at, all) = L.listing bucket s.db in
        let readable = Readable-sub s m v nodup (λ j b f. sym (at j) ∙ f) in
        rw (load_sessions-restart now s m all) (
          absent-load_each D L C faithful now m (restart s) k readable
            (at k ∙ v.gone k e ∙ lookup-nil k)
          ∙ lookup-nil k)

  -- The calls that the program makes on the store. A session's methods are called on a session that
  -- is in the map, as `GetByAPIKey` has just found it; a new session gets a key that the database takes.
  pub data Step : S → S → Type 0 where
    creates :
        (sign : Map String (Value F) → Option String) (uuid : String) (jwt_ttl : Option ℕ)
        (props : List String) (now later : ℕ) (user : Fields F) (session_id : String) (s : S)
        (r : ℕ × S)
        → L.IsKey (if session_id == "" then uuid else session_id)
        → new_session D C sign uuid jwt_ttl props now later user session_id s ≡ some r
        → Step s r.1
    subscribes :
        (k : String) (p : ℕ) (id uri : String) (extra : Value F) (s : S)
        → lookup k s.sessions ≡ some p
        → Step s (add_subscription D C p id uri extra s)
    unsubscribes :
        (k : String) (p : ℕ) (id uri : String) (s : S)
        → lookup k s.sessions ≡ some p
        → Step s (delete_subscription D C p id uri s)
    disconnects :
        (k : String) (p : ℕ) (id : String) (s : S)
        → lookup k s.sessions ≡ some p
        → Step s (delete_connection D C p id s)
    ends :
        (k : String) (p : ℕ) (s : S)
        → lookup k s.sessions ≡ some p
        → Step s (delete_session D C p s)
    deletes : (k : String) (s : S) → Step s (delete_key D C k s)
    resets : (order : List String) (s : S) → Step s (delete_all_connections D C order s)
    clears : (order : List String) (now : ℕ) (s : S) → Step s (clear_rotten D C order now s)
    restarts : (now : ℕ) (s : S) → Step s (load_sessions D C now (restart s))

  pub data Reach (x : S) : S → Type 0 where
    here : Reach x x
    next : {y z : S} → Reach x y → Step y z → Reach x z

  pub creates-Inv :
      (sign : Map String (Value F) → Option String) (uuid : String) (jwt_ttl : Option ℕ)
      (props : List String) (now later : ℕ) (user : Fields F) (session_id : String) (s : S)
      (r : ℕ × S)
      → L.IsKey (if session_id == "" then uuid else session_id)
      → new_session D C sign uuid jwt_ttl props now later user session_id s ≡ some r
      → Inv D C L s
      → Inv D C L r.1
  creates-Inv sign uuid jwt_ttl props now later user session_id s r key e v =
      elim (new_session_cases D L C faithful sign uuid jwt_ttl props now later user session_id s) [
        | inl f ↦ absurd (none_some f)
        | inr (y, own, ttl, f) ↦
            subst (λ x. Inv D C L x.1) (some-injective _ r (sym f ∙ e))
              (store_session-Inv D L C faithful y s (rw own key) v)
      ]
    where
      none_some : new_session D C sign uuid jwt_ttl props now later user session_id s ≡ none → ⊥
      none_some f = cc

  Step-Inv : {s t : S} → Step s t → Inv D C L s → Inv D C L t
  Step-Inv (creates sign uuid jwt_ttl props now later user session_id s r key e) v =
      creates-Inv sign uuid jwt_ttl props now later user session_id s r key e v
  Step-Inv (subscribes k p id uri extra s at) v =
      add_subscription-Inv D L C faithful s v k p at id uri extra
  Step-Inv (unsubscribes k p id uri s at) v =
      delete_subscription-Inv D L C faithful s v k p at id uri
  Step-Inv (disconnects k p id s at) v = delete_connection-Inv D L C faithful s v k p at id
  Step-Inv (ends k p s at) v = delete_session-Inv D L C faithful s v p
  Step-Inv (deletes k s) v = delete_key-Inv D L C faithful k s v
  Step-Inv (resets order s) v = delete_all_connections-Inv D L C faithful order s v
  Step-Inv (clears order now s) v = clear_rotten-Inv D L C faithful order now s v
  Step-Inv (restarts now s) v = restart-Inv now s v

  -- Through every history of the program's calls and of restarts, each session in memory has its
  -- record in the database, with its key, user, token and TTL, and the database has no other
  -- session, if that was so at the beginning.
  pub history-Inv : {s t : S} → Reach s t → Inv D C L s → Inv D C L t
  history-Inv here v = v
  history-Inv (next r st) v = Step-Inv st (history-Inv r v)
