-- ===== src/Main/Stack.antt =====
-- The whole program with bdb/bdb.go over Bolt as its database, from its first start on.
use blank_sr.Base.{ℕ, ◌≡◌, ◌∙◌, ◌<◌, ap, sym, String, none, some, [], string_eq}
use blank_sr.Base.Map.{lookup, lookup-nil}
use blank_sr.Bdb.Bolt.{Bolt}
use blank_sr.Bdb.Laws.{IsBolt, Flat, held, joined}
use blank_sr.Bdb.Effects.{get-joined}
use blank_sr.Bdb.Refinement.{database, database-IsLawful}
use blank_sr.Database.{Database, IsLawful}
use blank_sr.Handlers.State.{App, replies, value, fails, not_found}
use blank_sr.Main.{opened_store, started, hooked_registry}
use blank_sr.Main.Program.{Reach, Step-Inv, restarts}
use blank_sr.Main.Survival.{checks, restarted, deleted, session_survives, deleted_for_ever}
use blank_sr.Sessions.Data.{Session, Codec, bucket}
use blank_sr.Sessions.Invariant.{IsFaithful, Inv}
use blank_sr.Storage.{Text}
use blank_sr.Sync.Mutex
use blank_sr.Sync.Once
use blank_sr.Values.{string}

module _ (D : Database) (L : IsLawful D) (T : Text D.Bytes) {F : Type 0} (C : Codec F D.Bytes)
    (faithful : IsFaithful C) where
  opened_store-Inv :
      (heap : ℕ → Session F) (db : D.Db)
      → ((k : String) → D.get bucket k db ≡ none)
      → Inv D C L (opened_store D C heap db)
  opened_store-Inv heap db bare = record {
    keyed = λ k p e. absurd (none_found k p e);
    allocated = λ k p e. absurd (none_found k p e);
    storable = λ k p e. absurd (none_found k p e);
    stored = λ k p e. absurd (none_found k p e);
    gone = λ k e. bare k ∙ sym (lookup-nil k);
    waiting = λ k e. lookup-nil k;
  }
    where
      none_found : (k : String) (p : ℕ) → lookup k [] ≡ some p → ⊥
      none_found k p e = cc (lookup-nil {V = ℕ} k)

  -- A start on a database without sessions.
  pub started-Inv :
      (now : ℕ) (heap : ℕ → Session F) (db : D.Db)
      → ((k : String) → D.get bucket k db ≡ none)
      → Inv D C L (started D C now heap db).store
  started-Inv now heap db bare =
      Step-Inv D L T C faithful (restarts now before) (opened_store-Inv heap db bare)
    where
      before : App F D.Db
      before = record {
        locks = Mutex.start;
        oncers = Once.start;
        registry = hooked_registry;
        store = opened_store D C heap db;
        published = [];
      }

abbrev pub laws : (B : Bolt) (L : IsBolt B) → IsLawful (database B L)
laws B L = (database-IsLawful B L).0

module _ (B : Bolt) (L : IsBolt B) (T : Text B.Bytes) {F : Type 0} (C : Codec F B.Bytes)
    (faithful : IsFaithful C) (before : ℕ) (heap : ℕ → Session F) (tx : B.Tx) (flat : Flat B tx)
    (empty : (k : String) → held B bucket k tx ≡ none) where
  -- The program after its first start, on a file of Bolt without sessions.
  abbrev pub first_start : App F ((t : B.Tx) × Flat B t)
  first_start = started (database B L) C before heap (tx, flat)

  first_start-Inv : Inv (database B L) C (laws B L) first_start.store
  first_start-Inv =
      started-Inv (database B L) (laws B L) T C faithful before heap (tx, flat)
        (λ k. get-joined B L bucket k tx ∙ ap joined (empty k))

  module _ {t : App F ((t : B.Tx) × Flat B t)}
      (reach : Reach (database B L) (laws B L) T C faithful first_start t) (now : ℕ)
      (k : String) where
    -- Over bdb and Bolt: after any history of the program that begins with a start on a database
    -- without sessions and without nested buckets, a session that has not run out is found by its
    -- key when the program has been started again, and the client is told the same user, where
    -- that is a string. Each call is run to its end before the next, Bolt does what it documents
    -- and takes the keys of new sessions and items, and the encoder gives back what it encoded.
    pub session_survives_in_bolt :
        (p : ℕ) (u : String)
        → lookup k t.store.sessions ≡ some p
        → (t.store.heap p).user_id ≡ string u
        → ¬ ((t.store.heap p).ttl < now)
        → checks (database B L) C k (restarted (database B L) C now t) ≡ replies (value (string u))
    session_survives_in_bolt =
        session_survives (database B L) (laws B L) T C faithful reach first_start-Inv now k

    -- The same for a session that a client deletes: it is not found any more, also not when the
    -- program has been started again.
    pub deleted_in_bolt :
        (checks (database B L) C k (deleted (database B L) C k t) ≡ fails not_found)
        × (checks (database B L) C k (restarted (database B L) C now (deleted (database B L) C k t))
            ≡ fails not_found)
    deleted_in_bolt =
        deleted_for_ever (database B L) (laws B L) T C faithful reach first_start-Inv now k
