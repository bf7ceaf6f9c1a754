-- ===== src/Main/Program.antt =====
-- Histories of the whole program: calls of clients, closed connections, timers, and restarts.
use blank_sr.Base.{ℕ, ◌≡◌, refl, subst, sym, String, some, List, [], ◌∷◌, ◌++◌}
use blank_sr.Database.{Database, IsLawful}
use blank_sr.Handlers.Dispatch.{Rpc, Env, handle}
use blank_sr.Handlers.Kept.Others.{on_session_close-Good}
use blank_sr.Handlers.State.{App, Args}
use blank_sr.Handlers.Sync.{on_session_close}
use blank_sr.Main.{started, changed_hook, removed_hook}
use blank_sr.Main.Kept.{TakesKey, handle-Good}
use blank_sr.Sessions.Data.{Store, Codec}
use blank_sr.Sessions.History.{restart, restart-Inv}
use blank_sr.Sessions.Invariant.{IsFaithful, Inv}
use blank_sr.Sessions.Operations.{clear_rotten-Inv}
use blank_sr.Sessions.Store.{clear_rotten, load_sessions, on_session_update, on_session_delete}
use blank_sr.Storage.{Text}
use blank_sr.Sync.Mutex
use blank_sr.Sync.Once.{expire}

module _ (D : Database) (L : IsLawful D) (T : Text D.Bytes) {F : Type 0} (C : Codec F D.Bytes)
    (faithful : IsFaithful C) where
  abbrev A : Type 0
  A = App F D.Db

  -- What may happen to the running program.
  pub data Step : A → A → Type 0 where
    -- A client calls.
    calls :
        (env : Env F) (rpc : Rpc) (args : Args F) (s : A)
        → TakesKey D L T C faithful env rpc args
        → Step s (handle D T C env rpc args s).1
    -- A connection closes.
    closes :
        (keys order : List String) (conn_id : String) (s : A)
        → Step s (on_session_close D C keys order conn_id s).1
    -- A call of `Lock` that waited gets its mutex.
    locks :
        (p : ℕ) (s : A) (t : Mutex.State)
        → Mutex.lock p s.locks ≡ some t
        → Step s (record s { locks = t })
    -- A timer of `Once` fires.
    fires : (n : ℕ) (s : A) → Step s (record s { oncers = expire n s.oncers })
    -- The watcher of the session store wakes up.
    clears :
        (order : List String) (now : ℕ) (s : A)
        → Step s (record s { store = clear_rotten D C order now s.store })
    -- The process ends between two of these, and is started again on the same database. What the memory
    -- holds that nothing points to is taken to be what it was.
    restarts : (now : ℕ) (s : A) → Step s (started D C now s.store.heap s.store.db)

  pub data Reach (s : A) : A → Type 0 where
    here : Reach s s
    next : {t u : A} → Reach s t → Step t u → Reach s u

  -- The store without the hooks.
  abbrev pub unhooked : Store F D.Db → Store F D.Db
  unhooked s = record s { update_handlers = []; delete_handlers = [] }

  -- The store of a program that has just started, but for the hooks.
  abbrev pub loaded : ℕ → Store F D.Db → Store F D.Db
  loaded now s = load_sessions D C now (restart D L C faithful (unhooked s))

  pub started-store :
      (now : ℕ) (s : A)
      → (started D C now s.store.heap s.store.db).store ≡ record (loaded now s.store) {
        update_handlers = (loaded now s.store).update_handlers ++ (changed_hook ∷ []);
        delete_handlers = (loaded now s.store).delete_handlers ++ (removed_hook ∷ []);
      }
  unfolding started on_session_update on_session_delete
  started-store now s = refl

  pub hooked-Inv :
      (s : Store F D.Db) (us ds : List ℕ)
      → Inv D C L s
      → Inv D C L (record s { update_handlers = us; delete_handlers = ds })
  hooked-Inv s us ds v = record {
    keyed = v.keyed;
    allocated = v.allocated;
    storable = v.storable;
    stored = v.stored;
    gone = v.gone;
    waiting = v.waiting;
  }

  pub Step-Inv : {s t : A} → Step s t → Inv D C L s.store → Inv D C L t.store
  Step-Inv (calls env rpc args s key) v = (handle-Good D L T C faithful env rpc args s key v).inv
  Step-Inv (closes keys order conn_id s) v =
      (on_session_close-Good D L T C faithful keys order conn_id s v).inv
  Step-Inv (locks p s t e) v = v
  Step-Inv (fires n s) v = v
  Step-Inv (clears order now s) v = clear_rotten-Inv D L C faithful order now s.store v
  Step-Inv (restarts now s) v = subst (Inv D C L) (sym (started-store now s)) (
      hooked-Inv (loaded now s.store) _ _
        (restart-Inv D L C faithful now (unhooked s.store) (hooked-Inv s.store [] [] v)))

  -- Through every history of the whole program, whatever clients call in whatever order and
  -- whenever connections close, timers fire and the process is started again, each session in
  -- memory has its record in the database and the database has no other session. This holds where
  -- it was so at the beginning, each call is run to its end before the next, the keys of new
  -- sessions and items are ones that the database takes, and the encoder gives back what it
  -- encoded.
  pub program_keeps_sessions : {s t : A} → Reach s t → Inv D C L s.store → Inv D C L t.store
  program_keeps_sessions here v = v
  program_keeps_sessions (next r st) v = Step-Inv st (program_keeps_sessions r v)
