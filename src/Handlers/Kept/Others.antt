-- ===== src/Handlers/Kept/Others.antt =====
-- The calls about services and mutexes leave the sessions as they are, but for the hook that a
-- removed task queue runs.
use blank_sr.Base.{
  ℕ, ◌≡◌, ◌∙◌, refl, sym, subst, String, Bool, true, false, Option, none, some, List, [], ◌∷◌, ◌==◌,
  if◌then◌else◌, string_eq, nat_eq,
}
use blank_sr.Database.{Database, IsLawful}
use blank_sr.Handlers.Cases.{not_nil-cases, not_empty-cases, with_string-cases}
use blank_sr.Handlers.Kept.{Good, same_store}
use blank_sr.Handlers.Services.{
  publish_registry, run_create, register_service, register_typed, register_handler, publish_to,
  publish_handler, registry_deleted, run_delete, service_address, string_field,
}
use blank_sr.Handlers.State
use blank_sr.Handlers.State.{App, Args, Reply, fails, replies, waits}
use blank_sr.Handlers.Sync.{
  sync_lock_handler, sync_unlock_handler, sync_once_handler, lock_now, unlocked, once_reply,
  on_session_close,
}
use blank_sr.Registry
use blank_sr.Registry.{Call}
use blank_sr.Sessions.Data.{Codec}
use blank_sr.Sessions.Invariant.{IsFaithful, Inv}
use blank_sr.Sessions.Operations.{delete_all_connections-Inv}
use blank_sr.Sessions.Store.{delete_all_connections}
use blank_sr.Storage.{Text}
use blank_sr.Sync.Mutex
use blank_sr.Sync.Mutex.{done, blocks}
use blank_sr.Sync.Once
use blank_sr.Sync.Once.{once, make_oncer}
use blank_sr.Values.{Value, Fields, array, as_string, as_object, field_of}

module _ (D : Database) {F : Type 0} where
  publish_registry-store :
      (order : List String) (s : App F D.Db) → (publish_registry D order s).store ≡ s.store
  unfolding publish_registry
  publish_registry-store order s = refl

  run_create-store :
      (order : List String) (calls : List Call) (s : App F D.Db)
      → (run_create D order calls s).store ≡ s.store
  unfolding run_create
  run_create-store order [] s = refl
  run_create-store order (c ∷ calls) s =
      run_create-store order calls (publish_registry D order s) ∙ publish_registry-store order s

  register_service-store :
      (order : List String) (addr conn typ : String) (m : Fields F) (s : App F D.Db)
      → (register_service D order addr conn typ m s).store ≡ s.store
  unfolding register_service
  register_service-store order addr conn typ m s =
      let r =
        Registry.register typ (service_address addr typ) (string_field "port" m) conn
          (string_field "commonJS" m) s.registry in
      run_create-store order r.1 (record s { registry = r.0 })

module _ (D : Database) (L : IsLawful D) (T : Text D.Bytes) {F : Type 0} (C : Codec F D.Bytes)
    (faithful : IsFaithful C) where
  abbrev Good' : Reply F × App F D.Db → Type 0
  Good' = Good D L T C faithful

  module _ (s : App F D.Db) (v : Inv D C L s.store) where
    abbrev same : (r : Reply F) → Good' (r, s)
    same = same_store D L T C faithful s v

    -- A state with the same sessions.
    beside : (r : Reply F) (t : App F D.Db) → t.store ≡ s.store → Good' (r, t)
    beside r t e = record { inv = subst (Inv D C L) (sym e) v }

    publish_to-Good : (uri : String) (vs : List (Value F)) → Good' (publish_to D uri vs s)
    unfolding publish_to
    publish_to-Good uri [] = same _
    publish_to-Good uri (a ∷ []) = same _
    publish_to-Good uri (a ∷ array ws ∷ _) = beside _ _ refl
    publish_to-Good uri (a ∷ w ∷ _) = same _

    pub publish-Good : (args : Args F) → Good' (publish_handler D args s)
    unfolding publish_handler
    publish-Good none = same _
    publish-Good (some []) = same _
    publish-Good (some (a ∷ vs)) =
        with_string-cases Good' s (same _) a _ (λ uri own. publish_to-Good uri vs)

    typed-Good :
        (types : List String) (addr conn : String) (o : Option (Value F)) (m : Fields F)
        → Good' (register_typed D types addr conn o m s)
    unfolding register_typed
    typed-Good types addr conn none m = same _
    typed-Good types addr conn (some a) m = go (as_string a)
      where
        checked :
            (typ : String) (empty : Bool)
            → Good' (
                if empty
                then (fails State.no_type, s)
                else (replies State.nothing, register_service D types addr conn typ m s))
        checked typ true = same _
        checked typ false = beside _ _ (register_service-store D types addr conn typ m s)

        go :
            (o : Option String)
            → Good' (elim o [
              | none ↦ (fails State.no_type, s)
              | some typ ↦
                  if typ == ""
                  then (fails State.no_type, s)
                  else (replies State.nothing, register_service D types addr conn typ m s)
            ])
        go none = same _
        go (some typ) = checked typ (typ == "")

    pub register-Good :
        (types : List String) (addr conn : String) (args : Args F)
        → Good' (register_handler D types addr conn args s)
    unfolding register_handler
    register-Good types addr conn args =
        not_nil-cases Good' s (same _) args _ (same _) (λ a vs own. go (as_object a))
      where
        go :
            (o : Option (Fields F))
            → Good' (elim o [
              | none ↦ (fails State.invalid_message, s)
              | some m ↦ register_typed D types addr conn (field_of "type" m) m s
            ])
        go none = same _
        go (some m) = typed-Good types addr conn (field_of "type" m) m

    unlocked-Good : (o : Mutex.Outcome) → Good' (unlocked D o s)
    unfolding unlocked
    unlocked-Good (done t) = beside _ _ refl
    unlocked-Good (blocks t) = beside _ _ refl
    unlocked-Good (Mutex.panics t) = beside _ _ refl

    lock_now-Good : (r : ℕ × Mutex.State) → Good' (lock_now D r s)
    unfolding lock_now
    lock_now-Good (p, t) = go (Mutex.lock p t)
      where
        go :
            (o : Option Mutex.State)
            → Good' (elim o [
              | none ↦ (waits, record s { locks = t })
              | some u ↦ (replies State.nothing, record s { locks = u })
            ])
        go none = beside _ _ refl
        go (some u) = beside _ _ refl

    pub sync_lock-Good : (conn : String) (args : Args F) → Good' (sync_lock_handler D conn args s)
    unfolding sync_lock_handler
    sync_lock-Good conn args =
        not_empty-cases Good' s (same _) args _
          (λ a vs. with_string-cases Good' s (same _) a _ (λ id own. lock_now-Good _))

    pub sync_unlock-Good :
        (conn : String) (args : Args F) → Good' (sync_unlock_handler D conn args s)
    unfolding sync_unlock_handler
    sync_unlock-Good conn args =
        not_empty-cases Good' s (same _) args _
          (λ a vs. with_string-cases Good' s (same _) a _ (λ id own. unlocked-Good _))

    once-Good : (r : Option Once.Error × Once.State) → Good' (once_reply D r s)
    unfolding once_reply
    once-Good (none, t) = beside _ _ refl
    once-Good (some e, t) = beside _ _ refl

    pub sync_once-Good : (now : ℕ) (args : Args F) → Good' (sync_once_handler D now args s)
    unfolding sync_once_handler
    sync_once-Good now args =
        not_empty-cases Good' s (same _) args _
          (λ a vs. with_string-cases Good' s (same _) a _ (λ id own. once-Good _))

  module _ (keys order : List String) where
    registry_deleted-Inv :
        (c : Call) (s : App F D.Db)
        → Inv D C L s.store
        → Inv D C L (registry_deleted D C keys order c s).store
    unfolding registry_deleted publish_registry
    registry_deleted-Inv (h, service) s v = go (service.typ == "taskQueue")
      where
        go :
            (b : Bool)
            → Inv D C L
                (publish_registry D order (
                  if b
                  then record s { store = delete_all_connections D C keys s.store }
                  else s)).store
        go true = delete_all_connections-Inv D L C faithful keys s.store v
        go false = v

    run_delete-Inv :
        (calls : List Call) (s : App F D.Db)
        → Inv D C L s.store
        → Inv D C L (run_delete D C keys order calls s).store
    unfolding run_delete
    run_delete-Inv [] s v = v
    run_delete-Inv (c ∷ calls) s v =
        run_delete-Inv calls (registry_deleted D C keys order c s) (registry_deleted-Inv c s v)

    pub on_session_close-Good :
        (conn : String) (s : App F D.Db)
        → Inv D C L s.store
        → Good' (on_session_close D C keys order conn s)
    unfolding on_session_close
    on_session_close-Good conn s v =
        unlocked-Good _
          (run_delete-Inv (Registry.unregister order conn s.registry).1
            (record s { registry = (Registry.unregister order conn s.registry).0 }) v)
          _
