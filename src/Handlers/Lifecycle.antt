-- ===== src/Handlers/Lifecycle.antt =====
-- What the handlers do one after the other.
use blank_sr.Base.{◌≡◌, ◌∙◌, refl, ap, sym, subst, String, List, [], ◌∷◌, string_eq, nat_eq, arith}
use blank_sr.Database.{Database}
use blank_sr.Handlers.Services.{run_delete, registry_deleted}
use blank_sr.Handlers.State.{App, replies, nothing}
use blank_sr.Handlers.Sync.{on_session_close, unlocked}
use blank_sr.Registry
use blank_sr.Registry.{Registry, Call}
use blank_sr.Registry.Closing.{Closes, unregister-Closes}
use blank_sr.Registry.Orders.{Ranges}
use blank_sr.Sync.Mutex.Disconnects.{GivenBack}
use blank_sr.Sessions.Data.{Codec}
use blank_sr.Sync.Mutex
use blank_sr.Sync.Mutex.{done, unlock_for_owner}
use blank_sr.Sync.Mutex.Clients.{Clients, Reach, idle, by, drop_owner}
use blank_sr.Sync.Mutex.Exclusion.{unlock_for_owner_returns}

module _ (D : Database) {F : Type 0} (C : Codec F D.Bytes) (keys order : List String) where
  registry_deleted-fields :
      (c : Call) (s : App F D.Db)
      → ((registry_deleted D C keys order c s).locks ≡ s.locks)
        × ((registry_deleted D C keys order c s).registry ≡ s.registry)
  unfolding registry_deleted
  registry_deleted-fields (h, service) s = (ground arith, ground arith)

  run_delete-fields :
      (calls : List Call) (s : App F D.Db)
      → ((run_delete D C keys order calls s).locks ≡ s.locks)
        × ((run_delete D C keys order calls s).registry ≡ s.registry)
  unfolding run_delete
  run_delete-fields [] s = (refl, refl)
  run_delete-fields (c ∷ calls) s =
      let (locks, registry) = registry_deleted-fields c s in
      let (later_locks, later_registry) =
        run_delete-fields calls (registry_deleted D C keys order c s) in
      (later_locks ∙ locks, later_registry ∙ registry)

  -- The program after the handlers of `OnDelete` have run.
  abbrev unregistered : String → App F D.Db → App F D.Db
  unregistered o s =
      let (r, calls) = Registry.unregister order o s.registry in
      run_delete D C keys order calls (record s { registry = r })

  on_session_close-done :
      (o : String) (s : App F D.Db) (u : Mutex.State)
      → unlock_for_owner o (unregistered o s).locks ≡ done u
      → on_session_close D C keys order o s
        ≡ (replies nothing, record (unregistered o s) { locks = u })
  unfolding on_session_close unlocked
  on_session_close-done o s u e = rw e

  -- For clients that keep to the rules of the mutexes, the closing of a connection that waits for
  -- no mutex returns. It empties the channels of the mutexes that the connection holds and no
  -- others, and lowers their counters. It takes exactly one of the connection's services out of the
  -- registry, out of the list of its type, and leaves the other lists, or leaves the registry as it
  -- is where the connection has none.
  pub on_session_close_returns :
      {y : Clients} (o : String) (s : App F D.Db)
      → Reach idle y
      → y.store ≡ s.locks
      → by o y.waiting ≡ 0
      → Ranges order s.registry.services
      → let r = on_session_close D C keys order o s in
        (r.0 ≡ replies nothing)
        × Closes o order s.registry r.1.registry
        × GivenBack o y.held s.locks r.1.locks
        × Reach idle (record y { store = r.1.locks; held = drop_owner o y.held })
  on_session_close_returns {y} o s reach same active ranges =
      let (u, e, back, after) = unlock_for_owner_returns o reach active in
      let (r, calls) = Registry.unregister order o s.registry in
      let (locks, registry) = run_delete-fields calls (record s { registry = r }) in
      let t = run_delete D C keys order calls (record s { registry = r }) in
      rw (on_session_close-done o s u (ap (unlock_for_owner o) (locks ∙ sym same) ∙ e)) (
        refl,
        subst (Closes o order s.registry) (sym registry)
            (unregister-Closes order o s.registry ranges),
        subst (λ l. GivenBack o y.held l u) same back,
        after,
      )
