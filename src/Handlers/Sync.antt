-- ===== src/Handlers/Sync.antt =====
-- handlers.go: the calls about mutexes, and what main does when a connection closes.
use blank_sr.Base.{ℕ, String, Option, none, some, List}
use blank_sr.Database.{Database}
use blank_sr.Handlers.Guards.{not_empty, with_string}
use blank_sr.Handlers.Services.{run_delete}
use blank_sr.Handlers.State.{App, Args, Reply, replies, fails, waits, panics, executed, nothing}
use blank_sr.Registry
use blank_sr.Registry.{Call}
use blank_sr.Sessions.Data.{Codec}
use blank_sr.Sync.Mutex
use blank_sr.Sync.Mutex.{Outcome, done, blocks}
use blank_sr.Sync.Once

module _ (D : Database) {F : Type 0} where
  -- The reply after `Unlock` or `UnlockForOwner`.
  unfoldable pub unlocked : Mutex.Outcome → App F D.Db → Reply F × App F D.Db
  unlocked (done t) s = (replies nothing, record s { locks = t })
  unlocked (blocks t) s = (waits, record s { locks = t })
  unlocked (Mutex.panics t) s = (panics, record s { locks = t })

  -- `Lock` for a client, as long as nothing else runs.
  unfoldable pub lock_now : ℕ × Mutex.State → App F D.Db → Reply F × App F D.Db
  lock_now (p, t) s = elim (Mutex.lock p t) [
    | none ↦ (waits, record s { locks = t })
    | some u ↦ (replies nothing, record s { locks = u })
  ]

  -- `syncLockHandler`
  unfoldable pub sync_lock_handler : String → Args F → App F D.Db → Reply F × App F D.Db
  unfolding lock_now
  sync_lock_handler conn_id args =
      not_empty args (λ v vs. with_string v (λ id s. lock_now (Mutex.request conn_id id s.locks) s))

  -- `syncUnlockHandler`
  unfoldable pub sync_unlock_handler : String → Args F → App F D.Db → Reply F × App F D.Db
  unfolding unlocked
  sync_unlock_handler conn_id args =
      not_empty args
        (λ v vs. with_string v (λ id s. unlocked (Mutex.unlock_id conn_id id s.locks) s))

  -- The reply after `Once`.
  unfoldable pub once_reply : Option Once.Error × Once.State → App F D.Db → Reply F × App F D.Db
  once_reply (none, t) s = (replies nothing, record s { oncers = t })
  once_reply (some _, t) s = (fails executed, record s { oncers = t })

  -- `syncOnceHandler`
  unfoldable pub sync_once_handler : ℕ → Args F → App F D.Db → Reply F × App F D.Db
  unfolding once_reply
  sync_once_handler now args =
      not_empty args (λ v vs. with_string v (λ id s. once_reply (Once.once id now s.oncers) s))

  -- `onSessionClose`. The calls of `OnDelete`'s handler, which are goroutines, are run in between.
  unfoldable pub on_session_close :
      Codec F D.Bytes → List String → List String → String → App F D.Db → Reply F × App F D.Db
  unfolding unlocked
  on_session_close C keys order conn_id s =
      let (r, calls) = Registry.unregister order conn_id s.registry in
      let t = run_delete D C keys order calls (record s { registry = r }) in
      unlocked (Mutex.unlock_for_owner conn_id t.locks) t
