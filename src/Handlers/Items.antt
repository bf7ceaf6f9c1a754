-- ===== src/Handlers/Items.antt =====
-- handlers.go: the calls about the local storage, which is in the sessions' database.
use blank_sr.Base.{Option, none, some}
use blank_sr.Database.{Database, Error}
use blank_sr.Handlers.Guards.{not_empty, with_string, two}
use blank_sr.Handlers.State.{App, Args, Reply, replies, nothing, text, failure}
use blank_sr.Storage
use blank_sr.Storage.{Text}

module _ (D : Database) (T : Text D.Bytes) {F : Type 0} where
  -- The program with the database changed.
  abbrev pub with_db : D.Db → App F D.Db → App F D.Db
  with_db d s = record s { store = record s.store { db = d } }

  -- The result of `localStorageSetItemHandler`, whose error is nil.
  abbrev pub saved : Option Error × D.Db → App F D.Db → Reply F × App F D.Db
  saved (e, d) s = (replies (failure e), with_db d s)

  -- `localStorageGetItemHandler`
  unfoldable pub local_storage_get_item_handler : Args F → App F D.Db → Reply F × App F D.Db
  local_storage_get_item_handler args = not_empty args (λ v vs. with_string v (λ id s.
      elim (Storage.get_item D T id s.store.db) [
        | none ↦ (replies nothing, s)
        | some item ↦ (replies (text item), s)
      ]))

  -- `localStorageSetItemHandler`
  unfoldable pub local_storage_set_item_handler : Args F → App F D.Db → Reply F × App F D.Db
  local_storage_set_item_handler args = two args (λ a b.
      with_string a
        (λ id. with_string b (λ item s. saved (Storage.set_item D T id item s.store.db) s)))

  -- `localStorageRemoveItemHandler`
  unfoldable pub local_storage_remove_item_handler : Args F → App F D.Db → Reply F × App F D.Db
  local_storage_remove_item_handler args = not_empty args (λ v vs.
      with_string v (λ id s. (replies nothing, with_db (Storage.remove_item D T id s.store.db) s)))

  -- `localStorageClearHandler`. The goroutine that it starts is run at once.
  unfoldable pub local_storage_clear_handler : App F D.Db → Reply F × App F D.Db
  local_storage_clear_handler s = (replies nothing, with_db (Storage.clear D T s.store.db) s)
