-- ===== src/Tests/Calls.antt =====
-- handlers.go and localstorage/localstorage.go: calls of one client.
use blank_sr.Base.{
  ℕ, ◌≡◌, ◌≢◌, refl, String, none, some, [], ◌∷◌, ◌==◌, if◌then◌else◌, string_eq, nat_eq,
}
use blank_sr.Handlers.Dispatch.{Rpc, Env, handle}
use blank_sr.Handlers.Errors.Unchanged.{error_keeps_state}
use blank_sr.Handlers.Lifecycle.{on_session_close_returns}
use blank_sr.Handlers.Sessions.{
  session_unsubscribed_handler, check_session_by_api_key_handler, delete_session_handler,
}
use blank_sr.Handlers.State.{
  App, fails, replies, nothing, text, value, invalid_arguments, not_found,
}
use blank_sr.Handlers.Sync.{on_session_close}
use blank_sr.Handlers.Tokens.{session_life, call}
use blank_sr.Registry.Closing.{Closes}
use blank_sr.Sync.Mutex.Disconnects.{GivenBack}
use blank_sr.Sessions.Data.{Session}
use blank_sr.Storage.{Text, get_item, set_item, remove_item, clear}
use blank_sr.Storage.Laws.{storage_is_map}
use blank_sr.Sync.Mutex.Clients.{Reach, idle, drop_owner}
use blank_sr.Sync.Once
use blank_sr.Tests.Locks.{locked, locked-Reach}
use blank_sr.Tests.Memory.{memory, memory-IsLawful, any_key, plain}
use blank_sr.Tests.Restarts.{created, nobody}
use blank_sr.Tests.Services.{registry, order, order-Ranges}
use blank_sr.Values.{string, null, field, end, field_or_null}

-- Texts as sessions whose key they are.
abbrev pub keyed : Text (Session ℕ)
keyed = record { bytes = λ s. record nobody { api_key = s }; text = λ x. x.api_key }

storage_is_map_example :
    (get_item memory keyed "b" (set_item memory keyed "a" "1" created.db).1
      ≡ (if ◌==◌ {A = String} "a" "b" then some "1" else get_item memory keyed "b" created.db))
    × (get_item memory keyed "b" (remove_item memory keyed "a" created.db)
        ≡ (if ◌==◌ {A = String} "a" "b" then none else get_item memory keyed "b" created.db))
    × (get_item memory keyed "b" (clear memory keyed created.db) ≡ none)
storage_is_map_example =
    storage_is_map memory memory-IsLawful keyed (λ s. refl) "a" "1" "b" created.db (any_key _)

-- `alice` holds a mutex, and there is one session.
abbrev app : App ℕ memory.Db
app = record {
  locks = locked.store;
  oncers = Once.start;
  registry = registry;
  store = created;
  published = [];
}

abbrev env : Env ℕ
env = record {
  conn_id = "alice";
  remote_addr = "10.0.0.1:80";
  sign = λ claims. some "token";
  uuid = "fresh";
  jwt_ttl = none;
  props = [];
  now = 7;
  later = 8;
  types = [];
  keys = [];
}

too_few :
    (handle memory keyed plain env Rpc.session_unsubscribed (some (null ∷ [])) app).0
    ≡ fails invalid_arguments
unfolding session_unsubscribed_handler
too_few = refl

error_keeps_state_example :
    (handle memory keyed plain env Rpc.session_unsubscribed (some (null ∷ [])) app).1 ≡ app
error_keeps_state_example =
    error_keeps_state memory keyed plain app env Rpc.session_unsubscribed (some (null ∷ []))
      invalid_arguments too_few

on_session_close_returns_example :
    let r = on_session_close memory plain [] order "alice" app in
    (r.0 ≡ replies nothing)
    × Closes "alice" order registry r.1.registry
    × GivenBack "alice" locked.held locked.store r.1.locks
    × Reach idle (record locked { store = r.1.locks; held = drop_owner "alice" locked.held })
on_session_close_returns_example =
    on_session_close_returns memory plain [] order "alice" app locked-Reach refl refl order-Ranges

abbrev chosen : String
chosen = "s1"

named : chosen ≢ ""
named e = cc

session_life_example :
    let first =
      call memory plain env.sign "fresh" none [] 7 8
        (field "_id" (string "u2") end)
        chosen
        "token"
        app in
    (first.0 ≡ replies (text "token"))
    × ((check_session_by_api_key_handler memory plain (some (string chosen ∷ [])) first.1).0
        ≡ replies (value (field_or_null "_id" (field "_id" (string "u2") end))))
    × ((check_session_by_api_key_handler memory plain
          (some (string chosen ∷ []))
          (delete_session_handler memory plain (some (string chosen ∷ [])) first.1).1).0
        ≡ fails not_found)
session_life_example =
    session_life memory plain env.sign "fresh" none [] 7 8 (field "_id" (string "u2") end) chosen
      "token" app named refl
