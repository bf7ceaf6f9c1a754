-- ===== src/Tests/Program.antt =====
-- main.go and handlers.go: a client creates a session, and the program is started again.
use blank_sr.Base.{ℕ, ◌≡◌, some, [], ◌∷◌, string_eq, nat_eq}
use blank_sr.Handlers.Dispatch.{Rpc, Env, handle}
use blank_sr.Handlers.State.{App, Args, fails, not_found}
use blank_sr.Main.{hooked_registry}
use blank_sr.Main.Program.{Reach, here, next, calls, program_keeps_sessions}
use blank_sr.Main.Survival.{checks, restarted, deleted, deleted_for_ever}
use blank_sr.Sessions.Invariant.{Inv}
use blank_sr.Sync.Mutex
use blank_sr.Sync.Once
use blank_sr.Tests.Calls.{keyed}
use blank_sr.Tests.Memory.{memory, memory-IsLawful, any_key, plain, plain-IsFaithful}
use blank_sr.Tests.Restarts.{first, first-Inv}
use blank_sr.Values.{object, field, end, string}

abbrev running : App ℕ memory.Db
running = record {
  locks = Mutex.start;
  oncers = Once.start;
  registry = hooked_registry;
  store = first;
  published = [];
}

abbrev pub env : Env ℕ
env = record {
  conn_id = "c1";
  remote_addr = "10.0.0.1:80";
  sign = λ claims. some "token";
  uuid = "uuid";
  jwt_ttl = some 100;
  props = [];
  now = 5;
  later = 6;
  types = [];
  keys = [];
}

abbrev pub args : Args ℕ
args = some (object (field "_id" (string "u1") end) ∷ [])

abbrev with_session : App ℕ memory.Db
with_session = (handle memory keyed plain env Rpc.session_new args running).1

history : Reach memory memory-IsLawful keyed plain plain-IsFaithful running with_session
history =
    next here (
      calls env Rpc.session_new args running (λ v vs same. (λ e. any_key _, λ e id own. any_key _)))

program_keeps_sessions_example : Inv memory plain memory-IsLawful with_session.store
program_keeps_sessions_example =
    program_keeps_sessions memory memory-IsLawful keyed plain plain-IsFaithful history first-Inv

deleted_for_ever_example :
    (checks memory plain "uuid" (deleted memory plain "uuid" with_session) ≡ fails not_found)
    × (checks memory plain "uuid"
          (restarted memory plain 50 (deleted memory plain "uuid" with_session))
        ≡ fails not_found)
deleted_for_ever_example =
    deleted_for_ever memory memory-IsLawful keyed plain plain-IsFaithful history first-Inv 50 "uuid"
