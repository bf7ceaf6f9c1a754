-- ===== src/Main.antt =====
-- main.go: `start`, up to the server that it runs, and the messages of its hooks.
pub mod Kept
pub mod Program
pub mod Survival
pub mod Server
pub mod Uploads
pub mod Posts
pub mod Served
pub mod Stack
use blank_sr.Base.{ℕ, String, Option, none, some, List, [], ◌∷◌, ◌==◌, if◌then◌else◌, string_eq}
use blank_sr.Database.{Database}
use blank_sr.Handlers.State.{App}
use blank_sr.Registry
use blank_sr.Registry.{Registry, on_create, on_update, on_delete}
use blank_sr.Sessions.Data.{Session, Store, Codec, Notice, updated, deleted}
use blank_sr.Sessions.Store.{load_sessions, on_session_update, on_session_delete}
use blank_sr.Sync.Mutex
use blank_sr.Sync.Once

-- The functions that main hooks in, by number.
abbrev pub created_hook : ℕ
created_hook = 0

abbrev pub changed_hook : ℕ
changed_hook = 1

abbrev pub removed_hook : ℕ
removed_hook = 2

-- `port`, and the environment variable that takes its place.
abbrev pub default_port : String
default_port = "1234"

unfoldable pub port_of : String → String
port_of sr_port = if sr_port == "" then default_port else sr_port

-- `registry.OnCreate`, `registry.OnUpdate` and `registry.OnDelete` at the start.
unfoldable pub hooked_registry : Registry
unfolding on_create on_update on_delete
hooked_registry =
    on_delete removed_hook (on_update changed_hook (on_create created_hook Registry.start))

module _ (D : Database) {F : Type 0} (C : Codec F D.Bytes) where
  -- The variables of the session store in a process that has opened the database. `heap` is what the
  -- memory holds that nothing points to.
  abbrev pub opened_store : (ℕ → Session F) → D.Db → Store F D.Db
  opened_store heap db = record {
    sessions = [];
    heap = heap;
    fresh = 0;
    db = db;
    update_handlers = [];
    delete_handlers = [];
    notices = [];
  }

  -- `Init` of the session store, but for the keys.
  abbrev pub init_sessions : ℕ → (ℕ → Session F) → D.Db → Store F D.Db
  init_sessions now heap db = load_sessions D C now (opened_store heap db)

  -- The program when its server begins to listen.
  unfoldable pub started : ℕ → (ℕ → Session F) → D.Db → App F D.Db
  unfolding load_sessions hooked_registry on_session_update on_session_delete
  started now heap db = record {
    locks = Mutex.start;
    oncers = Once.start;
    registry = hooked_registry;
    store =
        on_session_delete D C removed_hook
          (on_session_update D C changed_hook (init_sessions now heap db));
    published = [];
  }

  -- What main's hooks publish as "sessions": the event and the session, as it is at that time.
  unfoldable pub session_message : Store F D.Db → Notice F → String × Session F
  session_message s (updated h x) = ("updated", x)
  session_message s (deleted h p) = ("deleted", s.heap p)
