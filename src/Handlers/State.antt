-- ===== src/Handlers/State.antt =====
-- The state of the whole program, and what a call of a client comes to.
use blank_sr.Base.{ℕ, String, Option, List}
use blank_sr.Database.{Error}
use blank_sr.Registry.{Registry, Services}
use blank_sr.Sessions.Data.{Session, Store}
use blank_sr.Sync.Mutex
use blank_sr.Sync.Once
use blank_sr.Values.{Value, Values}

-- What the program publishes: the topics "registry", "events" and "users".
pub data Event (F : Type 0) : Type 0 where
  registry_changed : Services → Event F
  event : String → Value F → Values F → Event F
  user : String → Event F

pub record App (F Db : Type 0) : Type 0 where
  pub locks : Mutex.State
  pub oncers : Once.State
  pub registry : Registry
  pub store : Store F Db
  pub published : List (Event F)

pub data Failure : Type 0 where
  invalid_arguments invalid_message no_type not_found executed : Failure

-- The result of a handler that returns no error. `failure` is an error that stands where the result
-- should, with `none` for nil.
pub data Result (F : Type 0) : Type 0 where
  nothing : Result F
  text : String → Result F
  value : Value F → Result F
  services : Services → Result F
  session : Session F → Result F
  all : List ℕ → Result F
  failure : Option Error → Result F

-- The process may exit in `log.Fatal`.
pub data Reply (F : Type 0) : Type 0 where
  replies : Result F → Reply F
  fails : Failure → Reply F
  waits : Reply F
  panics : Reply F
  exits : Reply F

-- The arguments of a call.
abbrev pub Args : Type 0 → Type 0
Args F = Option (List (Value F))
