-- ===== src/Sessions/Data.antt =====
-- Sessions, the store's state, and what the store needs from outside: the database and the encoder
-- of sessions (encoding/json). A handler is a number. Times are in nanoseconds, 0 is Go's zero
-- time, and times and counters do not wrap.
use blank_sr.Base.{ℕ, String, Option, List, map}
use blank_sr.Base.Map.{Map}
use blank_sr.Values.{Value}

pub record Conn (F : Type 0) : Type 0 where
  pub conn_id : String
  pub subscriptions : Map String (Value F)

pub record Session (F : Type 0) : Type 0 where
  pub api_key : String
  pub access_token : String
  pub user_id : Value F
  pub connections : List (Conn F)
  pub created_at : ℕ
  pub last_request : ℕ
  pub ttl : ℕ
  pub v : ℕ

-- A handler started with `go`: an update handler gets a copy, a delete handler the pointer.
pub data Notice (F : Type 0) : Type 0 where
  updated : ℕ → Session F → Notice F
  deleted : ℕ → ℕ → Notice F

-- The package's variables; `sessions` maps an API key to the address of a session in `heap`.
pub record Store (F Db : Type 0) : Type 0 where
  pub sessions : Map String ℕ
  pub heap : ℕ → Session F
  pub fresh : ℕ
  pub db : Db
  pub update_handlers : List ℕ
  pub delete_handlers : List ℕ
  pub notices : List (Notice F)

-- encoding/json on sessions. `unmarshal` fails on bytes that are no session.
pub record Codec (F Bytes : Type 0) : Type 0 where
  pub marshal : Session F → Bytes
  pub unmarshal : Bytes → Option (Session F)

abbrev pub bucket : String
bucket = "__sessions"

module _ {F : Type 0} where
  abbrev pub copy_conn : Conn F → Conn F
  copy_conn c = record { conn_id = c.conn_id; subscriptions = c.subscriptions }

  -- `copySession`. The time of creation is not among the fields that it copies.
  unfoldable pub copy_session : Session F → Session F
  copy_session s = record {
    api_key = s.api_key;
    access_token = s.access_token;
    user_id = s.user_id;
    connections = map copy_conn s.connections;
    created_at = 0;
    last_request = s.last_request;
    ttl = s.ttl;
    v = s.v;
  }
