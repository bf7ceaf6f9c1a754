-- ===== src/Tests/Restarts.antt =====
-- sessionstore/sessionstore.go: a session is created, and the service is started again.
use blank_sr.Base.{
  ℕ, ◌≡◌, ◌≢◌, ◌<◌, ◌≤◌, refl, String, Option, none, some, [], ◌∷◌, arith, string_eq, nat_eq, count,
}
use blank_sr.Base.Map.{Map, lookup, insert}
use blank_sr.Sessions.Data.{copy_session, Session, Store, bucket}
use blank_sr.Sessions.Expiry.{clear_rotten_exact, unexpired}
use blank_sr.Sessions.History.{Reach, here, next, creates, restart, restart_recovers, history-Inv}
use blank_sr.Sessions.Invariant.{Kept, Inv}
use blank_sr.Sessions.Stale.{add_subscription-delete_session}
use blank_sr.Sessions.Store.{
  new_session, store_session, session_updated, save, load_sessions, clear_rotten, get_by_user_id,
  delete_session,
}
use blank_sr.Sessions.Subscriptions.{add_subscription}
use blank_sr.Tests.Memory.{memory, memory-IsLawful, any_key, plain, plain-IsFaithful}
use blank_sr.Values.{Value, Fields, string, null, field, end}

abbrev S : Type 0
S = Store ℕ memory.Db

abbrev pub nobody : Session ℕ
nobody = record {
  api_key = "";
  access_token = "";
  user_id = null;
  connections = [];
  created_at = 0;
  last_request = 0;
  ttl = 0;
  v = 0;
}

-- The service has started for the first time.
abbrev pub first : S
first = record {
  sessions = [];
  heap = λ p. nobody;
  fresh = 0;
  db = λ b. [];
  update_handlers = 1 ∷ [];
  delete_handlers = 2 ∷ [];
  notices = [];
}

pub first-Inv : Inv memory plain memory-IsLawful first
unfolding lookup
first-Inv = record {
  keyed = λ k p e. cc;
  allocated = λ k p e. cc;
  storable = λ k p e. cc;
  stored = λ k p e. cc;
  gone = λ k e. refl;
  waiting = λ k h. refl;
}

abbrev user_session : Session ℕ
user_session = record {
  api_key = "uuid";
  access_token = "token";
  user_id = string "u1";
  connections = [];
  created_at = 6;
  last_request = 0;
  ttl = 105;
  v = 0;
}

abbrev user : Fields ℕ
user = field "_id" (string "u1") end

abbrev signer : Map String (Value ℕ) → Option String
signer claims = some "token"

-- A session until the time 105.
abbrev pub created : S
created = (store_session memory plain user_session first).1

creation :
    new_session memory plain signer "uuid" (some 100) [] 5 6 user "" first
    ≡ some (store_session memory plain user_session first)
unfolding new_session string_eq
creation = refl

created-Reach : Reach memory memory-IsLawful plain plain-IsFaithful first created
created-Reach =
    next here (creates signer "uuid" (some 100) [] 5 6 user "" first _ (any_key _) creation)

created-lookup : lookup "uuid" created.sessions ≡ some 0
unfolding store_session lookup insert string_eq
created-lookup = refl

created-ttl : (created.heap 0).ttl ≡ 105
unfolding store_session session_updated save nat_eq
created-ttl = refl

pub created-Inv : Inv memory plain memory-IsLawful created
created-Inv = history-Inv memory memory-IsLawful plain plain-IsFaithful created-Reach first-Inv

created-young : ¬ ((created.heap 0).ttl < 50)
created-young h = omega (arith, created-ttl)

created-old : (created.heap 0).ttl < 200
created-old = omega (arith, created-ttl)

restart_recovers_example :
    (q : ℕ) × (lookup "uuid"
        (load_sessions memory plain 50
          (restart memory memory-IsLawful plain plain-IsFaithful created)).sessions
      ≡ some q)
    × Kept (created.heap 0) (
        (load_sessions memory plain 50
            (restart memory memory-IsLawful plain plain-IsFaithful created)).heap
          q)
    × (((load_sessions memory plain 50
            (restart memory memory-IsLawful plain plain-IsFaithful created)).heap
          q).connections
        ≡ [])
    × (((load_sessions memory plain 50
            (restart memory memory-IsLawful plain plain-IsFaithful created)).heap
          q).created_at
        ≡ 0)
restart_recovers_example =
    restart_recovers memory memory-IsLawful plain plain-IsFaithful 50 created "uuid" created-Inv 0
      created-lookup created-young

other_absent : lookup "other" created.sessions ≡ none
unfolding store_session lookup insert string_eq
other_absent = refl

created-covers : (k : String) → lookup k created.sessions ≢ none → 1 ≤ count k ("uuid" ∷ [])
unfolding store_session lookup insert
created-covers k h = ground arith

clear_rotten_exact_example :
    lookup "uuid" (clear_rotten memory plain ("uuid" ∷ []) 200 created).sessions
    ≡ unexpired memory plain 200 created.heap (lookup "uuid" created.sessions)
clear_rotten_exact_example =
    clear_rotten_exact memory plain ("uuid" ∷ []) 200 created created-Inv.keyed created-covers
      "uuid"

found :
    get_by_user_id memory plain ("uuid" ∷ []) "u1" created ≡ some (copy_session (created.heap 0))
unfolding get_by_user_id store_session session_updated save lookup insert string_eq nat_eq
found = refl

add_subscription-delete_session_example :
    let t =
      add_subscription memory plain 0 "c1" "com.orders" null
        (delete_session memory plain 0 created) in
    (lookup (created.heap 0).api_key t.sessions ≡ none)
    × ((b : Session ℕ) × (y : Session ℕ) × (memory.get bucket (created.heap 0).api_key t.db
          ≡ some b)
        × (plain.unmarshal b ≡ some y)
        × Kept (created.heap 0) y)
add_subscription-delete_session_example =
    add_subscription-delete_session memory memory-IsLawful plain plain-IsFaithful 0 "c1"
      "com.orders" null created (any_key _)
