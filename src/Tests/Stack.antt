-- ===== src/Tests/Stack.antt =====
-- The program over bdb/bdb.go and a Bolt in memory.
use blank_sr.Base.{
  ℕ, ◌≡◌, ◌≢◌, refl, sym, subst, String, none, some, List, [], arith, string_eq, nat_eq, ◌==◌,
  if◌then◌else◌,
}
use blank_sr.Base.Map.{lookup, insert}
use blank_sr.Bdb.Laws.{IsName, Flat, held}
use blank_sr.Bdb.Reads.{get_all}
use blank_sr.Bdb.Refinement.{database, database-IsLawful}
use blank_sr.Handlers.Dispatch.{Rpc, handle}
use blank_sr.Handlers.Sessions.{new_session_handler, created, session_id_of}
use blank_sr.Handlers.State.{App, replies, value}
use blank_sr.Main.{started}
use blank_sr.Main.Program.{Reach, here, next, calls}
use blank_sr.Main.Stack.{laws, first_start, session_survives_in_bolt}
use blank_sr.Main.Survival.{checks, restarted}
use blank_sr.Sessions.Data.{Session, bucket}
use blank_sr.Sessions.Store.{
  new_session, store_session, session_updated, save, load_sessions, load_each, on_session_update,
  on_session_delete,
}
use blank_sr.Tests.Calls.{keyed}
use blank_sr.Tests.Files.{Buckets, in_memory, in_memory-IsBolt}
use blank_sr.Tests.Memory.{plain, plain-IsFaithful, distinct}
use blank_sr.Tests.Program.{env, args}
use blank_sr.Tests.Restarts.{nobody}
use blank_sr.Values.{Value, string}

abbrev B : Type 0
B = Session ℕ

abbrev file : Buckets B
file b = []

bare : (b k : String) → held (in_memory B) b k file ≡ none
unfolding lookup distinct
bare b k = refl

flat : Flat (in_memory B) file
flat b k e = cc (bare b k)

abbrev at_first : App ℕ ((t : Buckets B) × Flat (in_memory B) t)
at_first =
    first_start (in_memory B) (in_memory-IsBolt B) keyed plain plain-IsFaithful 1 (λ p. nobody) file
      flat (bare bucket)

abbrev with_session : App ℕ ((t : Buckets B) × Flat (in_memory B) t)
with_session =
    (handle (database (in_memory B) (in_memory-IsBolt B)) keyed plain env Rpc.session_new args
      at_first).1

key :
    (vs : List (Value ℕ))
    → vs ≡ []
    → IsName (if session_id_of vs == "" then "uuid" else session_id_of vs)
unfolding string_eq
key vs e =
    subst (λ ws. IsName (if session_id_of ws == "" then "uuid" else session_id_of ws)) (sym e)
      (omega arith, omega arith)

other : Rpc.session_new ≢ Rpc.storage_set_item
other e = cc

history :
    Reach
      (database (in_memory B) (in_memory-IsBolt B))
      (laws (in_memory B) (in_memory-IsBolt B))
      keyed
      plain
      plain-IsFaithful
      at_first
      with_session
history = next here (
    calls env Rpc.session_new args at_first (λ v vs same. (
      λ e. (database-IsLawful (in_memory B) (in_memory-IsBolt B)).1 _ (key vs cc),
      λ e id own. absurd (other e),
    )))

found : lookup "uuid" with_session.store.sessions ≡ some 0
unfolding new_session_handler created new_session store_session lookup insert string_eq started
    load_sessions load_each on_session_update on_session_delete get_all distinct
found = refl

own : (with_session.store.heap 0).user_id ≡ string "u1"
unfolding new_session_handler created new_session store_session session_updated save nat_eq
    string_eq started load_sessions load_each on_session_update on_session_delete get_all distinct
own = refl

until : (with_session.store.heap 0).ttl ≡ 105
unfolding new_session_handler created new_session store_session session_updated save nat_eq
    string_eq started load_sessions load_each on_session_update on_session_delete get_all distinct
until = refl

session_survives_in_bolt_example :
    checks
      (database (in_memory B) (in_memory-IsBolt B))
      plain
      "uuid"
      (restarted (database (in_memory B) (in_memory-IsBolt B)) plain 50 with_session)
    ≡ replies (value (string "u1"))
session_survives_in_bolt_example =
    session_survives_in_bolt (in_memory B) (in_memory-IsBolt B) keyed plain plain-IsFaithful 1
      (λ p. nobody) file flat (bare bucket) history 50 "uuid" 0 "u1" found own
      (λ old. omega (arith, until))
