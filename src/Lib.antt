-- ===== src/Lib.antt =====
-- blank-sr, the service registry of Blank: the registry of services, the configuration server, the
-- store of sessions, and mutexes, for clients that connect over WAMP. main.go and handlers.go pass
-- the calls of clients on to the packages below and tell them when a connection closes.
--
-- Parts and files:
-- * sync/mutex.go is Sync/Mutex: `Lock` is `request`, up to the release of the package's own lock,
--   and then `lock` on the channel; `Unlock` is `unlock_id`, `UnlockForOwner` is `unlock_for_owner`.
--   A call returns, waits or panics (`Outcome`). The goroutines of the clients that keep to the
--   rules are the steps of Sync/Mutex/Clients; Sync/Mutex/Misuse is about those that do not.
-- * sync/once.go is Sync/Once, with the timers of the runtime as a list and a history as a list of
--   timed events.
-- * registry/registry.go is Registry. Where Go ranges over a map, the order is an argument, and
--   Registry/Orders says which ones Go may take.
-- * sessionstore/sessionstore.go is Sessions: Data (sessions, the package's variables and the
--   encoder), Store (operations on sessions) and Subscriptions (connections of a session). `New` is
--   `new_session`, `sessionUpdated` is `session_updated`, `loadSessions` is `load_sessions`.
--   Sessions are at addresses of a heap, which callers keep, as Go's pointers are. The histories of
--   the program's calls and of restarts are in Sessions/History.
-- * localstorage/localstorage.go is Storage: texts in a bucket of the sessions' database.
-- * handlers.go is Handlers: State (the state of the whole program and the replies), Guards (the
--   checks of arguments), Sessions, Services, Sync and Items (the handlers) and Dispatch (the names
--   under which main.go registers them). `onSessionClose` of main.go is `on_session_close` in
--   Handlers/Sync, and its hooks into the registry are in Handlers/Services. Handlers/Cases has what
--   the proofs on handlers share.
-- * `start` of main.go is Main (the state that the server begins with and its hooks) and Main/Server
--   (archives, subscriptions and the multiplexer). Main/Program has the histories of the whole
--   program: calls, closed connections, waiting locks, timers, the watcher and restarts.
--   Main/Survival is about a session across a restart, Main/Stack puts the program on bdb and Bolt,
--   and Main/Served has the histories of requests.
-- * config/config.go and process.go are Config: Props and Stores (the data), Names (the constants),
--   Checks and Switch (`validateProps`), Defaults (`LoadDefaultIntoProp`, `mergeFilters`,
--   `mergeAccess`, `mergeWith`), Migrations and Validate (`Validate`), Reload (`Init`,
--   `ReloadConfig`, `readConfig`, `loadFromProviders` and the loading of settings).
--   config/settings.go is Config/Settings, getters.go is Config/Getters and mongocfg.go is Config/Mongo. Config/Typing says
--   what a property of each type may hold, without `validateProps`. Config/Idempotent and the
--   modules called Laws, Overrides, References, Kept, Providers, History, Typed and Untyped have the
--   theorems.
-- * bdb/bdb.go is Bdb: Bolt (what it calls of Bolt, and `Update`), Reads, Writes, Nested
--   (`SaveInNested`, `DeleteNested`) and Increments (`Inc`). Bdb/Laws says what it relies on of Bolt,
--   and Bdb/Refinement makes it the database of the session store and the local storage.
-- * The HTTP handlers of main.go, and `configHandler` of handlers.go, are Http and, for `/config`,
--   Http/Configuration.
-- * utils/array/array.go is Utils, with `IndexOfSortedStrings` in Utils/Search, Utils/Order and
--   Utils/Sorted; the
--   RSA keys of sessionstore.go are Sessions/Keys. utils/rgx/rgx.go is Utils/Rgx.
-- * Values is Go's `interface{}` as JSON fills it. Database is what the session store asks of
--   bdb/bdb.go, with the laws that it relies on while no I/O fails.
-- * Base has Go's maps, slices and counters. Tests has the theorems at concrete inputs.
--
-- Parameters: the signer of tokens, the formats of keys, the file system, the clock, fresh UUIDs,
-- Bolt, MongoDB's driver, zip archives, regular expressions, copier.Copy, the comparisons of floating-point numbers,
-- `sort.Slice`, and encoding/json, which is taken to give back what it encoded. The fields of stores
-- and properties that process.go neither reads nor writes are one field of the records.
-- Bounds: a duration is a word of 64 bits that wraps around, and strconv.Atoi has the range of 64
-- bits. Other times, lengths and counters are numbers that do not wrap: Go's int has 64 bits here,
-- and no counter is above the number of calls. Fuel: `search` has one round for each string of the
-- slice, and the interval is halved in each; the other loops are over the lists that they range over.
-- Not modelled: the network and the sockets that main.go listens on, the stream of the whole database
-- (`DbWriteTo`), regular expressions but for the groups of a match, log messages, and the
-- packages' own locks, which make each operation one step. A goroutine that a handler starts is run
-- at once. What an HTTP handler leaves when it recovers from a
-- panic is modelled for the panic of `ReloadConfig` at a nil map only. The values of interfaces are
-- those of JSON: the times that MongoDB's driver makes of BSON dates are not among them. Times count
-- from Go's zero time, are not before 1970 where a token is made, and a TTL added to one is not
-- negative.
pub mod Base
pub mod Sync
pub mod Registry
pub mod Values
pub mod Database
pub mod Sessions
pub mod Storage
pub mod Handlers
pub mod Utils
pub mod Config
pub mod Bdb
pub mod Http
pub mod Main
mod Tests
