-- ===== src/Sync/Mutex.antt =====
-- sync/mutex.go: named mutexes over buffered channels.
-- `lockers` maps an id to the address of its `locker`, so that a goroutine which waits in `lock`
-- keeps the locker that it looked up; `channels` gives the fill of the channel at an address
-- (capacity 1), and addresses from `fresh` on are not yet allocated.
pub mod Clients
pub mod Invariant
pub mod Requests
pub mod Grants
pub mod Owners
pub mod Releases
pub mod Drains
pub mod Disconnects
pub mod Exclusion
pub mod Misuse
use blank_sr.Base.{ℕ, zero, suc, String, Option, none, some, List, [], ◌∷◌, ◌++◌}
use blank_sr.Base.{◌==◌, if◌then◌else◌, string_eq, nat_eq, length, get_elem?, remove_at, or_else}
use blank_sr.Base.Map.{Map, lookup, insert, erase}
use blank_sr.Base.Int.{ℤ, pos, inc, dec, is_zero}

pub record State : Type 0 where
  pub lockers : Map String ℕ
  pub channels : ℕ → ℕ
  pub fresh : ℕ
  pub owners : Map String (List String)
  pub counters : Map String ℤ

-- The package's variables before any call.
abbrev pub start : State
start = record { lockers = []; channels = λ p. 0; fresh = 0; owners = []; counters = [] }

-- What a call comes to: it returns; it waits on a channel while it holds `mutexLocker`; or it
-- reads a field of a nil locker and panics. The last two keep the state that they leave behind.
pub data Outcome : Type 0 where
  done : State → Outcome
  blocks : State → Outcome
  panics : State → Outcome

abbrev pub fill : (ℕ → ℕ) → ℕ → ℕ → ℕ → ℕ
fill channels p n q = if q == p then n else channels q

-- `owners2Lockers[owner]`, which is nil for a missing key.
abbrev pub ids : String → Map String (List String) → List String
ids owner m = or_else (lookup owner m) []

-- `lockersCounters[id]`, which is 0 for a missing key.
abbrev pub counter : String → State → ℤ
counter id s = or_else (lookup id s.counters) (pos 0)

-- `lock` on the locker at `p`: the send waits while the channel is full.
unfoldable pub lock : ℕ → State → Option State
lock p s = if s.channels p == 0 then some (record s { channels = fill s.channels p 1 }) else none

-- `unlock` on the locker at `p`: the receive waits while the channel is empty.
unfoldable pub unlock : ℕ → State → Option State
unlock p s = if s.channels p == 0 then none else some (record s { channels = fill s.channels p 0 })

-- `m = new(locker)`, stored under `id`.
unfoldable pub allocate : String → State → State
allocate id s = record s {
  lockers = insert id s.fresh s.lockers;
  channels = fill s.channels s.fresh 0;
  fresh = suc s.fresh;
}

-- The locker of `id`, made if there is none.
unfoldable pub find_locker : String → State → ℕ × State
unfolding allocate
find_locker id s = elim (lookup id s.lockers) [ none ↦ (s.fresh, allocate id s) | some p ↦ (p, s) ]

-- `Lock` up to `mutexLocker.Unlock()`: what the goroutine does before it waits in `lock`.
unfoldable pub request : String → String → State → ℕ × State
unfolding find_locker
request owner id s =
    let (p, s') = find_locker id s in
    (
      p,
      record s' {
        owners = insert owner (ids owner s'.owners ++ (id ∷ [])) s'.owners;
        counters = insert id (inc (counter id s')) s'.counters;
      },
    )

-- The body of the loop, at the entry with index `i`: a copy of `id` is cut out, and the owner goes
-- with the last one.
cut : Option String → ℕ → String → String → Map String (List String) → Map String (List String)
cut none i owner id m = m
cut (some j) i owner id m = if id == j then insert owner (remove_at i (ids owner m)) m else m

drop_if_empty : String → Map String (List String) → Map String (List String)
drop_if_empty owner m = if length (ids owner m) == 0 then erase owner m else m

-- The loop of `Unlock` over `owners2Lockers[owner]`, from the index below `i` down to 0.
unfoldable pub forget : ℕ → String → String → Map String (List String) → Map String (List String)
unfolding cut drop_if_empty
forget zero owner id m = m
forget (suc i) owner id m =
    forget i owner id (drop_if_empty owner (cut (get_elem? (ids owner m) i) i owner id m))

-- `lockersCounters[id]--`, and both entries of `id` go when it comes to 0.
unfoldable pub release_counter : String → State → State
release_counter id s =
    let n = dec (counter id s) in
    if is_zero n
    then record s { lockers = erase id s.lockers; counters = erase id s.counters }
    else record s { counters = insert id n s.counters }

unfoldable pub release : String → String → Option State → State → Outcome
unfolding release_counter forget
release owner id none s = blocks s
release owner id (some t) s =
    let u = release_counter id t in
    done (record u { owners = forget (length (ids owner u.owners)) owner id u.owners })

-- `Unlock`
unfoldable pub unlock_id : String → String → State → Outcome
unfolding unlock release
unlock_id owner id s = elim (lookup id s.lockers) [
  | none ↦ done s
  | some p ↦ release owner id (unlock p s) s
]

-- `lockers[id].unlock()` and `lockersCounters[id]--`
unfoldable pub release_one : String → State → Outcome
unfolding unlock
release_one id s = elim (lookup id s.lockers) [
  | none ↦ panics s
  | some p ↦ elim (unlock p s) [
    | none ↦ blocks s
    | some t ↦ done (record t { counters = insert id (dec (counter id t)) t.counters })
  ]
]

abbrev pub then_do : Outcome → (State → Outcome) → Outcome
then_do (done s) k = k s
then_do (blocks s) k = blocks s
then_do (panics s) k = panics s

unfoldable pub release_all : List String → State → Outcome
release_all [] s = done s
release_all (id ∷ rest) s = then_do (release_one id s) (λ t. release_all rest t)

-- `UnlockForOwner`
unfoldable pub unlock_for_owner : String → State → Outcome
unfolding release_all release_one
unlock_for_owner owner s = elim (lookup owner s.owners) [
  | none ↦ done s
  | some locks ↦
      then_do (release_all locks s) (λ t. done (record t { owners = erase owner t.owners }))
]
