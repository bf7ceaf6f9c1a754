-- ===== src/Sync/Once.antt =====
-- sync/once.go: `Once` lets one caller through for an id in a minute.
-- `timers` holds the timers of `time.AfterFunc` that have not fired, each with the time from which
-- it may fire. Times are counted in nanoseconds and do not wrap.
pub mod Laws
use blank_sr.Base.{ℕ, ◌+◌, ◌*◌, ◌^◌, String, Option, none, some, List, [], ◌∷◌}
use blank_sr.Base.{if◌then◌else◌, string_eq, leb, get_elem?, remove_at}
use blank_sr.Base.Map.{Map, lookup, insert, erase}

pub record Timer : Type 0 where
  pub id : String
  pub due : ℕ

pub record State : Type 0 where
  pub oncers : Map String (Unit {0})
  pub timers : List Timer

abbrev pub start : State
start = record { oncers = []; timers = [] }

pub data Error : Type 0 where
  executed : Error

-- `time.Minute`
abbrev pub ttl : ℕ
ttl = 60 * 10 ^ 9

-- `makeOncer`, and the entry that `once` makes with its result.
unfoldable pub make_oncer : String → ℕ → State → State
make_oncer id now s = record {
  oncers = insert id tt s.oncers;
  timers = record { id = id; due = now + ttl } ∷ s.timers;
}

-- `once`, with the error or nil, and the state after it.
unfoldable pub once : String → ℕ → State → Option Error × State
unfolding make_oncer
once id now s = elim (lookup id s.oncers) [
  | none ↦ (none, make_oncer id now s)
  | some _ ↦ (some executed, s)
]

-- The function that a timer runs, for the timer at index `n`.
unfoldable pub expire : ℕ → State → State
expire n s = elim (get_elem? s.timers n) [
  | none ↦ s
  | some t ↦ record { oncers = erase t.id s.oncers; timers = remove_at n s.timers }
]

pub data Event : Type 0 where
  -- A call of `Once`.
  calls : String → Event
  -- The runtime may fire the timer at this index, which it does not do before the timer is due.
  fires : ℕ → Event

is_due : ℕ → ℕ → State → Option Timer
is_due now n s = elim (get_elem? s.timers n) [
  | none ↦ none
  | some t ↦ if leb t.due now then some t else none
]

unfoldable pub step : ℕ × Event → State → State
unfolding is_due once expire
step (now, calls id) s = (once id now s).1
step (now, fires n) s = elim (is_due now n s) [ none ↦ s | some _ ↦ expire n s ]

unfoldable pub run : List (ℕ × Event) → State → State
run [] s = s
run (e ∷ es) s = run es (step e s)
