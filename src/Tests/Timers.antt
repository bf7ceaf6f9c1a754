-- ===== src/Tests/Timers.antt =====
-- sync/once.go: two calls for an id.
use blank_sr.Base.{ℕ, ◌≡◌, refl, List, [], ◌∷◌, none, some, arith, get_elem?, string_eq}
use blank_sr.Base.Map.{lookup, insert}
use blank_sr.Sync.Once.{Timer, start, executed, once, expire, Event, calls, fires, run, step}
use blank_sr.Sync.Once.Laws.{once_per_ttl, once_again}

-- A caller for another id, and one for the same id.
abbrev traffic : List (ℕ × Event)
traffic = (7, calls "b") ∷ (8, fires 0) ∷ (9, calls "a") ∷ []

first_call : (once "a" 5 (run [] start)).0 ≡ none
unfolding once run lookup
first_call = refl

once_per_ttl_example : (once "a" 10 (run traffic (once "a" 5 (run [] start)).1)).0 ≡ some executed
once_per_ttl_example =
    once_per_ttl "a" 5 10 [] traffic first_call (omega arith, (omega arith, (omega arith, tt)))

abbrev called : List (ℕ × Event)
called = (5, calls "a") ∷ []

second_call : (once "a" 6 (run called start)).0 ≡ some executed
unfolding once run step lookup insert string_eq
second_call = refl

once_again_example :
    (n : ℕ) × (t : Timer) × (get_elem? (run called start).timers n ≡ some t)
    × (t.id ≡ "a")
    × ((once "a" 70 (expire n (run called start))).0 ≡ none)
once_again_example = once_again "a" 6 70 called second_call
