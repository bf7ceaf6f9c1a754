-- ===== src/Sync/Once/Laws.antt =====
-- One caller in a minute, and another one after it.
use blank_sr.Base.{
  ℕ, suc, ap, ◌∙◌, ◌+◌, ◌≤◌, ◌<◌, ◌≡◌, ◌⊎◌, refl, leb, Bool-cases, String, none, some, List, [],
  ◌∷◌, ◌==◌, if◌then◌else◌, arith, string_eq, All, All-get_elem?, All-remove_at, count_if,
  count_if-remove_at, get_elem?, Option-cases, inl, inr,
}
use blank_sr.Base.Map.{lookup, lookup-insert, lookup-erase}
use blank_sr.Sync.Once.{
  Timer, State, start, executed, ttl, once, make_oncer, expire, Event, calls, fires, step, run,
}

abbrev present : String → State → ℕ
present id s = elim (lookup id s.oncers) [ none ↦ 0 | some _ ↦ 1 ]

-- Each id that is blocked has one pending timer, and no other id has any.
abbrev pub Inv : State → Type 0
Inv s = (id : String) → count_if (λ (t : Timer). t.id == id) s.timers ≡ present id s

once-Inv : (id : String) (now : ℕ) (s : State) → Inv s → Inv (once id now s).1
unfolding once
once-Inv id now s v i = ground (arith, v i, v id, lookup-insert id i tt s.oncers)

expire-Inv : (n : ℕ) (s : State) → Inv s → Inv (expire n s)
unfolding expire
expire-Inv n s v i = elim (Option-cases (get_elem? s.timers n)) [
  | inl e ↦ ground (arith, v i)
  | inr (t, e) ↦ ground (
    arith,
    v i,
    v t.id,
    lookup-erase t.id i s.oncers,
    count_if-remove_at (λ (x : Timer). x.id == i) s.timers n t e,
  )
]

expire-frees :
    {id : String} (n : ℕ) (t : Timer) (s : State)
    → get_elem? s.timers n ≡ some t
    → t.id ≡ id
    → present id (expire n s) ≡ 0
unfolding expire
expire-frees {id} n t s at same = ground (arith, lookup-erase t.id id s.oncers)

fires_cases :
    (now n : ℕ) (s : State)
    → (step (now, fires n) s ≡ s)
      ⊎ ((t : Timer) × (get_elem? s.timers n ≡ some t)
          × (t.due ≤ now)
          × (step (now, fires n) s ≡ expire n s))
unfolding step
fires_cases now n s = elim (Option-cases (get_elem? s.timers n)) [
  | inl e ↦ inl (ground (arith, e))
  | inr (t, e) ↦ elim (Bool-cases (leb t.due now)) [
    | inl early ↦ inr (t, e, ground arith, ground arith)
    | inr late ↦ inl (ground arith)
  ]
]

step-Inv : (e : ℕ × Event) (s : State) → Inv s → Inv (step e s)
unfolding step
step-Inv (now, calls id) s v = once-Inv id now s v
step-Inv (now, fires n) s v = elim (fires_cases now n s) [
  | inl same ↦ rw same v
  | inr (t, e, due, fired) ↦ rw fired (expire-Inv n s v)
]

pub run-Inv : (es : List (ℕ × Event)) (s : State) → Inv s → Inv (run es s)
unfolding run
run-Inv [] s v = v
run-Inv (e ∷ es) s v = run-Inv es (step e s) (step-Inv e s v)

once_free :
    (id : String) (now : ℕ) (s : State)
    → present id s ≡ 0
    → once id now s ≡ (none, make_oncer id now s)
unfolding once
once_free id now s h = ground arith

once_busy :
    (id : String) (now : ℕ) (s : State) → present id s ≡ 1 → once id now s ≡ (some executed, s)
unfolding once
once_busy id now s h = ground arith

present-cases : (id : String) (s : State) → (present id s ≡ 0) ⊎ (present id s ≡ 1)
present-cases id s = ground arith

present-make_oncer :
    (id : String) (now : ℕ) (s : State) (i : String)
    → present i (make_oncer id now s) ≡ (if id == i then 1 else present i s)
unfolding make_oncer
present-make_oncer id now s i = ground (arith, lookup-insert id i tt s.oncers)

-- The id is blocked, and no timer of it is due before `until`.
record Blocked (id : String) (until : ℕ) (s : State) : Type 0 where
  entry : present id s ≡ 1
  timed : All (λ (t : Timer). t.id ≡ id → until ≤ t.due) s.timers

unblocked_timers :
    (id : String) (until : ℕ) (ts : List Timer)
    → count_if (λ (t : Timer). t.id == id) ts ≡ 0
    → All (λ (t : Timer). t.id ≡ id → until ≤ t.due) ts
unblocked_timers id until [] h = tt
unblocked_timers id until (t ∷ ts) h =
    (λ e. ground arith, unblocked_timers id until ts (ground arith))

once-Blocked :
    (id : String) (now : ℕ) (s : State)
    → Inv s
    → (once id now s).0 ≡ none
    → Blocked id (now + ttl) (once id now s).1
unfolding make_oncer
once-Blocked id now s v h = elim (present-cases id s) [
  | inl free ↦
      let old = unblocked_timers id (now + ttl) s.timers (v id ∙ free) in
      rw (once_free id now s free) (record {
        entry = ground (arith, present-make_oncer id now s id);
        timed = (λ i. omega arith, old);
      })
  | inr busy ↦ ground (arith, once_busy id now s busy)
]

calls-Blocked :
    (id : String) (until : ℕ) (i : String) (now : ℕ) (s : State)
    → Blocked id until s
    → Blocked id until (once i now s).1
unfolding make_oncer
calls-Blocked id until i now s b = elim (present-cases i s) [
  | inl free ↦ rw (once_free i now s free) (record {
    entry = ground (arith, present-make_oncer i now s id, b.entry);
    timed = (λ e. absurd (other e free), b.timed);
  })
  | inr busy ↦ rw (once_busy i now s busy) b
]
  where
    other : i ≡ id → present i s ≡ 0 → ⊥
    other e free = ground (arith, b.entry)

fires-Blocked :
    (id : String) (until now n : ℕ) (t : Timer) (s : State)
    → now < until
    → t.due ≤ now
    → get_elem? s.timers n ≡ some t
    → Blocked id until s
    → Blocked id until (expire n s)
unfolding expire
fires-Blocked id until now n t s h due e b =
    let own : t.id ≡ id → until ≤ t.due = All-get_elem? _ s.timers n t b.timed e in
    let rest = All-remove_at _ s.timers n b.timed in
    record {
      entry = ground (arith, b.entry, own, lookup-erase t.id id s.oncers);
      timed = rw (e, expire) rest;
    }

step-Blocked :
    (id : String) (until : ℕ) (e : ℕ × Event) (s : State)
    → e.0 < until
    → Blocked id until s
    → Blocked id until (step e s)
unfolding step
step-Blocked id until (now, calls i) s h b = calls-Blocked id until i now s b
step-Blocked id until (now, fires n) s h b = elim (fires_cases now n s) [
  | inl same ↦ rw same b
  | inr (t, e, due, fired) ↦ rw fired (fires-Blocked id until now n t s h due e b)
]

run-Blocked :
    (id : String) (until : ℕ) (es : List (ℕ × Event)) (s : State)
    → All (λ (e : ℕ × Event). e.0 < until) es
    → Blocked id until s
    → Blocked id until (run es s)
unfolding run
run-Blocked id until [] s h b = b
run-Blocked id until (e ∷ es) s h b =
    run-Blocked id until es (step e s) h.1 (step-Blocked id until e s h.0 b)

start-Inv : Inv start
unfolding lookup
start-Inv id = refl

-- After any history, if `Once` returns nil for an id, then every later call for that id gets
-- `errExecuted`, whatever else is called and whichever timers fire, until a minute has passed.
pub once_per_ttl :
    (id : String) (now later : ℕ) (before between : List (ℕ × Event))
    → (once id now (run before start)).0 ≡ none
    → All (λ (e : ℕ × Event). e.0 < now + ttl) between
    → (once id later (run between (once id now (run before start)).1)).0 ≡ some executed
once_per_ttl id now later before between h quiet =
    let v = run-Inv before start start-Inv in
    let b = once-Blocked id now (run before start) v h in
    ap (λ r. r.0) (once_busy id later _ (run-Blocked id (now + ttl) between _ quiet b).entry)

find_timer :
    (id : String) (ts : List Timer)
    → count_if (λ (t : Timer). t.id == id) ts ≡ 1
    → (n : ℕ) × (t : Timer) × (get_elem? ts n ≡ some t) × (t.id ≡ id)
find_timer id [] h = absurd (omega arith)
find_timer id (t ∷ ts) h = elim (string_eq.dec t.id id) [
  | yes e ↦ (0, t, refl, e)
  | no e ↦ let (n, u, at, same) = find_timer id ts (ground arith) in (suc n, u, at, same)
]

-- After any history, an id for which `Once` returns `errExecuted` has a pending timer, and when
-- that has fired the next call for the id returns nil.
pub once_again :
    (id : String) (now later : ℕ) (before : List (ℕ × Event))
    → (once id now (run before start)).0 ≡ some executed
    → (n : ℕ) × (t : Timer) × (get_elem? (run before start).timers n ≡ some t)
      × (t.id ≡ id)
      × ((once id later (expire n (run before start))).0 ≡ none)
once_again id now later before h =
    let s = run before start in
    let v = run-Inv before start start-Inv in
    let busy : present id s ≡ 1 = elim (present-cases id s) [
      | inl free ↦ ground (arith, once_free id now s free)
      | inr busy ↦ busy
    ] in
    let (n, t, at, same) = find_timer id s.timers (v id ∙ busy) in
    let freed : present id (expire n s) ≡ 0 = expire-frees n t s at same in
    (n, t, at, same, ap (λ r. r.0) (once_free id later (expire n s) freed))
