-- ===== src/Sync/Mutex/Releases.antt =====
-- `Unlock` by a holder.
use blank_sr.Base.{
  ℕ, suc, ◌+◌, ◌≤◌, ◌<◌, ◌≡◌, ◌≢◌, ap, ◌∙◌, String, none, some, [], ◌∷◌, ◌++◌, count, without,
  string_eq, nat_eq, All, List, arith, ◌==◌, ◌&&◌, if◌then◌else◌, length, Option-cases, inl, inr,
  count-without,
}
use blank_sr.Base.Map.{lookup, lookup-insert, lookup-erase}
use blank_sr.Base.Int.{pos}
use blank_sr.Sync.Mutex.{State, ids, counter, forget, fill, done, unlock_id, release_counter}
use blank_sr.Sync.Mutex.Clients.{Clients, Request, about, about_by}
use blank_sr.Sync.Mutex.Grants.{count_if-middle}
use blank_sr.Sync.Mutex.Invariant.{Inv}
use blank_sr.Sync.Mutex.Owners.{ids-forget}

-- The state after `Unlock` of a mutex whose locker stands at `p` and is locked.
pub released : String → String → ℕ → State → State
released owner id p s =
    let u = release_counter id (record s { channels = fill s.channels p 0 }) in
    record u { owners = forget (length (ids owner u.owners)) owner id u.owners }

pub unlock_id-eq-done :
    (owner id : String) (p : ℕ) (s : State)
    → lookup id s.lockers ≡ some p
    → s.channels p ≢ 0
    → unlock_id owner id s ≡ done (released owner id p s)
unfolding unlock_id released nat_eq
unlock_id-eq-done owner id p s e h = ground arith

module _ (owner id : String) (p : ℕ) (s : State) (n : ℕ)
    (counted : counter id s ≡ pos (suc n)) where
  pub released-channels :
      (q : ℕ) → (released owner id p s).channels q ≡ (if q == p then 0 else s.channels q)
  unfolding released release_counter
  released-channels q = ground arith

  released-fresh : (released owner id p s).fresh ≡ s.fresh
  unfolding released release_counter
  released-fresh = ground arith

  pub released-lookup :
      (j : String)
      → lookup j (released owner id p s).lockers
        ≡ (if id == j && n == 0 then none else lookup j s.lockers)
  unfolding released release_counter nat_eq
  released-lookup j = ground (arith, lookup-erase id j s.lockers)

  released-counter :
      (j : String) → counter j (released owner id p s) ≡ (if id == j then pos n else counter j s)
  unfolding released release_counter
  released-counter j =
      ground (arith, lookup-erase id j s.counters, lookup-insert id j (pos n) s.counters)

  pub released-ids :
      (o : String)
      → ids o (released owner id p s).owners
        ≡ (if owner == o then without id (ids owner s.owners) else ids o s.owners)
  unfolding released release_counter
  released-ids o = ground (arith, ids-forget owner id s.owners o)

module _ (y : Clients) (v : Inv y) (before after : List Request) (r : Request)
    (holds : y.held ≡ before ++ (r ∷ after)) where
  abbrev rest : List Request
  rest = before ++ after

  abbrev left : ℕ
  left = about r.id rest + about r.id y.waiting

  about-held : (j : String) → about j y.held ≡ (if r.id == j then 1 else 0) + about j rest
  about-held j = rw holds (count_if-middle (λ x. x.id == j) before after r)

  about_by-held :
      (o j : String)
      → about_by o j y.held ≡ (if r.owner == o && r.id == j then 1 else 0) + about_by o j rest
  about_by-held o j = rw holds (count_if-middle (λ x. x.owner == o && x.id == j) before after r)

  once : about r.id y.held ≡ suc (about r.id rest)
  once = ground (arith, about-held r.id)

  -- The locker of a mutex that is held is in the map, and its channel is full.
  pub held_locker : (p : ℕ) × (lookup r.id y.store.lockers ≡ some p) × (y.store.channels p ≢ 0)
  held_locker = elim (Option-cases (lookup r.id y.store.lockers)) [
    | inl e ↦ absurd (omega (arith, v.absent r.id e, once))
    | inr (p, e) ↦ (p, e, omega (arith, v.filled r.id p e, once))
  ]

  pub counter-held : counter r.id y.store ≡ pos (suc left)
  counter-held = v.counted r.id ∙ ap pos (omega (arith, once))

  module _ (p : ℕ) (at : lookup r.id y.store.lockers ≡ some p) where
    abbrev s' : State
    s' = released r.owner r.id p y.store

    exclusive : (j : String) → about j rest ≤ 1
    exclusive j = ground (arith, v.exclusive j, about-held j)

    counted : (j : String) → counter j s' ≡ pos (about j rest + about j y.waiting)
    counted j =
        rw (released-counter r.owner r.id p y.store left counter-held j)
          (ground (arith, v.counted j, about-held j))

    absent : (j : String) → lookup j s'.lockers ≡ none → about j rest + about j y.waiting ≡ 0
    unfolding nat_eq
    absent j h = ground (
      arith,
      v.absent j,
      about-held j,
      released-lookup r.owner r.id p y.store left counter-held j,
    )

    filled : (j : String) (q : ℕ) → lookup j s'.lockers ≡ some q → s'.channels q ≡ about j rest
    filled j q h = rw (released-channels r.owner r.id p y.store left counter-held q) (
        ground (
          arith,
          v.filled j q,
          about-held j,
          v.distinct j r.id q,
          v.exclusive r.id,
          released-lookup r.owner r.id p y.store left counter-held j,
        ))

    allocated : (j : String) (q : ℕ) → lookup j s'.lockers ≡ some q → q < s'.fresh
    allocated j q h = rw (released-fresh r.owner r.id p y.store left counter-held) (
        ground (arith, v.allocated j q, released-lookup r.owner r.id p y.store left counter-held j))

    distinct :
        (j k : String) (q : ℕ) → lookup j s'.lockers ≡ some q → lookup k s'.lockers ≡ some q → j ≡ k
    distinct j k q h h' = ground (
      arith,
      v.distinct j k q,
      released-lookup r.owner r.id p y.store left counter-held j,
      released-lookup r.owner r.id p y.store left counter-held k,
    )

    waits_on :
        (xs : List Request)
        → about r.id xs ≤ left
        → All (λ x. lookup x.id y.store.lockers ≡ some x.at) xs
        → All (λ x. lookup x.id s'.lockers ≡ some x.at) xs
    unfolding nat_eq
    waits_on [] h a = tt
    waits_on (x ∷ xs) h a = (
      ground (arith, a.0, released-lookup r.owner r.id p y.store left counter-held x.id),
      waits_on xs (omega arith) a.1,
    )

    listed : (o j : String) → count j (ids o s'.owners) ≡ about_by o j rest + about_by o j y.waiting
    listed o j = rw (released-ids r.owner r.id p y.store left counter-held o) (
        ground (
          arith,
          v.listed o j,
          v.single o j,
          about_by-held o j,
          count-without r.id j (ids r.owner y.store.owners),
        ))

    single : (o j : String) → about_by o j rest + about_by o j y.waiting ≤ 1
    single o j = ground (arith, v.single o j, about_by-held o j)

    pub released-Inv : Inv (record y { store = s'; held = rest })
    released-Inv = record {
      exclusive = exclusive;
      counted = counted;
      absent = absent;
      filled = filled;
      allocated = allocated;
      distinct = distinct;
      waits = waits_on y.waiting (omega arith) v.waits;
      listed = listed;
      single = single;
    }
