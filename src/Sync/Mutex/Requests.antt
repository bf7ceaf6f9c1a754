-- ===== src/Sync/Mutex/Requests.antt =====
-- `Lock` up to the point where it waits.
use blank_sr.Base.{
  ℕ, suc, ◌+◌, ◌≤◌, ◌<◌, ◌≡◌, ◌⊎◌, String, none, some, [], ◌∷◌, ◌++◌, count, string_eq, nat_eq, All,
  List, arith, ◌==◌, if◌then◌else◌, Option-cases, inl, inr, count_if-append,
}
use blank_sr.Base.Map.{lookup, insert, lookup-insert}
use blank_sr.Base.Int.{pos, inc}
use blank_sr.Sync.Mutex.{State, ids, counter, request}
use blank_sr.Sync.Mutex.Clients.{Clients, Request, about, about_by}
use blank_sr.Sync.Mutex.Invariant.{Inv}

module _ (o i : String) (s : State) where
  request-counters : (request o i s).1.counters ≡ insert i (inc (counter i s)) s.counters
  unfolding request
  request-counters = ground arith

  request-owners : (request o i s).1.owners ≡ insert o (ids o s.owners ++ (i ∷ [])) s.owners
  unfolding request
  request-owners = ground arith

  request-lookup :
      (j : String)
      → lookup j (request o i s).1.lockers
        ≡ (if i == j then some (request o i s).0 else lookup j s.lockers)
  unfolding request
  request-lookup j = ground (arith, lookup-insert i j s.fresh s.lockers)

  -- Either the locker was there and nothing is allocated, or it is a new one.
  request_cases :
      ((lookup i s.lockers ≡ some (request o i s).0)
        × ((request o i s).1.channels ≡ s.channels)
        × ((request o i s).1.fresh ≡ s.fresh))
      ⊎ ((lookup i s.lockers ≡ none)
          × ((request o i s).0 ≡ s.fresh)
          × ((q : ℕ) → (request o i s).1.channels q ≡ (if q == s.fresh then 0 else s.channels q))
          × ((request o i s).1.fresh ≡ suc s.fresh))
  unfolding request
  request_cases = elim (Option-cases (lookup i s.lockers)) [
    | inl e ↦ inr (e, ground arith, λ q. ground arith, ground arith)
    | inr (p, e) ↦ inl (ground arith, ground arith, ground arith)
  ]

module _ (y : Clients) (v : Inv y) (o i : String)
    (new : about_by o i y.waiting + about_by o i y.held ≡ 0) where
  abbrev s' : State
  s' = (request o i y.store).1

  abbrev p' : ℕ
  p' = (request o i y.store).0

  abbrev waiting' : List Request
  waiting' = record { owner = o; id = i; at = p' } ∷ y.waiting

  counted : (j : String) → counter j s' ≡ pos (about j y.held + about j waiting')
  counted j =
      rw (request-counters o i y.store, lookup-insert) (ground (arith, v.counted j, v.counted i))

  absent : (j : String) → lookup j s'.lockers ≡ none → about j y.held + about j waiting' ≡ 0
  absent j h = ground (arith, v.absent j, request-lookup o i y.store j)

  filled : (j : String) (p : ℕ) → lookup j s'.lockers ≡ some p → s'.channels p ≡ about j y.held
  filled j p h = elim (request_cases o i y.store) [
    | inl (e, c, f) ↦ rw c (ground (arith, v.filled j p, request-lookup o i y.store j))
    | inr (e, a, c, f) ↦
        rw (c p)
          (ground (arith, v.filled j p, v.absent j, v.allocated j p, request-lookup o i y.store j))
  ]

  allocated : (j : String) (p : ℕ) → lookup j s'.lockers ≡ some p → p < s'.fresh
  allocated j p h =
      ground (arith, request_cases o i y.store, v.allocated j p, request-lookup o i y.store j)

  distinct :
      (j k : String) (p : ℕ) → lookup j s'.lockers ≡ some p → lookup k s'.lockers ≡ some p → j ≡ k
  distinct j k p h h' = ground (
    arith,
    request_cases o i y.store,
    v.distinct j k p,
    v.allocated j p,
    v.allocated k p,
    request-lookup o i y.store j,
    request-lookup o i y.store k,
  )

  listed : (p j : String) → count j (ids p s'.owners) ≡ about_by p j y.held + about_by p j waiting'
  listed p j =
      rw (request-owners o i y.store, lookup-insert)
        (ground (
          arith,
          v.listed p j,
          v.listed o j,
          count_if-append (λ x. x == j) (ids o y.store.owners) (i ∷ []),
        ))

  single : (p j : String) → about_by p j y.held + about_by p j waiting' ≤ 1
  single p j = ground (arith, v.single p j)

  waits_on :
      (rs : List Request)
      → All (λ r. lookup r.id y.store.lockers ≡ some r.at) rs
      → All (λ r. lookup r.id s'.lockers ≡ some r.at) rs
  waits_on [] h = tt
  waits_on (r ∷ rs) h = (
    ground (arith, request_cases o i y.store, request-lookup o i y.store r.id, h.0),
    waits_on rs h.1,
  )

  pub request-Inv : Inv (record y { store = s'; waiting = waiting' })
  request-Inv = record {
    exclusive = v.exclusive;
    counted = counted;
    absent = absent;
    filled = filled;
    allocated = allocated;
    distinct = distinct;
    waits = (ground (arith, request-lookup o i y.store i), waits_on y.waiting v.waits);
    listed = listed;
    single = single;
  }
