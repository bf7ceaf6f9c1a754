-- ===== src/Sync/Mutex/Grants.antt =====
-- A goroutine that waits in `lock` gets into the channel.
use blank_sr.Base.{
  ℕ, ◌+◌, ◌≤◌, ◌≡◌, refl, String, none, some, [], ◌∷◌, ◌++◌, count, string_eq, nat_eq, All, List,
  arith, ◌==◌, if◌then◌else◌, Bool, ◌&&◌, count_if,
}
use blank_sr.Base.Map.{lookup}
use blank_sr.Base.Int.{pos}
use blank_sr.Sync.Mutex.{State, ids, counter, lock}
use blank_sr.Sync.Mutex.Clients.{Clients, Request, about, about_by}
use blank_sr.Sync.Mutex.Invariant.{Inv}

-- Taking one call out of a list.
pub count_if-middle :
    (t : Request → Bool) (before after : List Request) (r : Request)
    → count_if t (before ++ (r ∷ after)) ≡ (if t r then 1 else 0) + count_if t (before ++ after)
count_if-middle t [] after r = refl
count_if-middle t (x ∷ before) after r = omega (arith, count_if-middle t before after r)

pub All-middle :
    (P : Request → Type 0) (before after : List Request) (r : Request)
    → All P (before ++ (r ∷ after))
    → P r × All P (before ++ after)
All-middle P [] after r h = h
All-middle P (x ∷ before) after r h =
    let rest = All-middle P before after r h.1 in (rest.0, (h.0, rest.1))

module _ (y : Clients) (v : Inv y) (before after : List Request) (r : Request)
    (waits : y.waiting ≡ before ++ (r ∷ after)) (s : State)
    (locked : lock r.at y.store ≡ some s) where
  about-before :
      (j : String) → about j y.waiting ≡ (if r.id == j then 1 else 0) + about j (before ++ after)
  about-before j = rw waits (count_if-middle (λ x. x.id == j) before after r)

  about_by-before :
      (o j : String)
      → about_by o j y.waiting
        ≡ (if r.owner == o && r.id == j then 1 else 0) + about_by o j (before ++ after)
  about_by-before o j = rw waits (count_if-middle (λ x. x.owner == o && x.id == j) before after r)

  found :
      (lookup r.id y.store.lockers ≡ some r.at)
      × All (λ (x : Request). lookup x.id y.store.lockers ≡ some x.at) (before ++ after)
  found = All-middle _ before after r (rw waits at v.waits)

  -- Of the state only the channel of the request's locker changes: from empty to full.
  same :
      (s.lockers ≡ y.store.lockers)
      × (s.fresh ≡ y.store.fresh)
      × (s.owners ≡ y.store.owners)
      × (s.counters ≡ y.store.counters)
      × (y.store.channels r.at ≡ 0)
  unfolding lock
  same = ground arith

  channels : (q : ℕ) → s.channels q ≡ (if q == r.at then 1 else y.store.channels q)
  unfolding lock
  channels q = ground arith

  unheld : about r.id y.held ≡ 0
  unheld = ground (arith, v.filled r.id r.at, found.0, same)

  exclusive : (j : String) → about j (r ∷ y.held) ≤ 1
  exclusive j = ground (arith, v.exclusive j, unheld)

  counted : (j : String) → counter j s ≡ pos (about j (r ∷ y.held) + about j (before ++ after))
  counted j = rw (same.3) (ground (arith, v.counted j, about-before j))

  absent :
      (j : String)
      → lookup j s.lockers ≡ none
      → about j (r ∷ y.held) + about j (before ++ after) ≡ 0
  absent j h = ground (arith, v.absent j, about-before j, same)

  filled : (j : String) (p : ℕ) → lookup j s.lockers ≡ some p → s.channels p ≡ about j (r ∷ y.held)
  filled j p h =
      rw (channels p) (ground (arith, v.filled j p, unheld, found.0, v.distinct j r.id p, same.0))

  listed :
      (o j : String)
      → count j (ids o s.owners) ≡ about_by o j (r ∷ y.held) + about_by o j (before ++ after)
  listed o j = rw (same.2) (ground (arith, v.listed o j, about_by-before o j))

  single : (o j : String) → about_by o j (r ∷ y.held) + about_by o j (before ++ after) ≤ 1
  single o j = ground (arith, v.single o j, about_by-before o j)

  pub lock-Inv : Inv (record { store = s; waiting = before ++ after; held = r ∷ y.held })
  lock-Inv = record {
    exclusive = exclusive;
    counted = counted;
    absent = absent;
    filled = filled;
    allocated = rw (same.0, same.1) v.allocated;
    distinct = rw (same.0) v.distinct;
    waits = rw (same.0) (found.1);
    listed = listed;
    single = single;
  }
