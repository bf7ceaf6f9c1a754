-- ===== src/Sync/Mutex/Misuse.antt =====
-- What the mutexes do for clients that break the rules.
use blank_sr.Base.{
  ℕ, ◌≡◌, ◌≢◌, ◌+◌, ◌∙◌, String, List, [], ◌∷◌, ◌++◌, some, arith, string_eq, nat_eq,
}
use blank_sr.Base.Map.{lookup}
use blank_sr.Sync.Mutex.{State, done, panics, ids, fill, lock, unlock_id, unlock_for_owner}
use blank_sr.Sync.Mutex.Clients.{Clients, Request, Reach, idle, about}
use blank_sr.Sync.Mutex.Exclusion.{Reach-Inv}
use blank_sr.Sync.Mutex.Grants.{All-middle}
use blank_sr.Sync.Mutex.Drains.{Distinct, Ready, drained-channels}
use blank_sr.Sync.Mutex.Disconnects.{closed, unlock_for_owner-eq-done}
use blank_sr.Sync.Mutex.Releases.{
  released, released-channels, released-lookup, released-ids, unlock_id-eq-done, held_locker,
  counter-held,
}

one-Ready :
    (id : String) (p : ℕ) (s : State)
    → lookup id s.lockers ≡ some p
    → s.channels p ≢ 0
    → Ready (id ∷ []) s
one-Ready id p s e h j = (ground arith, λ k. (p, ground arith, h))

closed-channels :
    (o id : String) (p : ℕ) (s : State)
    → Distinct s
    → ids o s.owners ≡ id ∷ []
    → Ready (id ∷ []) s
    → lookup id s.lockers ≡ some p
    → (closed o s).channels p ≡ 0
unfolding closed nat_eq
closed-channels o id p s d only ready e =
    rw only (drained-channels (id ∷ []) s d ready id p e ∙ ground arith)

-- Among clients that kept to the rules so far, one that disconnects while it waits for its one
-- mutex, which another one holds, takes the holder's lock away: its
-- `UnlockForOwner` returns with the channel empty, so its own pending `lock` gets through although
-- the mutex is still held.
pub waiter_disconnects :
    {y : Clients} (before after : List Request) (r : Request)
    → Reach idle y
    → y.waiting ≡ before ++ (r ∷ after)
    → about r.id y.held ≡ 1
    → ids r.owner y.store.owners ≡ r.id ∷ []
    → (s : State) × (t : State) × (unlock_for_owner r.owner y.store ≡ done s)
      × (lock r.at s ≡ some t)
unfolding lock nat_eq
waiter_disconnects {y} before after r reach waits held only =
    let v = Reach-Inv reach in
    let found = (All-middle _ before after r (rw waits at v.waits)).0 in
    let full : y.store.channels r.at ≡ 1 = v.filled r.id r.at found ∙ held in
    let ready = one-Ready r.id r.at y.store found (omega arith) in
    let s = closed r.owner y.store in
    let free : s.channels r.at ≡ 0 =
      closed-channels r.owner r.id r.at y.store v.distinct only ready found in
    (
      s,
      record s { channels = fill s.channels r.at 1 },
      unlock_for_owner-eq-done r.owner y.store v.distinct (rw only ready),
      ground arith,
    )

-- Among clients that kept to the rules so far, a call of `Unlock` by anyone, holder or not, returns
-- and empties the channel of a mutex that is held.
pub unlock_by_anyone :
    {y : Clients} (before after : List Request) (r : Request) (o : String)
    → Reach idle y
    → y.held ≡ before ++ (r ∷ after)
    → (p : ℕ) × (s : State) × (lookup r.id y.store.lockers ≡ some p)
      × (unlock_id o r.id y.store ≡ done s)
      × (s.channels p ≡ 0)
unlock_by_anyone {y} before after r o reach holds =
    let v = Reach-Inv reach in
    let (p, at, full) = held_locker y v before after r holds in
    let c = counter-held y v before after r holds in
    (
      p,
      released o r.id p y.store,
      at,
      unlock_id-eq-done o r.id p y.store at full,
      rw (released-channels o r.id p y.store _ c p) (ground arith),
    )

-- Among clients that kept to the rules so far, if another client unlocks a held mutex that nobody
-- waits for, and its holder then disconnects
-- with that mutex first in its list, `UnlockForOwner` reads a field of a nil locker and panics.
pub foreign_unlock_panics :
    {y : Clients} (before after : List Request) (r : Request) (o : String) (rest : List String)
    → Reach idle y
    → y.held ≡ before ++ (r ∷ after)
    → about r.id (before ++ after) + about r.id y.waiting ≡ 0
    → o ≢ r.owner
    → ids r.owner y.store.owners ≡ r.id ∷ rest
    → (s : State) × (unlock_id o r.id y.store ≡ done s) × (unlock_for_owner r.owner s ≡ panics s)
unfolding unlock_for_owner nat_eq
foreign_unlock_panics {y} before after r o rest reach holds alone other first =
    let v = Reach-Inv reach in
    let (p, at, full) = held_locker y v before after r holds in
    let c = counter-held y v before after r holds in
    let s = released o r.id p y.store in
    (
      s,
      unlock_id-eq-done o r.id p y.store at full,
      ground (
        arith,
        released-lookup o r.id p y.store _ c r.id,
        released-ids o r.id p y.store _ c r.owner,
      ),
    )
