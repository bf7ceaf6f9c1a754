-- ===== src/Sync/Mutex/Exclusion.antt =====
-- Clients that keep to the rules exclude one another, and none of their calls hangs or panics.
use blank_sr.Base.{
  ◌≤◌, ◌≡◌, ◌==◌, if◌then◌else◌, sym, ◌∙◌, subst, refl, String, List, ◌∷◌, ◌++◌, none, some, arith,
  string_eq, nat_eq,
}
use blank_sr.Base.Map.{lookup}
use blank_sr.Sync.Mutex.{State, done, fill, lock, unlock_id, unlock_for_owner}
use blank_sr.Sync.Mutex.Clients.{
  Clients, Request, Step, requests, locks, unlocks, disconnects, Reach, here, next, idle, about, by,
  drop_owner,
}
use blank_sr.Sync.Mutex.Invariant.{Inv}
use blank_sr.Sync.Mutex.Requests.{request-Inv}
use blank_sr.Sync.Mutex.Grants.{lock-Inv, All-middle}
use blank_sr.Sync.Mutex.Releases.{released, unlock_id-eq-done, held_locker, released-Inv}
use blank_sr.Sync.Mutex.Disconnects.{
  closed, unlock_for_owner-eq-done, owner-Ready, closed-Inv, GivenBack, closed-GivenBack,
}

idle-Inv : Inv idle
unfolding lookup nat_eq
idle-Inv = record {
  exclusive = λ i. omega arith;
  counted = λ i. refl;
  absent = λ i h. refl;
  filled = λ i p h. cc;
  allocated = λ i p h. cc;
  distinct = λ i j p h k. cc;
  waits = tt;
  listed = λ o i. refl;
  single = λ o i. omega arith;
}

done-injective : {s t : State} → done s ≡ done t → s ≡ t
done-injective h = cc

-- Every step keeps the invariant.
pub Step-Inv : {y z : Clients} → Step y z → Inv y → Inv z
Step-Inv (requests y o i new) v = request-Inv y v o i new
Step-Inv (locks y before after r s waits locked) v = lock-Inv y v before after r waits s locked
Step-Inv (unlocks y before after r s holds e) v =
    let (p, at, full) = held_locker y v before after r holds in
    subst (λ t. Inv (record y { store = t; held = before ++ after }))
      (done-injective (sym (unlock_id-eq-done r.owner r.id p y.store at full) ∙ e))
      (released-Inv y v before after r holds p at)
Step-Inv (disconnects y o s active e) v =
    subst (λ t. Inv (record y { store = t; held = drop_owner o y.held }))
      (done-injective
        (sym (unlock_for_owner-eq-done o y.store v.distinct (owner-Ready y v o active)) ∙ e))
      (closed-Inv y v o active)

pub Reach-Inv : {y : Clients} → Reach idle y → Inv y
Reach-Inv here = idle-Inv
Reach-Inv (next r st) = Step-Inv st (Reach-Inv r)

-- However the clients' calls interleave, at most one call of `Lock` for a mutex has returned and is
-- not yet unlocked, as long as nobody asks twice for a mutex, only holders unlock, and nobody
-- disconnects while it waits.
pub exclusion : {y : Clients} → Reach idle y → (i : String) → about i y.held ≤ 1
exclusion r i = (Reach-Inv r).exclusive i

-- For clients that ask at most once for a mutex, unlock only what they hold and do not disconnect
-- while they wait, a call of `Lock` that waits gets through `lock`, and fills its channel, when
-- nobody holds its mutex, and goes on waiting when somebody does: no wakeup is lost and no holder
-- is overtaken.
pub lock_when_free :
    {y : Clients} (before after : List Request) (r : Request)
    → Reach idle y
    → y.waiting ≡ before ++ (r ∷ after)
    → lock r.at y.store ≡ (
        if about r.id y.held == 0
        then some (record y.store { channels = fill y.store.channels r.at 1 })
        else none)
unfolding lock nat_eq
lock_when_free {y} before after r reach waits =
    let v = Reach-Inv reach in
    let found = (All-middle _ before after r (rw waits at v.waits)).0 in
    rw (v.filled r.id r.at found) refl

-- For clients that ask at most once for a mutex, unlock only what they hold and do not disconnect
-- while they wait, `Unlock` by a holder returns, and the history goes on from there.
pub unlock_returns :
    {y : Clients} (before after : List Request) (r : Request)
    → Reach idle y
    → y.held ≡ before ++ (r ∷ after)
    → (s : State) × (unlock_id r.owner r.id y.store ≡ done s)
      × Reach idle (record y { store = s; held = before ++ after })
unlock_returns {y} before after r reach holds =
    let (p, at, full) = held_locker y (Reach-Inv reach) before after r holds in
    let e = unlock_id-eq-done r.owner r.id p y.store at full in
    (released r.owner r.id p y.store, e, next reach (unlocks y before after r _ holds e))

-- For clients that ask at most once for a mutex, unlock only what they hold and do not disconnect
-- while they wait, `UnlockForOwner` returns for every client that does not wait, whatever it
-- holds. It empties the channel of each mutex that the client holds, lowers that mutex's counter by
-- one, and forgets the client's list; the other channels, counters and lists stay.
pub unlock_for_owner_returns :
    {y : Clients} (o : String)
    → Reach idle y
    → by o y.waiting ≡ 0
    → (s : State) × (unlock_for_owner o y.store ≡ done s)
      × GivenBack o y.held y.store s
      × Reach idle (record y { store = s; held = drop_owner o y.held })
unlock_for_owner_returns {y} o reach active =
    let v = Reach-Inv reach in
    let e = unlock_for_owner-eq-done o y.store v.distinct (owner-Ready y v o active) in
    (closed o y.store, e, closed-GivenBack y v o active, next reach (disconnects y o _ active e))
