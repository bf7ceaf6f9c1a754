-- ===== src/Sync/Mutex/Drains.antt =====
-- The loop of `UnlockForOwner` over the owner's list.
use blank_sr.Base.{
  ℕ, ◌+◌, ◌≤◌, ◌≡◌, ◌≢◌, refl, ap, ◌∙◌, String, some, List, [], ◌∷◌, count, string_eq, nat_eq,
  arith, ◌==◌, if◌then◌else◌, or_else,
}
use blank_sr.Base.Map.{lookup, insert, lookup-insert}
use blank_sr.Base.Int.{pos, dec}
use blank_sr.Sync.Mutex.{State, counter, fill, done, release_one, release_all}

-- The state after one round: the locker's channel is empty, and the counter is down by one.
pub drained_one : String → State → State
drained_one id s = record s {
  channels = fill s.channels (or_else (lookup id s.lockers) 0) 0;
  counters = insert id (dec (counter id s)) s.counters;
}

unfoldable pub drained : List String → State → State
drained [] s = s
drained (id ∷ rest) s = drained rest (drained_one id s)

-- Two ids never share a locker.
abbrev pub Distinct : State → Type 0
Distinct s =
    (i j : String) (p : ℕ) → lookup i s.lockers ≡ some p → lookup j s.lockers ≡ some p → i ≡ j

-- The id has a locker and it is locked.
abbrev pub IsLocked : String → State → Type 0
IsLocked id s = (p : ℕ) × (lookup id s.lockers ≡ some p) × (s.channels p ≢ 0)

drained_one-counter :
    (id : String) (s : State) (j : String)
    → counter j (drained_one id s) ≡ (if id == j then dec (counter id s) else counter j s)
unfolding drained_one
drained_one-counter id s j = ground (arith, lookup-insert id j (dec (counter id s)) s.counters)

drained_one-channels :
    (id : String) (s : State)
    → Distinct s
    → IsLocked id s
    → (j : String) (p : ℕ) → lookup j s.lockers ≡ some p
    → (drained_one id s).channels p ≡ (if id == j then 0 else s.channels p)
unfolding drained_one
drained_one-channels id s d (q, e, h) j p k = ground (arith, d id j p, e)

drained_one-lockers : (id : String) (s : State) → (drained_one id s).lockers ≡ s.lockers
unfolding drained_one
drained_one-lockers id s = refl

pub drained-same :
    (l : List String) (s : State)
    → ((drained l s).lockers ≡ s.lockers)
      × ((drained l s).fresh ≡ s.fresh)
      × ((drained l s).owners ≡ s.owners)
unfolding drained drained_one
drained-same [] s = (refl, refl, refl)
drained-same (id ∷ rest) s = drained-same rest (drained_one id s)

pub drained-counter :
    (l : List String) (s : State) (j : String) (n : ℕ)
    → counter j s ≡ pos (n + count j l)
    → counter j (drained l s) ≡ pos n
unfolding drained
drained-counter [] s j n h = h ∙ ap pos (omega arith)
drained-counter (id ∷ rest) s j n h =
    drained-counter rest (drained_one id s) j n (drained_one-counter id s j ∙ ground (arith, h))

module _ (l : List String) where
  abbrev pub Ready : State → Type 0
  Ready s = (j : String) → (count j l ≤ 1) × (1 ≤ count j l → IsLocked j s)

Ready-next :
    (id : String) (rest : List String) (s : State)
    → Distinct s
    → Ready (id ∷ rest) s
    → Ready rest (drained_one id s)
Ready-next id rest s d r j = (
  omega (arith, (r j).0),
  λ h.
      let (p, e, full) = (r j).1 (omega arith) in
      (
        p,
        rw (drained_one-lockers id s) e,
        rw (drained_one-channels id s d ((r id).1 (ground arith)) j p e) (ground (arith, (r id).0)),
      ),
)

pub drained-channels :
    (l : List String) (s : State)
    → Distinct s
    → Ready l s
    → (j : String) (p : ℕ) → lookup j s.lockers ≡ some p
    → (drained l s).channels p ≡ (if count j l == 0 then s.channels p else 0)
unfolding drained nat_eq
drained-channels [] s d r j p h = refl
drained-channels (id ∷ rest) s d r j p h =
    drained-channels rest (drained_one id s) (rw (drained_one-lockers id s) d)
      (Ready-next id rest s d r) j p (rw (drained_one-lockers id s) h)
    ∙ ground (arith, drained_one-channels id s d ((r id).1 (ground arith)) j p h, (r j).0)

release_one-eq-done :
    (id : String) (s : State) → IsLocked id s → release_one id s ≡ done (drained_one id s)
unfolding release_one drained_one nat_eq
release_one-eq-done id s (p, e, h) = ground arith

pub release_all-eq-done :
    (l : List String) (s : State) → Distinct s → Ready l s → release_all l s ≡ done (drained l s)
unfolding release_all drained
release_all-eq-done [] s d r = refl
release_all-eq-done (id ∷ rest) s d r = rw (release_one-eq-done id s ((r id).1 (ground arith))) (
    release_all-eq-done rest (drained_one id s) (rw (drained_one-lockers id s) d)
      (Ready-next id rest s d r))
