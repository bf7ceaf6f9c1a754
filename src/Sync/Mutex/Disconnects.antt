-- ===== src/Sync/Mutex/Disconnects.antt =====
-- `UnlockForOwner` when a client goes away that waits for no mutex.
use blank_sr.Base.{
  ℕ, ◌+◌, ◌≤◌, ◌≡◌, ap, refl, ◌∙◌, String, none, some, List, [], ◌∷◌, count, string_eq, nat_eq,
  arith, ◌==◌, if◌then◌else◌, Option-cases, inl, inr,
}
use blank_sr.Base.Map.{lookup, erase, lookup-erase, erase_of_absent}
use blank_sr.Base.Int.{pos}
use blank_sr.Sync.Mutex.{State, ids, counter, done, then_do, release_all, unlock_for_owner}
use blank_sr.Sync.Mutex.Clients.{Clients, Request, about, about_by, by, drop_owner}
use blank_sr.Sync.Mutex.Drains.{
  drained, Distinct, Ready, drained-same, drained-counter, drained-channels, release_all-eq-done,
}
use blank_sr.Sync.Mutex.Invariant.{Inv}

-- The state after `UnlockForOwner` where each mutex of the owner is locked.
unfoldable pub closed : String → State → State
closed o s = record (drained (ids o s.owners) s) { owners = erase o s.owners }

-- `UnlockForOwner` on the owner's list, with the loop shut.
unlock_for_owner-some :
    (o : String) (l : List String) (s : State)
    → lookup o s.owners ≡ some l
    → unlock_for_owner o s
      ≡ then_do (release_all l s) (λ t. done (record t { owners = erase o t.owners }))
unfolding unlock_for_owner
unlock_for_owner-some o l s e = rw (e, unlock_for_owner)

unlock_for_owner-none :
    (o : String) (s : State) → lookup o s.owners ≡ none → unlock_for_owner o s ≡ done s
unfolding unlock_for_owner
unlock_for_owner-none o s e = rw (e, unlock_for_owner)

pub unlock_for_owner-eq-done :
    (o : String) (s : State)
    → Distinct s
    → Ready (ids o s.owners) s
    → unlock_for_owner o s ≡ done (closed o s)
unfolding closed drained
unlock_for_owner-eq-done o s d r = elim (Option-cases (lookup o s.owners)) [
  | inl e ↦ rw (unlock_for_owner-none o s e) (ground (arith, erase_of_absent o s.owners e))
  | inr (l, e) ↦
      rw (unlock_for_owner-some o l s e, release_all-eq-done l s d (rw e at r))
        (ground (arith, drained-same l s))
]

by-about_by : (o j : String) (rs : List Request) → about_by o j rs ≤ by o rs
by-about_by o j [] = omega arith
by-about_by o j (r ∷ rs) = ground (arith, by-about_by o j rs)

about_by-le : (o j : String) (rs : List Request) → about_by o j rs ≤ about j rs
about_by-le o j [] = omega arith
about_by-le o j (r ∷ rs) = ground (arith, about_by-le o j rs)

about-drop_owner :
    (o j : String) (rs : List Request) → about j (drop_owner o rs) + about_by o j rs ≡ about j rs
about-drop_owner o j [] = omega arith
about-drop_owner o j (r ∷ rs) = ground (arith, about-drop_owner o j rs)

about_by-drop_owner :
    (o p j : String) (rs : List Request)
    → about_by p j (drop_owner o rs) ≡ (if o == p then 0 else about_by p j rs)
about_by-drop_owner o p j [] = ground arith
about_by-drop_owner o p j (r ∷ rs) = ground (arith, about_by-drop_owner o p j rs)

-- How full the channel of a mutex is; a mutex without a locker is free.
abbrev pub taken : String → State → ℕ
taken i s = elim (lookup i s.lockers) [ none ↦ 0 | some p ↦ s.channels p ]

taken-none : (i : String) (s : State) → lookup i s.lockers ≡ none → taken i s ≡ 0
taken-none i s e = rw (e, taken) refl

taken-some :
    (i : String) (p : ℕ) (s : State) → lookup i s.lockers ≡ some p → taken i s ≡ s.channels p
taken-some i p s e = rw (e, taken) refl

-- The mutexes that the calls `held` of an owner hold are given back: their channels are empty and
-- their counters count one holder less. The channels and the counters of the other mutexes stay, and
-- so do the lists of the other owners.
pub record GivenBack (o : String) (held : List Request) (s t : State) : Type 0 where
  pub lockers : t.lockers ≡ s.lockers
  pub freed : (i : String) → taken i t ≡ (if about_by o i held == 0 then taken i s else 0)
  pub counts :
      (i : String) → (n : ℕ) × (counter i t ≡ pos n) × (counter i s ≡ pos (n + about_by o i held))
  pub forgotten : (p : String) → ids p t.owners ≡ (if o == p then [] else ids p s.owners)

module _ (y : Clients) (v : Inv y) (o : String) (active : by o y.waiting ≡ 0) where
  -- What the owner holds is what `owners2Lockers` lists for it.
  listed-held : (j : String) → count j (ids o y.store.owners) ≡ about_by o j y.held
  listed-held j = omega (arith, v.listed o j, by-about_by o j y.waiting)

  pub owner-Ready : Ready (ids o y.store.owners) y.store
  owner-Ready j = (
    omega (arith, v.single o j, listed-held j),
    λ h. elim (Option-cases (lookup j y.store.lockers)) [
      | inl e ↦ absurd (omega (arith, v.absent j e, listed-held j, about_by-le o j y.held))
      | inr (p, e) ↦ (p, e, omega (arith, v.filled j p e, listed-held j, about_by-le o j y.held))
    ],
  )

  abbrev s' : State
  s' = closed o y.store

  abbrev held' : List Request
  held' = drop_owner o y.held

  exclusive : (j : String) → about j held' ≤ 1
  exclusive j = omega (arith, v.exclusive j, about-drop_owner o j y.held)

  counted : (j : String) → counter j s' ≡ pos (about j held' + about j y.waiting)
  unfolding closed
  counted j =
      drained-counter (ids o y.store.owners) y.store j _
        (v.counted j ∙ ap pos (omega (arith, about-drop_owner o j y.held, listed-held j)))

  same-lockers : s'.lockers ≡ y.store.lockers
  unfolding closed
  same-lockers = (drained-same (ids o y.store.owners) y.store).0

  same-fresh : s'.fresh ≡ y.store.fresh
  unfolding closed
  same-fresh = (drained-same (ids o y.store.owners) y.store).1

  channels' :
      (j : String) (p : ℕ)
      → lookup j y.store.lockers ≡ some p
      → s'.channels p ≡ (if count j (ids o y.store.owners) == 0 then y.store.channels p else 0)
  unfolding closed
  channels' = drained-channels (ids o y.store.owners) y.store v.distinct owner-Ready

  absent : (j : String) → lookup j s'.lockers ≡ none → about j held' + about j y.waiting ≡ 0
  absent j h = omega (arith, v.absent j (rw (← same-lockers) h), about-drop_owner o j y.held)

  filled : (j : String) (p : ℕ) → lookup j s'.lockers ≡ some p → s'.channels p ≡ about j held'
  filled j p h =
      let h' : lookup j y.store.lockers ≡ some p = rw (← same-lockers) h in
      channels' j p h'
      ∙ ground (arith, v.filled j p h', v.exclusive j, listed-held j, about-drop_owner o j y.held)

  listed : (p j : String) → count j (ids p s'.owners) ≡ about_by p j held' + about_by p j y.waiting
  unfolding closed
  listed p j = ground (
    arith,
    v.listed p j,
    lookup-erase o p y.store.owners,
    about_by-drop_owner o p j y.held,
    by-about_by o j y.waiting,
  )

  single : (p j : String) → about_by p j held' + about_by p j y.waiting ≤ 1
  single p j = ground (arith, v.single p j, about_by-drop_owner o p j y.held)

  pub closed-Inv : Inv (record y { store = s'; held = held' })
  closed-Inv = record {
    exclusive = exclusive;
    counted = counted;
    absent = absent;
    filled = filled;
    allocated = rw (same-lockers, same-fresh) v.allocated;
    distinct = rw same-lockers v.distinct;
    waits = rw same-lockers v.waits;
    listed = listed;
    single = single;
  }

  freed : (j : String) → taken j s' ≡ (if about_by o j y.held == 0 then taken j y.store else 0)
  freed j = elim (Option-cases (lookup j y.store.lockers)) [
    | inl e ↦ taken-none j s' (rw same-lockers e) ∙ ground (arith, taken-none j y.store e)
    | inr (p, e) ↦
        taken-some j p s' (rw same-lockers e)
        ∙ channels' j p e
        ∙ ground (arith, taken-some j p y.store e, listed-held j)
  ]

  forgotten : (p : String) → ids p s'.owners ≡ (if o == p then [] else ids p y.store.owners)
  unfolding closed
  forgotten p = ground (arith, lookup-erase o p y.store.owners)

  pub closed-GivenBack : GivenBack o y.held y.store s'
  closed-GivenBack = record {
    lockers = same-lockers;
    freed = freed;
    counts = λ j. (
      about j held' + about j y.waiting,
      counted j,
      v.counted j ∙ ap pos (omega (arith, about-drop_owner o j y.held)),
    );
    forgotten = forgotten;
  }
