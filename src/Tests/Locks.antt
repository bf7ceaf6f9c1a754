-- ===== src/Tests/Locks.antt =====
-- sync/mutex.go: alice holds a mutex, and bob waits for it.
use blank_sr.Base.{
  ◌≡◌, ◌≢◌, ◌≤◌, refl, String, [], ◌∷◌, none, some, string_eq, nat_eq, ◌==◌, if◌then◌else◌,
}
use blank_sr.Base.Map.{lookup, insert}
use blank_sr.Sync.Mutex.{State, done, panics, fill, ids, lock, request, unlock_id, unlock_for_owner}
use blank_sr.Sync.Mutex.Clients.{
  Clients, Request, requests, locks, Reach, here, next, idle, about, drop_owner,
}
use blank_sr.Sync.Mutex.Disconnects.{GivenBack}
use blank_sr.Sync.Mutex.Exclusion.{
  exclusion, lock_when_free, unlock_returns, unlock_for_owner_returns,
}
use blank_sr.Sync.Mutex.Misuse.{waiter_disconnects, foreign_unlock_panics}

abbrev asks : String → Clients → Clients
asks o y = record y {
  store = (request o "m" y.store).1;
  waiting = record { owner = o; id = "m"; at = (request o "m" y.store).0 } ∷ y.waiting;
}

abbrev alice : Request
alice = record { owner = "alice"; id = "m"; at = 0 }

abbrev bob : Request
bob = record { owner = "bob"; id = "m"; at = 0 }

-- `alice` asked.
abbrev asked : Clients
asked = asks "alice" idle

abbrev locked_store : State
locked_store = record asked.store { channels = fill asked.store.channels 0 1 }

-- `alice` holds the mutex.
abbrev pub locked : Clients
locked = record { store = locked_store; waiting = []; held = alice ∷ [] }

-- `bob` waits for it.
abbrev both : Clients
both = asks "bob" locked

asked-waiting : asked.waiting ≡ alice ∷ []
unfolding request lookup
asked-waiting = refl

asked-Reach : Reach idle asked
asked-Reach = next here (requests idle "alice" "m" refl)

locks_asked : lock 0 asked.store ≡ some locked_store
unfolding lock request nat_eq lookup
locks_asked = refl

pub locked-Reach : Reach idle locked
unfolding request lookup
locked-Reach = next asked-Reach (locks asked [] [] alice locked_store asked-waiting locks_asked)

both-Reach : Reach idle both
unfolding string_eq
both-Reach = next locked-Reach (requests locked "bob" "m" refl)

both-waiting : both.waiting ≡ bob ∷ []
unfolding request lookup insert string_eq
both-waiting = refl

exclusion_example : about "m" both.held ≤ 1
exclusion_example = exclusion both-Reach "m"

lock_when_free_example : lock 0 both.store ≡ (
    if about "m" both.held == 0
    then some (record both.store { channels = fill both.store.channels 0 1 })
    else none)
lock_when_free_example = lock_when_free [] [] bob both-Reach both-waiting

unlock_returns_example :
    (s : State) × (unlock_id "alice" "m" locked.store ≡ done s)
    × Reach idle (record locked { store = s; held = [] })
unlock_returns_example = unlock_returns [] [] alice locked-Reach refl

unlock_for_owner_returns_example :
    (s : State) × (unlock_for_owner "alice" locked.store ≡ done s)
    × GivenBack "alice" locked.held locked.store s
    × Reach idle (record locked { store = s; held = drop_owner "alice" locked.held })
unlock_for_owner_returns_example = unlock_for_owner_returns "alice" locked-Reach refl

both-held : about "m" both.held ≡ 1
unfolding string_eq
both-held = refl

both-ids : ids "bob" both.store.owners ≡ "m" ∷ []
unfolding request lookup insert string_eq
both-ids = refl

waiter_disconnects_example :
    (s : State) × (t : State) × (unlock_for_owner "bob" both.store ≡ done s) × (lock 0 s ≡ some t)
waiter_disconnects_example = waiter_disconnects [] [] bob both-Reach both-waiting both-held both-ids

locked-ids : ids "alice" locked.store.owners ≡ "m" ∷ []
unfolding request lookup insert string_eq
locked-ids = refl

bob_other : bob.owner ≢ alice.owner
bob_other e = cc

foreign_unlock_panics_example :
    (s : State) × (unlock_id "bob" "m" locked.store ≡ done s)
    × (unlock_for_owner "alice" s ≡ panics s)
foreign_unlock_panics_example =
    foreign_unlock_panics [] [] alice "bob" [] locked-Reach refl refl bob_other locked-ids
