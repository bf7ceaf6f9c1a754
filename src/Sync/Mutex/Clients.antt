-- ===== src/Sync/Mutex/Clients.antt =====
-- The goroutines around sync/mutex.go that call `Lock` and `Unlock` for the clients, as a step
-- relation: `waiting` holds the calls of `Lock` that stand in `lock`, `held` those that returned.
use blank_sr.Base.{ℕ, ◌+◌, ◌≡◌, String, List, [], ◌∷◌, ◌++◌, some, ◌&&◌}
use blank_sr.Base.{◌==◌, if◌then◌else◌, string_eq, count_if}
use blank_sr.Sync.Mutex.{State, start, done, lock, request, unlock_id, unlock_for_owner}

-- A call of `Lock`, with the address of the locker that it found or made.
pub record Request : Type 0 where
  pub owner : String
  pub id : String
  pub at : ℕ

pub record Clients : Type 0 where
  pub store : State
  pub waiting : List Request
  pub held : List Request

abbrev pub idle : Clients
idle = record { store = start; waiting = []; held = [] }

-- How many calls are about a mutex.
abbrev pub about : String → List Request → ℕ
about i = count_if (λ r. r.id == i)

-- How many calls of an owner are about a mutex.
abbrev pub about_by : String → String → List Request → ℕ
about_by o i = count_if (λ r. r.owner == o && r.id == i)

abbrev pub by : String → List Request → ℕ
by o = count_if (λ r. r.owner == o)

abbrev pub drop_owner : String → List Request → List Request
drop_owner o [] = []
drop_owner o (r ∷ rs) = let rest = drop_owner o rs in if r.owner == o then rest else r ∷ rest

-- Clients that keep to the rules: nobody asks twice for a mutex, only a holder unlocks, and a
-- client disconnects when it does not wait.
pub data Step : Clients → Clients → Type 0 where
  requests :
      (y : Clients) (o i : String)
      → about_by o i y.waiting + about_by o i y.held ≡ 0
      → Step y (record y {
        store = (request o i y.store).1;
        waiting = record { owner = o; id = i; at = (request o i y.store).0 } ∷ y.waiting;
      })
  locks :
      (y : Clients) (before after : List Request) (r : Request) (s : State)
      → y.waiting ≡ before ++ (r ∷ after)
      → lock r.at y.store ≡ some s
      → Step y (record { store = s; waiting = before ++ after; held = r ∷ y.held })
  unlocks :
      (y : Clients) (before after : List Request) (r : Request) (s : State)
      → y.held ≡ before ++ (r ∷ after)
      → unlock_id r.owner r.id y.store ≡ done s
      → Step y (record y { store = s; held = before ++ after })
  disconnects :
      (y : Clients) (o : String) (s : State)
      → by o y.waiting ≡ 0
      → unlock_for_owner o y.store ≡ done s
      → Step y (record y { store = s; held = drop_owner o y.held })

pub data Reach (x : Clients) : Clients → Type 0 where
  here : Reach x x
  next : {y z : Clients} → Reach x y → Step y z → Reach x z
