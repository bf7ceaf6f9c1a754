-- ===== src/Sync/Mutex/Invariant.antt =====
-- The state of sync/mutex.go against the calls of `Lock` that have begun.
use blank_sr.Base.{ℕ, ◌+◌, ◌≤◌, ◌<◌, ◌≡◌, String, none, some, count, string_eq, All}
use blank_sr.Base.Map.{lookup}
use blank_sr.Base.Int.{pos}
use blank_sr.Sync.Mutex.{ids, counter}
use blank_sr.Sync.Mutex.Clients.{Clients, Request, about, about_by}

pub record Inv (y : Clients) : Type 0 where
  pub exclusive : (i : String) → about i y.held ≤ 1
  pub counted : (i : String) → counter i y.store ≡ pos (about i y.held + about i y.waiting)
  pub absent :
      (i : String) → lookup i y.store.lockers ≡ none → about i y.held + about i y.waiting ≡ 0
  pub filled :
      (i : String) (p : ℕ) → lookup i y.store.lockers ≡ some p → y.store.channels p ≡ about i y.held
  pub allocated : (i : String) (p : ℕ) → lookup i y.store.lockers ≡ some p → p < y.store.fresh
  pub distinct :
      (i j : String) (p : ℕ)
      → lookup i y.store.lockers ≡ some p
      → lookup j y.store.lockers ≡ some p
      → i ≡ j
  pub waits : All (λ (r : Request). lookup r.id y.store.lockers ≡ some r.at) y.waiting
  pub listed :
      (o i : String) → count i (ids o y.store.owners) ≡ about_by o i y.held + about_by o i y.waiting
  pub single : (o i : String) → about_by o i y.held + about_by o i y.waiting ≤ 1
