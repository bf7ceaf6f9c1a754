-- ===== src/Sessions/Expiry.antt =====
-- `clearRottenSessions`, and the copies that `GetByUserID` hands out.
use blank_sr.Base.{
  ℕ, ◌≡◌, ◌≢◌, ◌≤◌, String, Option, none, some, List, [], ◌∷◌, refl, ◌∙◌, arith, ◌==◌,
  if◌then◌else◌, string_eq, nat_eq, Option-cases, inl, inr, ltb, Bool-cases, true, count,
}
use blank_sr.Base.Map.{lookup, lookup-erase}
use blank_sr.Database.{Database}
use blank_sr.Sessions.Data.{Session, Store, Codec, copy_session}
use blank_sr.Sessions.Store.{clear_one, clear_rotten, get_by_user_id}
use blank_sr.Values.{is_string}

module _ (D : Database) {F : Type 0} (C : Codec F D.Bytes) where
  abbrev S : Type 0
  S = Store F D.Db

  -- Each session has the key under which it stands.
  abbrev pub Keyed : S → Type 0
  Keyed s = (k : String) (p : ℕ) → lookup k s.sessions ≡ some p → (s.heap p).api_key ≡ k

  -- What is left of the session at an address.
  abbrev pub unexpired : ℕ → (ℕ → Session F) → Option ℕ → Option ℕ
  unexpired now heap none = none
  unexpired now heap (some p) = if ltb (heap p).ttl now then none else some p

  clear_one-heap : (now : ℕ) (k : String) (s : S) → (clear_one D C now k s).heap ≡ s.heap
  unfolding clear_one
  clear_one-heap now k s = ground arith

  lookup-clear_one :
      (now : ℕ) (k : String) (s : S)
      → Keyed s
      → (j : String)
      → lookup j (clear_one D C now k s).sessions
        ≡ (if k == j then unexpired now s.heap (lookup j s.sessions) else lookup j s.sessions)
  unfolding clear_one
  lookup-clear_one now k s v j = elim (Option-cases (lookup k s.sessions)) [
    | inl e ↦ ground (arith, e)
    | inr (p, e) ↦ ground (arith, e, v k p e, lookup-erase k j s.sessions)
  ]

  clear_one-Keyed : (now : ℕ) (k : String) (s : S) → Keyed s → Keyed (clear_one D C now k s)
  clear_one-Keyed now k s v j p h =
      rw (clear_one-heap now k s) (v j p (ground (arith, lookup-clear_one now k s v j)))

  clear_rotten-nil : (now : ℕ) (s : S) → clear_rotten D C [] now s ≡ s
  unfolding clear_rotten
  clear_rotten-nil now s = refl

  clear_rotten-cons :
      (k : String) (order : List String) (now : ℕ) (s : S)
      → clear_rotten D C (k ∷ order) now s ≡ clear_rotten D C order now (clear_one D C now k s)
  unfolding clear_rotten
  clear_rotten-cons k order now s = refl

  lookup-clear_each :
      (order : List String) (now : ℕ) (s : S)
      → Keyed s
      → (j : String)
      → lookup j (clear_rotten D C order now s).sessions ≡ (
          if count j order == 0
          then lookup j s.sessions
          else unexpired now s.heap (lookup j s.sessions))
  unfolding nat_eq
  lookup-clear_each [] now s v j = rw (clear_rotten-nil now s)
  lookup-clear_each (k ∷ order) now s v j = rw (clear_rotten-cons k order now s) (
      lookup-clear_each order now (clear_one D C now k s) (clear_one-Keyed now k s v) j
      ∙ rw (clear_one-heap now k s) (ground (arith, lookup-clear_one now k s v j)))

  -- If each session stands under its own key, and Go ranges over all keys, `clearRottenSessions`
  -- removes exactly the sessions whose TTL is over and keeps every other one
  -- at its address, in whatever order Go ranges over the map.
  pub clear_rotten_exact :
      (order : List String) (now : ℕ) (s : S)
      → Keyed s
      → ((k : String) → lookup k s.sessions ≢ none → 1 ≤ count k order)
      → (j : String)
      → lookup j (clear_rotten D C order now s).sessions
        ≡ unexpired now s.heap (lookup j s.sessions)
  unfolding nat_eq
  clear_rotten_exact order now s v covers j = elim (Option-cases (lookup j s.sessions)) [
    | inl e ↦ lookup-clear_each order now s v j ∙ ground (arith, e)
    | inr (p, e) ↦
        lookup-clear_each order now s v j ∙ ground (arith, e, covers j (λ n. ground arith))
  ]

  copy_session-access_token : (x : Session F) → (copy_session x).access_token ≡ x.access_token
  unfolding copy_session
  copy_session-access_token x = refl

  -- `GetByUserID` finds a session of the user if it finds one, and hands out its access token,
  -- which the code means to blank.
  pub get_by_user_id_token :
      (order : List String) (id : String) (s : S) (x : Session F)
      → get_by_user_id D C order id s ≡ some x
      → (k : String) × (p : ℕ) × (lookup k s.sessions ≡ some p)
        × (is_string (s.heap p).user_id id ≡ true)
        × (x.access_token ≡ (s.heap p).access_token)
  unfolding get_by_user_id
  get_by_user_id_token [] id s x h = cc
  get_by_user_id_token (k ∷ order) id s x h = elim (Option-cases (lookup k s.sessions)) [
    | inl e ↦ get_by_user_id_token order id s x (ground arith)
    | inr (p, e) ↦ elim (Bool-cases (is_string (s.heap p).user_id id)) [
      | inl same ↦ (k, p, e, same, ground (arith, copy_session-access_token (s.heap p)))
      | inr other ↦ get_by_user_id_token order id s x (ground arith)
    ]
  ]
