-- ===== src/Sessions/Operations.antt =====
-- Every operation of the store keeps memory and database in step.
use blank_sr.Base.{
  ℕ, suc, ◌≡◌, ◌⊎◌, String, Option, none, some, List, [], ◌∷◌, refl, ap, ◌∙◌, arith, ◌==◌,
  if◌then◌else◌, string_eq, nat_eq, Option-cases, inl, inr, or_else, ltb, Bool-cases, ◌+◌,
}
use blank_sr.Base.Map.{Map, lookup, insert, erase, lookup-nil}
use blank_sr.Database.{Database, IsLawful}
use blank_sr.Sessions.Additions.{added-Inv}
use blank_sr.Sessions.Data.{Conn, Session, Store, Codec, copy_session}
use blank_sr.Sessions.Invariant.{Kept, Kept-refl, IsFaithful, Inv}
use blank_sr.Sessions.Records.{stored_db, write_self, write_ne}
use blank_sr.Sessions.Store.{
  write, save, session_updated, new_session, day, delete_all_connections, delete_key,
  delete_session, clear_rotten, reset_one, clear_one, clear_found, store_session, delete_each,
}
use blank_sr.Sessions.Subscriptions.{
  subscribed, has_conn, drop_conn, change_conn, add_subscription, delete_connection,
  delete_subscription,
}
use blank_sr.Sessions.Updates.{saved-Inv, removed-Inv}
use blank_sr.Values.{Value, Fields}

module _ {F : Type 0} where
  Kept-bump : (x : Session F) → Kept (record x { v = suc x.v }) x
  Kept-bump x = record { api_key = refl; access_token = refl; ttl = refl; user = λ u. refl }

module _ (D : Database) (L : IsLawful D) {F : Type 0} (C : Codec F D.Bytes)
    (faithful : IsFaithful C) where
  abbrev S : Type 0
  S = Store F D.Db

  -- What `sessionUpdated` does besides calling the handlers.
  pub session_updated-fields :
      (p : ℕ) (s : S)
      → ((session_updated D C p s).sessions ≡ s.sessions)
        × ((session_updated D C p s).fresh ≡ s.fresh)
        × ((session_updated D C p s).db ≡ stored_db D C (s.heap p) s.db)
        × ((session_updated D C p s).heap
            ≡ write s.heap p (record (s.heap p) { v = suc (s.heap p).v }))
  unfolding session_updated copy_session
  session_updated-fields p s = (refl, refl, refl, refl)

  module _ (s : S) (v : Inv D C L s) (k : String) (p : ℕ) (at : lookup k s.sessions ≡ some p)
      (cs : List (Conn F)) where
    abbrev x : Session F
    x = record (s.heap p) { connections = cs }

    abbrev changed : S
    changed = record s { heap = write s.heap p x }

    x-Kept : Kept (s.heap p) x
    x-Kept = record { api_key = refl; access_token = refl; ttl = refl; user = λ u. refl }

    -- The session gets other connections and is saved, with its handlers called.
    changed-Inv : Inv D C L (session_updated D C p changed)
    changed-Inv =
        let u = session_updated-fields p changed in
        saved-Inv D L C faithful s (session_updated D C p changed) k p x v at x-Kept u.0 u.1
          (u.2 ∙ ap (λ z. stored_db D C z s.db) (write_self s.heap p x))
          (rw (u.3, write_self, write_self s.heap p x) (Kept-bump x))
          (λ q ne. rw (u.3, write_ne changed.heap p q _ ne) (write_ne s.heap p q x ne))

    -- The same with no handler called.
    reset-Inv : Inv D C L (save D C p changed)
    unfolding save copy_session
    reset-Inv =
        saved-Inv D L C faithful s (save D C p changed) k p x v at x-Kept refl refl
          (rw (write_self s.heap p x)) (rw (write_self s.heap p x) (Kept-refl x))
          (λ q ne. write_ne s.heap p q x ne)

  module _ (s : S) (v : Inv D C L s) (k : String) (p : ℕ) (at : lookup k s.sessions ≡ some p) where
    pub add_subscription-Inv :
        (id uri : String) (extra : Value F) → Inv D C L (add_subscription D C p id uri extra s)
    unfolding add_subscription
    add_subscription-Inv id uri extra =
        changed-Inv s v k p at (subscribed id uri extra (s.heap p).connections)

    pub delete_connection-Inv : (id : String) → Inv D C L (delete_connection D C p id s)
    unfolding delete_connection
    delete_connection-Inv id = changed-Inv s v k p at (drop_conn id (s.heap p).connections)

    pub delete_subscription-Inv : (id uri : String) → Inv D C L (delete_subscription D C p id uri s)
    unfolding delete_subscription
    delete_subscription-Inv id uri = elim (Bool-cases (has_conn id (s.heap p).connections)) [
      | inl found ↦
          rw found (changed-Inv s v k p at (change_conn id (erase uri) (s.heap p).connections))
      | inr missing ↦ rw missing v
    ]

    clear_found-Inv : (now : ℕ) → Inv D C L (clear_found D C now p s)
    unfolding clear_found
    clear_found-Inv now = elim (Bool-cases (ltb (s.heap p).ttl now)) [
      | inl old ↦ rw old (
          removed-Inv D L C faithful s _ k v (rw (v.keyed k p at)) refl (rw (v.keyed k p at))
            (λ q. Kept-refl (s.heap q)))
      | inr young ↦ rw young v
    ]

  -- `Delete` on any session, in the map or not, keeps memory and database in step.
  module _ (s : S) (v : Inv D C L s) (p : ℕ) where
    bump-Kept :
        (t : S) (q : ℕ)
        → t.heap ≡ s.heap
        → Kept (write s.heap p (record (s.heap p) { v = suc (s.heap p).v }) q) (s.heap q)
    bump-Kept t q e = elim (nat_eq.dec q p) [
      | yes same ↦ rw (same, write_self s.heap p _) (Kept-bump (s.heap p))
      | no ne ↦ rw (write_ne s.heap p q _ ne) (Kept-refl (s.heap q))
    ]

    pub delete_session-Inv : Inv D C L (delete_session D C p s)
    unfolding delete_session
    delete_session-Inv =
        removed-Inv D L C faithful s (delete_session D C p s) (s.heap p).api_key v refl refl refl
          (λ q. bump-Kept s q refl)

  module _ (s : S) (v : Inv D C L s) (k : String) (p : ℕ) (at : lookup k s.sessions ≡ some p) where
    pub delete_key_live-Inv : Inv D C L (delete_key D C k s)
    unfolding delete_key
    delete_key_live-Inv =
        removed-Inv D L C faithful s (delete_key D C k s) k v (ground (arith, at))
          (ground (arith, at)) (ground (arith, at))
          (rw (at, delete_key) (λ q. bump-Kept s v p s q refl))

  pub delete_key-Inv : (k : String) (s : S) → Inv D C L s → Inv D C L (delete_key D C k s)
  unfolding delete_key
  delete_key-Inv k s v = elim (Option-cases (lookup k s.sessions)) [
    | inl e ↦
        removed-Inv D L C faithful s (delete_key D C k s) k v (ground (arith, e))
          (ground (arith, e)) (ground (arith, e)) (rw (e, delete_key) (λ q. Kept-refl (s.heap q)))
    | inr (p, e) ↦ delete_key_live-Inv s v k p e
  ]

  reset_one-Inv : (k : String) (s : S) → Inv D C L s → Inv D C L (reset_one D C k s)
  unfolding reset_one
  reset_one-Inv k s v = elim (Option-cases (lookup k s.sessions)) [
    | inl e ↦ rw (e, reset_one) v
    | inr (p, e) ↦ rw (e, reset_one) (reset-Inv s v k p e [])
  ]

  clear_one-Inv : (now : ℕ) (k : String) (s : S) → Inv D C L s → Inv D C L (clear_one D C now k s)
  unfolding clear_one
  clear_one-Inv now k s v = elim (Option-cases (lookup k s.sessions)) [
    | inl e ↦ rw (e, clear_one) v
    | inr (p, e) ↦ rw (e, clear_one) (clear_found-Inv s v k p e now)
  ]

  pub delete_each-Inv : (ps : List ℕ) (s : S) → Inv D C L s → Inv D C L (delete_each D C ps s)
  unfolding delete_each
  delete_each-Inv [] s v = v
  delete_each-Inv (p ∷ ps) s v =
      delete_each-Inv ps (delete_session D C p s) (delete_session-Inv s v p)

  pub delete_all_connections-Inv :
      (order : List String) (s : S) → Inv D C L s → Inv D C L (delete_all_connections D C order s)
  unfolding delete_all_connections
  delete_all_connections-Inv [] s v = v
  delete_all_connections-Inv (k ∷ order) s v =
      delete_all_connections-Inv order (reset_one D C k s) (reset_one-Inv k s v)

  pub clear_rotten-Inv :
      (order : List String) (now : ℕ) (s : S)
      → Inv D C L s
      → Inv D C L (clear_rotten D C order now s)
  unfolding clear_rotten
  clear_rotten-Inv [] now s v = v
  clear_rotten-Inv (k ∷ order) now s v =
      clear_rotten-Inv order now (clear_one D C now k s) (clear_one-Inv now k s v)

  -- The store with the session in it, before it is saved.
  abbrev placed : Session F → S → S
  placed y s = record s {
    sessions = insert y.api_key s.fresh s.sessions;
    heap = write s.heap s.fresh y;
    fresh = suc s.fresh;
  }

  store_session_lem :
      (y : Session F) (s : S)
      → store_session D C y s ≡ (s.fresh, session_updated D C s.fresh (placed y s))
  unfolding store_session
  store_session_lem y s = refl

  pub store_session-Inv :
      (y : Session F) (s : S)
      → L.IsKey y.api_key
      → Inv D C L s
      → Inv D C L (store_session D C y s).1
  store_session-Inv y s key v =
      let u = session_updated-fields s.fresh (placed y s) in
      rw (store_session_lem y s) (
        added-Inv D L C faithful [] [] s (session_updated D C s.fresh (placed y s)) y.api_key y v
          (λ j. rw lookup-nil (ground arith)) refl key u.0 u.1
          (u.2 ∙ ap (λ z. stored_db D C z s.db) (write_self s.heap s.fresh y))
          (rw (u.3, write_self, write_self s.heap s.fresh y) (Kept-bump y))
          (λ q ne.
            rw (u.3, write_ne (placed y s).heap s.fresh q _ ne) (write_ne s.heap s.fresh q y ne)))

  -- `New` either stores a session under the given key, or under the fresh one if none is given,
  -- with a TTL counted from now, or fails because the signer does.
  pub new_session_cases :
      (sign : Map String (Value F) → Option String) (uuid : String) (jwt_ttl : Option ℕ)
      (props : List String) (now later : ℕ) (user : Fields F) (session_id : String) (s : S)
      → (new_session D C sign uuid jwt_ttl props now later user session_id s ≡ none)
        ⊎ ((x : Session F) × (x.api_key ≡ (if session_id == "" then uuid else session_id))
            × (x.ttl ≡ now + or_else jwt_ttl day)
            × (new_session D C sign uuid jwt_ttl props now later user session_id s
                ≡ some (store_session D C x s)))
  unfolding new_session
  new_session_cases sign uuid jwt_ttl props now later user session_id s = ground arith
