-- ===== src/Main/Survival.antt =====
-- What a client finds of its session after the program was started again.
use blank_sr.Base.{
  ℕ, ◌≡◌, ◌∙◌, ◌<◌, ap, String, true, none, some, [], ◌∷◌, string_eq, arith, Option-cases, inl, inr,
}
use blank_sr.Base.Map.{lookup, erase, lookup-erase}
use blank_sr.Database.{Database, IsLawful}
use blank_sr.Handlers.Kept.{session_delete-Good}
use blank_sr.Handlers.Sessions.{check_session_by_api_key_handler, delete_session_handler}
use blank_sr.Handlers.State.{App, Reply, replies, fails, value, not_found}
use blank_sr.Handlers.Tokens.{
  check_found, check_missing, delete_found, delete_missing, delete_session-sessions,
}
use blank_sr.Main.{started}
use blank_sr.Main.Program.{
  Reach, unhooked, hooked-Inv, loaded, started-store, program_keeps_sessions,
}
use blank_sr.Sessions.Data.{Codec}
use blank_sr.Sessions.History.{restart_recovers, restart_adds_none}
use blank_sr.Sessions.Invariant.{IsFaithful, Inv}
use blank_sr.Storage.{Text}
use blank_sr.Values.{Value, null, bool, int, number, string, array, object, is_string}

is_string-string : (F : Type 0) (u : String) → is_string {F = F} (string u) u ≡ true
is_string-string F u = ground arith

module _ {F : Type 0} where
  string_of : (v : Value F) (u : String) → is_string v u ≡ true → v ≡ string u
  string_of (string t) u h = ground arith
  string_of null u h = cc
  string_of (bool b) u h = cc
  string_of (int n) u h = cc
  string_of (number x) u h = cc
  string_of (array vs) u h = cc
  string_of (object fs) u h = cc

module _ (D : Database) {F : Type 0} (C : Codec F D.Bytes) where
  -- The client asks for the session with a key: `session.check`.
  abbrev pub checks : String → App F D.Db → Reply F
  checks k s = (check_session_by_api_key_handler D C (some (string k ∷ [])) s).0

  abbrev pub restarted : ℕ → App F D.Db → App F D.Db
  restarted now s = started D C now s.store.heap s.store.db

  -- The program after a call of `session.delete`.
  abbrev pub deleted : String → App F D.Db → App F D.Db
  deleted k t = (delete_session_handler D C (some (string k ∷ [])) t).1

module _ (D : Database) (L : IsLawful D) (T : Text D.Bytes) {F : Type 0} (C : Codec F D.Bytes)
    (faithful : IsFaithful C) where
  started-sessions :
      (now : ℕ) (s : App F D.Db)
      → ((restarted D C now s).store.sessions ≡ (loaded D L T C faithful now s.store).sessions)
        × ((restarted D C now s).store.heap ≡ (loaded D L T C faithful now s.store).heap)
  started-sessions now s = (
    ap (λ t. t.sessions) (started-store D L T C faithful now s),
    ap (λ t. t.heap) (started-store D L T C faithful now s),
  )

  restarted_missing :
      (now : ℕ) (k : String) (t : App F D.Db)
      → Inv D C L t.store
      → lookup k t.store.sessions ≡ none
      → checks D C k (restarted D C now t) ≡ fails not_found
  restarted_missing now k t v e =
      ap (λ z. z.0)
        (check_missing D C k (restarted D C now t) (
          ap (lookup k) (started-sessions now t).0
          ∙ restart_adds_none D L C faithful now (unhooked D L T C faithful t.store) k
              (hooked-Inv D L T C faithful t.store [] [] v) e))

  deleted-lookup :
      (k : String) (t : App F D.Db)
      → Inv D C L t.store
      → lookup k (deleted D C k t).store.sessions ≡ none
  deleted-lookup k t v = elim (Option-cases (lookup k t.store.sessions)) [
    | inl e ↦ ap (λ z. lookup k z.1.store.sessions) (delete_missing D C k t e) ∙ e
    | inr (p, e) ↦
        ap (λ z. lookup k z.1.store.sessions) (delete_found D C k p t e)
        ∙ ap (lookup k) (delete_session-sessions D C p t.store)
        ∙ ap (λ j. lookup k (erase j t.store.sessions)) (v.keyed k p e)
        ∙ lookup-erase k k t.store.sessions
        ∙ ground arith
  ]

  module _ {s t : App F D.Db} (reach : Reach D L T C faithful s t) (v : Inv D C L s.store) (now : ℕ)
      (k : String) where
    reached : Inv D C L (unhooked D L T C faithful t.store)
    reached =
        hooked-Inv D L T C faithful t.store [] [] (program_keeps_sessions D L T C faithful reach v)

    -- After any history of the program, a session that has not run out is found by its key when the
    -- program has been started again, and the client is told the same user, where that is a string.
    pub session_survives :
        (p : ℕ) (u : String)
        → lookup k t.store.sessions ≡ some p
        → (t.store.heap p).user_id ≡ string u
        → ¬ ((t.store.heap p).ttl < now)
        → checks D C k (restarted D C now t) ≡ replies (value (string u))
    session_survives p u at own young =
        let (q, found, kept, _, _) =
          (restart_recovers D L C faithful now (unhooked D L T C faithful t.store) k reached p at
            young) in
        let (sessions, heap) = started-sessions now t in
        ap (λ z. z.0) (check_found D C k q (restarted D C now t) (ap (lookup k) sessions ∙ found))
        ∙ ap (λ z. replies (value z))
            (ap (λ h. (h q).user_id) heap
              ∙ string_of _ u (kept.user u ∙ ap (λ z. is_string z u) own ∙ is_string-string F u))

    -- After any history of the program that begins with memory and database in step, a session
    -- that a client deletes is not found any more, also not when the program has been started
    -- again. Each call is run to its end before the next, the database takes the keys of new
    -- sessions and items, and the encoder gives back what it encoded.
    pub deleted_for_ever :
        (checks D C k (deleted D C k t) ≡ fails not_found)
        × (checks D C k (restarted D C now (deleted D C k t)) ≡ fails not_found)
    deleted_for_ever =
        let w = program_keeps_sessions D L T C faithful reach v in
        let gone = deleted-lookup k t w in
        (
          ap (λ z. z.0) (check_missing D C k (deleted D C k t) gone),
          restarted_missing now k (deleted D C k t)
              (session_delete-Good D L T C faithful t w (some (string k ∷ []))).inv gone,
        )
