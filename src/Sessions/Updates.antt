-- ===== src/Sessions/Updates.antt =====
-- Saving a session, and removing one.
use blank_sr.Base.{ℕ, ◌≡◌, ◌≢◌, String, some, ◌∙◌, sym, subst, arith, string_eq, nat_eq}
use mathlib.Core.Option.{some-injective}
use blank_sr.Base.Map.{lookup, erase, lookup-erase, lookup-nil}
use blank_sr.Database.{Database, IsLawful}
use blank_sr.Sessions.Data.{Session, Store, Codec, bucket, copy_session}
use blank_sr.Sessions.Invariant.{Kept, IsFaithful, Persisted, Inv}
use blank_sr.Sessions.Records.{
  stored_db, saved-Persisted, other-Persisted, deleted-Persisted, Kept-Persisted,
}

module _ (D : Database) (L : IsLawful D) {F : Type 0} (C : Codec F D.Bytes)
    (faithful : IsFaithful C) where
  -- A session of the store is changed in nothing that matters here, and saved.
  module _ (s t : Store F D.Db) (k : String) (p : ℕ) (x : Session F) (v : Inv D C L s)
      (at : lookup k s.sessions ≡ some p) (kept : Kept (s.heap p) x)
      (sessions : t.sessions ≡ s.sessions) (fresh : t.fresh ≡ s.fresh)
      (db : t.db ≡ stored_db D C x s.db) (self : Kept (t.heap p) x)
      (others : (q : ℕ) → q ≢ p → t.heap q ≡ s.heap q) where
    key : x.api_key ≡ k
    key = kept.api_key ∙ v.keyed k p at

    is_key : L.IsKey x.api_key
    is_key = rw key (v.storable k p at)

    keyed : (j : String) (q : ℕ) → lookup j t.sessions ≡ some q → (t.heap q).api_key ≡ j
    keyed j q h = elim (nat_eq.dec q p) [
      | yes e ↦ rw e (
          sym self.api_key
          ∙ kept.api_key
          ∙ v.keyed j p (subst (λ r. lookup j s.sessions ≡ some r) e (rw sessions at h)))
      | no ne ↦ rw (others q ne) (v.keyed j q (rw sessions at h))
    ]

    stored : (j : String) (q : ℕ) → lookup j t.sessions ≡ some q → Persisted D C j (t.heap q) t.db
    stored j q h = elim (nat_eq.dec q p) [
      | yes e ↦
          let same : x.api_key ≡ j =
            kept.api_key
            ∙ v.keyed j p (subst (λ r. lookup j s.sessions ≡ some r) e (rw sessions at h)) in
          rw (e, db)
            (Kept-Persisted D L C faithful x (t.heap p) j _ self (
              subst (λ i. Persisted D C i x (stored_db D C x s.db)) same
                (saved-Persisted D L C faithful x s.db is_key)))
      | no ne ↦
          rw (others q ne, db)
            (other-Persisted D L C faithful x (s.heap q) j s.db is_key
              (λ e. ne (some-injective q p (sym (rw sessions at h) ∙ (rw (← e, key) at))))
              (v.stored j q (rw sessions at h)))
    ]

    pub saved-Inv : Inv D C L t
    saved-Inv = record {
      keyed = keyed;
      allocated = rw (sessions, fresh) v.allocated;
      storable = rw sessions v.storable;
      stored = stored;
      gone = λ j h. rw db (
          ground (
            arith,
            L.get-save bucket x.api_key (C.marshal (copy_session x)) s.db bucket j L.sessions
                is_key,
            v.gone j (rw sessions at h),
            key,
            at,
            (rw sessions at h),
          ));
      waiting = λ j h. rw sessions (v.waiting j h);
    }

  -- The session under a key is removed, from memory and from the database.
  module _ (s t : Store F D.Db) (k : String) (v : Inv D C L s)
      (sessions : t.sessions ≡ erase k s.sessions) (fresh : t.fresh ≡ s.fresh)
      (db : t.db ≡ (D.delete bucket k s.db).1) (heap : (q : ℕ) → Kept (t.heap q) (s.heap q)) where
    left :
        (j : String) (q : ℕ)
        → lookup j t.sessions ≡ some q
        → (k ≢ j) × (lookup j s.sessions ≡ some q)
    left j q h =
        let h' = rw sessions at h in
        (ground (arith, lookup-erase k j s.sessions), ground (arith, lookup-erase k j s.sessions))

    pub removed-Inv : Inv D C L t
    removed-Inv = record {
      keyed = λ j q h. sym (heap q).api_key ∙ v.keyed j q (left j q h).1;
      allocated = λ j q h. rw fresh (v.allocated j q (left j q h).1);
      storable = λ j q h. v.storable j q (left j q h).1;
      stored = λ j q h. rw db (
          Kept-Persisted D L C faithful (s.heap q) (t.heap q) j _ (heap q) (
            deleted-Persisted D L C faithful k (s.heap q) j s.db (left j q h).0
              (v.stored j q (left j q h).1)));
      gone = λ j h. rw db (
          ground (
            arith,
            L.get-delete bucket k s.db bucket j,
            lookup-erase k j s.sessions,
            rw sessions at h,
            v.gone j,
            lookup-nil {V = D.Bytes} j,
          ));
      waiting = λ j h. absurd (h (lookup-nil j));
    }
