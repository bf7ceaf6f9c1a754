-- ===== src/Sessions/Additions.antt =====
-- Putting a session into the store.
use blank_sr.Base.{
  ℕ, suc, ◌≡◌, ◌≢◌, ◌<◌, ◌⊎◌, String, none, some, ◌∙◌, sym, subst, arith, ◌==◌, if◌then◌else◌,
  string_eq, nat_eq, inl, inr,
}
use blank_sr.Base.Map.{Map, lookup, insert, lookup-insert}
use blank_sr.Database.{Database, IsLawful}
use blank_sr.Sessions.Data.{Session, Store, Codec, bucket, copy_session}
use blank_sr.Sessions.Invariant.{Kept, IsFaithful, Persisted, InvWith}
use blank_sr.Sessions.Records.{stored_db, saved-Persisted, other-Persisted, Kept-Persisted}

module _ (D : Database) (L : IsLawful D) {F : Type 0} (C : Codec F D.Bytes)
    (faithful : IsFaithful C) where
  -- A session is put under a key that it has, in memory and in the database; a record that waited
  -- under that key waits no longer.
  module _ (m m' : Map String D.Bytes) (s t : Store F D.Db) (k : String) (x : Session F)
      (v : InvWith D C L m s)
      (rest : (j : String) → lookup j m' ≡ (if k == j then none else lookup j m))
      (own : x.api_key ≡ k) (is_key : L.IsKey k)
      (sessions : t.sessions ≡ insert k s.fresh s.sessions) (fresh : t.fresh ≡ suc s.fresh)
      (db : t.db ≡ stored_db D C x s.db) (self : Kept (t.heap s.fresh) x)
      (others : (q : ℕ) → q ≢ s.fresh → t.heap q ≡ s.heap q) where
    is_key' : L.IsKey x.api_key
    is_key' = rw own is_key

    -- A key of the new map is the new one, or an old one with its pointer.
    Comes : String → ℕ → Type 0
    Comes j q =
        ((k ≡ j) × (q ≡ s.fresh)) ⊎ ((k ≢ j) × (q ≢ s.fresh) × (lookup j s.sessions ≡ some q))

    comes : (j : String) (q : ℕ) → lookup j t.sessions ≡ some q → Comes j q
    unfolding Comes
    comes j q h = elim (string_eq.dec k j) [
      | yes e ↦ inl (e, ground (arith, rw sessions at h, lookup-insert k j s.fresh s.sessions))
      | no ne ↦
          let old : lookup j s.sessions ≡ some q =
            ground (arith, rw sessions at h, lookup-insert k j s.fresh s.sessions) in
          inr (ne, λ e. omega (arith, v.allocated j q old), old)
    ]

    stored : (j : String) (q : ℕ) → Comes j q → Persisted D C j (t.heap q) t.db
    unfolding Comes
    stored j q (inl (e, same)) =
        rw (same, db)
          (Kept-Persisted D L C faithful x (t.heap s.fresh) j _ self (
            subst (λ i. Persisted D C i x (stored_db D C x s.db)) (own ∙ e)
              (saved-Persisted D L C faithful x s.db is_key')))
    stored j q (inr (ne, apart, old)) =
        rw (others q apart, db)
          (other-Persisted D L C faithful x (s.heap q) j s.db is_key' (λ e. ne (sym own ∙ e))
            (v.stored j q old))

    keyed : (j : String) (q : ℕ) → Comes j q → (t.heap q).api_key ≡ j
    unfolding Comes
    keyed j q (inl (e, same)) = rw same (sym self.api_key ∙ own ∙ e)
    keyed j q (inr (ne, apart, old)) = rw (others q apart) (v.keyed j q old)

    allocated : (j : String) (q : ℕ) → Comes j q → q < t.fresh
    unfolding Comes
    allocated j q (inl (e, same)) = omega arith
    allocated j q (inr (ne, apart, old)) = omega (arith, v.allocated j q old)

    storable : (j : String) (q : ℕ) → Comes j q → L.IsKey j
    unfolding Comes
    storable j q (inl (e, same)) = subst L.IsKey e is_key
    storable j q (inr (ne, apart, old)) = v.storable j q old

    pub added-Inv : InvWith D C L m' t
    added-Inv = record {
      keyed = λ j q h. keyed j q (comes j q h);
      allocated = λ j q h. allocated j q (comes j q h);
      storable = λ j q h. storable j q (comes j q h);
      stored = λ j q h. stored j q (comes j q h);
      gone = λ j h.
          rw (db, rest j)
            (ground (
              arith,
              L.get-save bucket x.api_key (C.marshal (copy_session x)) s.db bucket j L.sessions
                  is_key',
              lookup-insert k j s.fresh s.sessions,
              rw sessions at h,
              own,
              v.gone j,
            ));
      waiting = λ j h.
          rw sessions (ground (arith, lookup-insert k j s.fresh s.sessions, v.waiting j, rest j));
    }
