-- ===== src/Sessions/Records.antt =====
-- What saving a session does to the records of the database.
use blank_sr.Base.{ℕ, ◌≡◌, ◌≢◌, String, refl, ◌∙◌, arith, string_eq, nat_eq}
use blank_sr.Database.{Database, IsLawful}
use blank_sr.Sessions.Data.{Session, Codec, bucket, copy_session}
use blank_sr.Sessions.Invariant.{Kept, Kept-trans, copy_session-Kept, IsFaithful, Persisted}
use blank_sr.Sessions.Store.{write}

pub copy_session-created_at : {F : Type 0} (x : Session F) → (copy_session x).created_at ≡ 0
unfolding copy_session
copy_session-created_at x = refl

pub copy_session-api_key : {F : Type 0} (x : Session F) → (copy_session x).api_key ≡ x.api_key
unfolding copy_session
copy_session-api_key x = refl

module _ {F : Type 0} where
  pub write_self : (h : ℕ → Session F) (p : ℕ) (x : Session F) → write h p x p ≡ x
  write_self h p x = ground arith

  pub write_ne : (h : ℕ → Session F) (p q : ℕ) (x : Session F) → q ≢ p → write h p x q ≡ h q
  write_ne h p q x ne = ground arith

-- The database after `Save` of a session.
abbrev pub stored_db : (D : Database) {F : Type 0} → Codec F D.Bytes → Session F → D.Db → D.Db
stored_db D C x d = (D.save bucket x.api_key (C.marshal (copy_session x)) d).1

module _ (D : Database) (L : IsLawful D) {F : Type 0} (C : Codec F D.Bytes)
    (faithful : IsFaithful C) where
  pub saved-Persisted :
      (x : Session F) (d : D.Db) → L.IsKey x.api_key → Persisted D C x.api_key x (stored_db D C x d)
  saved-Persisted x d h =
      let (y, e, kept, created) = faithful.decodes (copy_session x) in
      record {
        bytes = C.marshal (copy_session x);
        found = ground (
          arith,
          L.get-save bucket x.api_key (C.marshal (copy_session x)) d bucket x.api_key L.sessions h,
        );
        read = y;
        decoded = e;
        kept = Kept-trans x (copy_session x) y (copy_session-Kept x) kept;
        undated = created ∙ copy_session-created_at x;
      }

  -- A record under another key stays.
  pub other-Persisted :
      (x z : Session F) (k : String) (d : D.Db)
      → L.IsKey x.api_key
      → x.api_key ≢ k
      → Persisted D C k z d
      → Persisted D C k z (stored_db D C x d)
  other-Persisted x z k d h ne q = record {
    bytes = q.bytes;
    found = ground (
      arith,
      L.get-save bucket x.api_key (C.marshal (copy_session x)) d bucket k L.sessions h,
      q.found,
    );
    read = q.read;
    decoded = q.decoded;
    kept = q.kept;
    undated = q.undated;
  }

  pub deleted-Persisted :
      (i : String) (z : Session F) (k : String) (d : D.Db)
      → i ≢ k
      → Persisted D C k z d
      → Persisted D C k z (D.delete bucket i d).1
  deleted-Persisted i z k d ne q = record {
    bytes = q.bytes;
    found = ground (arith, L.get-delete bucket i d bucket k, q.found);
    read = q.read;
    decoded = q.decoded;
    kept = q.kept;
    undated = q.undated;
  }

  pub Kept-Persisted :
      (x z : Session F) (k : String) (d : D.Db)
      → Kept z x
      → Persisted D C k x d
      → Persisted D C k z d
  Kept-Persisted x z k d h q = record {
    bytes = q.bytes;
    found = q.found;
    read = q.read;
    decoded = q.decoded;
    kept = Kept-trans z x q.read h q.kept;
    undated = q.undated;
  }
