-- ===== src/Sessions/Invariant.antt =====
-- The sessions in memory against the records in the database.
use blank_sr.Base.{ℕ, ◌≡◌, ◌≢◌, [], ◌<◌, String, none, some, refl, ◌∙◌, string_eq}
use blank_sr.Base.Map.{Map, lookup}
use blank_sr.Database.{Database, IsLawful}
use blank_sr.Sessions.Data.{Session, Store, Codec, bucket, copy_session}
use blank_sr.Values.{is_string}

module _ {F : Type 0} where
  -- The second session is the first one but for its connections, its counter and its times.
  pub record Kept (x y : Session F) : Type 0 where
    pub api_key : y.api_key ≡ x.api_key
    pub access_token : y.access_token ≡ x.access_token
    pub ttl : y.ttl ≡ x.ttl
    pub user : (u : String) → is_string y.user_id u ≡ is_string x.user_id u

  pub Kept-refl : (x : Session F) → Kept x x
  Kept-refl x = record { api_key = refl; access_token = refl; ttl = refl; user = λ u. refl }

  pub Kept-trans : (x y z : Session F) → Kept x y → Kept y z → Kept x z
  Kept-trans x y z h k = record {
    api_key = k.api_key ∙ h.api_key;
    access_token = k.access_token ∙ h.access_token;
    ttl = k.ttl ∙ h.ttl;
    user = λ u. k.user u ∙ h.user u;
  }

  pub copy_session-Kept : (x : Session F) → Kept x (copy_session x)
  unfolding copy_session
  copy_session-Kept x = record { api_key = refl; access_token = refl; ttl = refl; user = λ u. refl }

-- encoding/json gives back what was encoded; an integer may come back as a floating-point number.
pub record IsFaithful {F Bytes : Type 0} (C : Codec F Bytes) : Type 0 where
  pub decodes :
      (x : Session F)
      → (y : Session F) × (C.unmarshal (C.marshal x) ≡ some y)
        × Kept x y
        × (y.created_at ≡ x.created_at)

module _ (D : Database) {F : Type 0} (C : Codec F D.Bytes) where
  -- The database holds a record of the session under its key, whose time of creation is lost.
  pub record Persisted (k : String) (x : Session F) (d : D.Db) : Type 0 where
    pub bytes : D.Bytes
    pub found : D.get bucket k d ≡ some bytes
    pub read : Session F
    pub decoded : C.unmarshal bytes ≡ some read
    pub kept : Kept x read
    pub undated : read.created_at ≡ 0

  -- The records of `pending` are in the database and not yet in memory.
  pub record InvWith (L : IsLawful D) (pending : Map String D.Bytes) (s : Store F D.Db)
      : Type 0 where
    pub keyed : (k : String) (p : ℕ) → lookup k s.sessions ≡ some p → (s.heap p).api_key ≡ k
    pub allocated : (k : String) (p : ℕ) → lookup k s.sessions ≡ some p → p < s.fresh
    pub storable : (k : String) (p : ℕ) → lookup k s.sessions ≡ some p → L.IsKey k
    pub stored : (k : String) (p : ℕ) → lookup k s.sessions ≡ some p → Persisted k (s.heap p) s.db
    pub gone : (k : String) → lookup k s.sessions ≡ none → D.get bucket k s.db ≡ lookup k pending
    pub waiting : (k : String) → lookup k pending ≢ none → lookup k s.sessions ≡ none

  -- Each session in memory has its record, and there are no other records.
  abbrev pub Inv : IsLawful D → Store F D.Db → Type 0
  Inv L = InvWith L []
