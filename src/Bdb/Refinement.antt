-- ===== src/Bdb/Refinement.antt =====
-- `DB` over Bolt as the database of the session store and the local storage.
use blank_sr.Base.{
  ◌≡◌, ◌∙◌, ap, sym, refl, String, Option, none, some, [], ◌∷◌, string_eq, arith, Bool-cases, inl,
  inr, or_else, map,
}
use blank_sr.Base.Map.{Map, lookup, lookup-nil}
use blank_sr.Base.Merging.{lookup-cons}
use blank_sr.Bdb.Bolt.{Bolt, encoded}
use blank_sr.Bdb.Effects.{
  get-joined, save-held, delete-held, delete_bucket-held, save-Flat, delete-Flat,
  delete_bucket-Flat,
}
use blank_sr.Bdb.Laws.{IsName, joined, Flat, IsBolt}
use blank_sr.Bdb.Reads.{stored, items, get_all}
use blank_sr.Bdb.Reads as Reads
use blank_sr.Bdb.Writes.{save, delete, delete_bucket}
use blank_sr.Database.{Database, IsLawful, NodupKeys, values}

module _ {V : Type 0} where
  lookup-stored :
      (j : String) (cs : Map String (Option V))
      → NodupKeys cs
      → lookup j (stored cs) ≡ joined (lookup j cs)
  lookup-stored j [] n = lookup-nil j ∙ sym (ap joined (lookup-nil {V = Option V} j))
  lookup-stored j ((k, none) ∷ cs) (fresh, n) =
      ground (arith, lookup-stored j cs n, lookup-cons j k none cs, fresh)
  lookup-stored j ((k, some v) ∷ cs) (fresh, n) =
      ground
        (arith, lookup-stored j cs n, lookup-cons j k (some v) cs, lookup-cons j k v (stored cs))

  NodupKeys-stored : (cs : Map String (Option V)) → NodupKeys cs → NodupKeys (stored cs)
  NodupKeys-stored [] n = tt
  NodupKeys-stored ((k, none) ∷ cs) (fresh, n) = NodupKeys-stored cs n
  NodupKeys-stored ((k, some v) ∷ cs) (fresh, n) =
      (lookup-stored k cs n ∙ ap joined fresh, NodupKeys-stored cs n)

  map-values : (m : Map String V) → map (λ kv. kv.1) m ≡ values m
  map-values [] = refl
  map-values ((k, v) ∷ m) = ap (λ vs. v ∷ vs) (map-values m)

module _ (B : Bolt) (L : IsBolt B) where
  -- The states without nested buckets, and the methods on them.
  abbrev pub database : Database
  database = record {
    Db = (s : B.Tx) × Flat B s;
    Bytes = B.Bytes;
    save = λ b k v d. (
      (save B b k (encoded v) d.0).0,
      ((save B b k (encoded v) d.0).1, save-Flat B L b k v d.0 d.1),
    );
    delete = λ b k d. ((delete B b k d.0).0, ((delete B b k d.0).1, delete-Flat B L b k d.0 d.1));
    delete_bucket = λ b d.
        ((delete_bucket B b d.0).0, ((delete_bucket B b d.0).1, delete_bucket-Flat B L b d.0 d.1));
    get = λ b k d. Reads.get B b k d.0;
    get_all = λ b d. get_all B b d.0;
  }

  or_else-get_all : (b : String) (s : B.Tx) → or_else (get_all B b s) [] ≡ values (items B b s)
  unfolding get_all
  or_else-get_all b s = elim (Bool-cases (B.exists (b ∷ []) s)) [
    | inl h ↦ rw h (map-values (items B b s))
    | inr h ↦ rw (h, L.missing b s h) refl
  ]

  -- `Save`, `Delete`, `DeleteBucket`, `Get` and `GetAll` over Bolt behave as the session store and
  -- the local storage rely on, for keys of 1 to 32768 bytes and buckets without nested ones, if Bolt
  -- does what it documents and no I/O fails.
  pub database-IsLawful : (laws : IsLawful database) × ((k : String) → IsName k → laws.IsKey k)
  database-IsLawful = (
    record {
      IsKey = IsName;
      IsBucket = IsName;
      sessions = (omega arith, omega arith);
      items = (omega arith, omega arith);
      get-save = λ b k v d c j name key.
          get-joined B L c j (save B b k (encoded v) d.0).1
          ∙ ground (arith, save-held B L b k d.0 d.1 v c j name key, get-joined B L c j d.0);
      get-delete = λ b k d c j.
          get-joined B L c j (delete B b k d.0).1
          ∙ ground (arith, delete-held B L b k d.0 d.1 c j, get-joined B L c j d.0);
      get-delete_bucket = λ b d c j.
          get-joined B L c j (delete_bucket B b d.0).1
          ∙ ground (arith, delete_bucket-held B L b d.0 c j, get-joined B L c j d.0);
      listing = λ b d. (
        items B b d.0,
        NodupKeys-stored (B.cursor (b ∷ []) d.0) (L.distinct b d.0),
        λ k.
            lookup-stored k (B.cursor (b ∷ []) d.0) (L.distinct b d.0)
            ∙ sym (get-joined B L b k d.0),
        or_else-get_all b d.0,
      );
    },
    λ k name. name,
  )
