-- ===== src/Tests/Memory.antt =====
-- A database in memory that keeps the laws of `Database`, and an encoder that keeps sessions as they are.
use blank_sr.Base.{
  ℕ, Bool, true, false, ◌≡◌, refl, ◌∙◌, String, none, some, [], ◌∷◌, arith, ◌==◌, if◌then◌else◌,
  string_eq,
}
use blank_sr.Base.Map.{Map, lookup, lookup-nil, insert, erase, lookup-insert, lookup-erase}
use blank_sr.Database.{Database, IsLawful, values, NodupKeys}
use blank_sr.Sessions.Data.{Session, Codec}
use blank_sr.Sessions.Invariant.{IsFaithful, Kept-refl}

abbrev pub Bytes : Type 0
Bytes = Session ℕ

abbrev pub Db : Type 0
Db = String → Map String Bytes

module _ {V : Type 0} where
  unfoldable pub distinct : Map String V → Map String V
  distinct [] = []
  distinct ((k, v) ∷ m) = (k, v) ∷ erase k (distinct m)

  lookup-cons :
      (k j : String) (v : V) (m : Map String V)
      → lookup j ((k, v) ∷ m) ≡ (if k == j then some v else lookup j m)
  unfolding lookup
  lookup-cons k j v m = refl

  erase-cons :
      (k j : String) (v : V) (m : Map String V)
      → erase k ((j, v) ∷ m) ≡ (if j == k then erase k m else (j, v) ∷ erase k m)
  unfolding erase
  erase-cons k j v m = refl

  pub lookup-distinct : (m : Map String V) (k : String) → lookup k (distinct m) ≡ lookup k m
  unfolding distinct
  lookup-distinct [] k = refl
  lookup-distinct ((j, v) ∷ m) k =
      lookup-cons j k v (erase j (distinct m))
      ∙ ground (arith, lookup-cons j k v m, lookup-erase j k (distinct m), lookup-distinct m k)

  NodupKeys-if :
      (drops : Bool) (k : String) (v : V) (m : Map String V)
      → lookup k m ≡ none
      → NodupKeys m
      → NodupKeys (if drops then m else (k, v) ∷ m)
  NodupKeys-if true k v m h t = t
  NodupKeys-if false k v m h t = (h, t)

  NodupKeys-erase : (k : String) (m : Map String V) → NodupKeys m → NodupKeys (erase k m)
  unfolding erase
  NodupKeys-erase k [] h = tt
  NodupKeys-erase k ((j, v) ∷ m) (h, t) =
      NodupKeys-if (j == k) j v (erase k m) (ground (arith, lookup-erase k j m))
        (NodupKeys-erase k m t)

  pub NodupKeys-distinct : (m : Map String V) → NodupKeys (distinct m)
  unfolding distinct
  NodupKeys-distinct [] = tt
  NodupKeys-distinct ((k, v) ∷ m) = (
    ground (arith, lookup-erase k k (distinct m)),
    NodupKeys-erase k (distinct m) (NodupKeys-distinct m),
  )

abbrev pub memory : Database
memory = record {
  Db = Db;
  Bytes = Bytes;
  save = λ b k v d. (none, λ c. if b == c then insert k v (d c) else d c);
  delete = λ b k d. (none, λ c. if b == c then erase k (d c) else d c);
  delete_bucket = λ b d. (none, λ c. if b == c then [] else d c);
  get = λ b k d. lookup k (d b);
  get_all = λ b d. some (values (distinct (d b)));
}

pub memory-IsLawful : IsLawful memory
memory-IsLawful = record {
  IsKey = λ k. Unit {0};
  IsBucket = λ b. Unit {0};
  sessions = tt;
  items = tt;
  get-save = λ b k v d c j is_bucket h. ground (arith, lookup-insert k j v (d c));
  get-delete = λ b k d c j. ground (arith, lookup-erase k j (d c));
  get-delete_bucket = λ b d c j. ground (arith, lookup-nil {V = Bytes} j);
  listing = λ b d. (distinct (d b), NodupKeys-distinct (d b), lookup-distinct (d b), refl);
}

abbrev pub plain : Codec ℕ Bytes
plain = record { marshal = λ x. x; unmarshal = some }

pub any_key : (k : String) → memory-IsLawful.IsKey k
unfolding memory-IsLawful
any_key k = tt

pub plain-IsFaithful : IsFaithful plain
plain-IsFaithful = record { decodes = λ x. (x, refl, Kept-refl x, refl) }
