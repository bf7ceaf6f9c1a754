-- ===== src/Sessions/Loading.antt =====
-- `loadSessions` when the service starts again.
use blank_sr.Base.{
  ℕ, ◌≡◌, ◌≢◌, String, none, some, List, [], ◌∷◌, refl, ap, arith, ◌==◌, if◌then◌else◌, string_eq,
  nat_eq, inl, inr, ltb, Bool-cases,
}
use blank_sr.Base.Map.{Map, lookup, insert}
use blank_sr.Database.{Database, IsLawful, values, NodupKeys}
use blank_sr.Sessions.Additions.{added-Inv}
use blank_sr.Sessions.Data.{Session, Store, Codec, bucket, copy_session}
use blank_sr.Sessions.Invariant.{Kept-refl, IsFaithful, Inv, InvWith}
use blank_sr.Sessions.Records.{deleted-Persisted, write_self, write_ne}
use blank_sr.Sessions.Store.{delete_stored, load_fresh, load_one, load_each}

-- The session as it is put back: with no connection.
abbrev pub reset : {F : Type 0} → Session F → Session F
reset y = record y { connections = [] }

pub lookup-cons :
    {B : Type 0} (k : String) (b : B) (m : Map String B) (j : String)
    → lookup j ((k, b) ∷ m) ≡ (if k == j then some b else lookup j m)
unfolding lookup
lookup-cons k b m j = refl

module _ (D : Database) (L : IsLawful D) {F : Type 0} (C : Codec F D.Bytes)
    (faithful : IsFaithful C) where
  abbrev S : Type 0
  S = Store F D.Db

  -- Each record of the list is a session with the key under which it is stored.
  abbrev pub Readable : Map String D.Bytes → Type 0
  Readable [] = Unit {0}
  Readable ((k, b) ∷ m) =
      ((y : Session F) × (C.unmarshal b ≡ some y) × (y.api_key ≡ k) × L.IsKey k) × Readable m

  module _ (k : String) (b : D.Bytes) (m : Map String D.Bytes) (y : Session F) (t : S)
      (v : InvWith D C L ((k, b) ∷ m) t) (free : lookup k m ≡ none) (own : y.api_key ≡ k) where
    rest : (j : String) → lookup j m ≡ (if k == j then none else lookup j ((k, b) ∷ m))
    rest j = ground (arith, lookup-cons k b m j)

    unread : lookup k t.sessions ≡ none
    unread = v.waiting k (λ e. ground (arith, lookup-cons k b m k))

    other : (j : String) (q : ℕ) → lookup j t.sessions ≡ some q → k ≢ j
    other j q h e = ground (arith, unread)

    expired-Inv : InvWith D C L m (delete_stored D C y.api_key t)
    expired-Inv = record {
      keyed = v.keyed;
      allocated = v.allocated;
      storable = v.storable;
      stored = λ j q h.
          rw own
            (deleted-Persisted D L C faithful k (t.heap q) j t.db (other j q h) (v.stored j q h));
      gone =
          λ j h. rw own (ground (arith, L.get-delete bucket k t.db bucket j, v.gone j h, rest j));
      waiting = λ j h. v.waiting j (λ e. h (ground (arith, lookup-cons k b m j)));
    }

    fresh-Inv : L.IsKey k → InvWith D C L m (load_fresh D C (reset y) t)
    unfolding load_fresh copy_session
    fresh-Inv key =
        added-Inv D L C faithful ((k, b) ∷ m) m t (load_fresh D C (reset y) t) k (reset y) v rest
          own key (ap (λ i. insert i t.fresh t.sessions) own) refl
          (rw (write_self t.heap t.fresh (reset y)))
          (rw (write_self t.heap t.fresh (reset y)) (Kept-refl (reset y)))
          (λ q ne. write_ne t.heap t.fresh q (reset y) ne)

  load_one-Inv :
      (now : ℕ) (k : String) (b : D.Bytes) (m : Map String D.Bytes) (y : Session F) (t : S)
      → InvWith D C L ((k, b) ∷ m) t
      → lookup k m ≡ none
      → y.api_key ≡ k
      → L.IsKey k
      → InvWith D C L m (load_one D C now (some y) t)
  unfolding load_one
  load_one-Inv now k b m y t v free own key = elim (Bool-cases (ltb y.ttl now)) [
    | inl old ↦ rw old (expired-Inv k b m y t v free own)
    | inr young ↦ rw young (fresh-Inv k b m y t v free own key)
  ]

  pub load_each-cons :
      (now : ℕ) (b : D.Bytes) (bs : List D.Bytes) (t : S) (y : Session F)
      → C.unmarshal b ≡ some y
      → load_each D C now (b ∷ bs) t ≡ load_each D C now bs (load_one D C now (some y) t)
  unfolding load_each
  load_each-cons now b bs t y e = rw e

  pub load_each-nil : (now : ℕ) (t : S) → load_each D C now [] t ≡ t
  unfolding load_each
  load_each-nil now t = refl

  pub load_each-Inv :
      (now : ℕ) (m : Map String D.Bytes) (t : S)
      → NodupKeys m
      → Readable m
      → InvWith D C L m t
      → Inv D C L (load_each D C now (values m) t)
  load_each-Inv now [] t d r v = rw load_each-nil v
  load_each-Inv now ((k, b) ∷ m) t d r v =
      let (y, e, own, key) = r.0 in
      rw (load_each-cons now b (values m) t y e) (
        load_each-Inv now m (load_one D C now (some y) t) d.1 r.1
          (load_one-Inv now k b m y t v d.0 own key))
