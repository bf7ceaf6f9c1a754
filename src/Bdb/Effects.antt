-- ===== src/Bdb/Effects.antt =====
-- What the methods do to the pairs of the buckets at the top.
use blank_sr.Base.{
  ◌≡◌, ◌≢◌, ◌∙◌, ap, sym, refl, subst, String, Bool, true, false, ◌&&◌, Option, none, some, List,
  [], ◌∷◌, ◌==◌, if◌then◌else◌, string_eq, arith, Bool-cases, inl, inr,
}
use blank_sr.Base.Map.{lookup, lookup-nil}
use blank_sr.Bdb.Bolt.{Bolt, encoded, update}
use blank_sr.Bdb.Laws.{IsName, joined, held, Flat, IsBolt}
use blank_sr.Bdb.Reads as Reads
use blank_sr.Bdb.Writes.{put_created, save, same_error, delete, delete_bucket}
use blank_sr.Database.{Error}

module _ (B : Bolt) (L : IsBolt B) where
  -- A transaction that ends without an error.
  update-none :
      {R : Type 0} (s : B.Tx) (x : R × Option Error × B.Tx) → x.1 ≡ none → update B s x ≡ (x.0, x.2)
  update-none s (r, none, t) h = rw (L.commit s t) refl
  update-none s (r, some e, t) h = cc

  update-some :
      {R : Type 0} (s : B.Tx) (x : R × Option Error × B.Tx) (e : Error)
      → x.1 ≡ some e
      → update B s x ≡ (x.0, s)
  update-some s (r, none, t) e h = cc
  update-some s (r, some f, t) e h = refl

  -- `Get` in terms of the pairs.
  pub get-joined : (b k : String) (s : B.Tx) → Reads.get B b k s ≡ joined (held B b k s)
  unfolding Reads.get
  get-joined b k s = elim (Bool-cases (B.exists (b ∷ []) s)) [
    | inl h ↦ rw h (L.get-held b k s)
    | inr h ↦ rw (h, L.missing b s h) (sym (ap joined (lookup-nil {V = Option B.Bytes} k)))
  ]

  missing-none : (b j : String) (s : B.Tx) → B.exists (b ∷ []) s ≡ false → held B b j s ≡ none
  missing-none b j s h = ap (lookup j) (L.missing b s h) ∙ lookup-nil j

  missing-held :
      (b c k j : String) (s : B.Tx)
      → B.exists (b ∷ []) s ≡ false
      → held B c j s ≡ (if b == c && k == j then none else held B c j s)
  missing-held b c k j s h = ground (arith, missing-none b j s h)

  gone-held :
      (b c j : String) (s : B.Tx)
      → B.exists (b ∷ []) s ≡ false
      → held B c j s ≡ (if b == c then none else held B c j s)
  gone-held b c j s h = ground (arith, missing-none b j s h)

  put_created-none :
      (path : List String) (k : String) (v : B.Bytes) (p : Option Error × B.Tx)
      → p.0 ≡ none
      → put_created B path k v p ≡ (none, (B.put path k v p.1).0, (B.put path k v p.1).1)
  put_created-none path k v (none, t) h = refl
  put_created-none path k v (some e, t) h = cc

  module _ (b k : String) (s : B.Tx) (flat : Flat B s) where
    -- `Save` with a name and a key that Bolt takes.
    pub save-held :
        (v : B.Bytes) (c j : String)
        → IsName b
        → IsName k
        → held B c j (save B b k (encoded v) s).1
          ≡ (if b == c && k == j then some (some v) else held B c j s)
    unfolding save
    save-held v c j name key =
        let t = (B.create (b ∷ []) s).1 in
        let (made, there) = L.create_lem b s name in
        let created = put_created-none (b ∷ []) k v (B.create (b ∷ []) s) made in
        let fine = L.put_lem b k v t there key (λ h. flat b k (sym (L.create-held b b k s) ∙ h)) in
        ap (λ x. held B c j x.1)
          (ap (update B s) created
            ∙ update-none s (none, (B.put (b ∷ []) k v t).0, (B.put (b ∷ []) k v t).1) fine)
        ∙ L.put-held b k v t c j fine
        ∙ ap (λ o. if b == c && k == j then some (some v) else o) (L.create-held b c j s)

    pub delete-held :
        (c j : String)
        → held B c j (delete B b k s).1 ≡ (if b == c && k == j then none else held B c j s)
    unfolding delete
    delete-held c j = elim (Bool-cases (B.exists (b ∷ []) s)) [
      | inl h ↦
          let fine = L.delete_lem b k s (flat b k) in
          rw h (
            ap (λ x. held B c j x.1) (update-none s (same_error B (B.delete (b ∷ []) k s)) fine)
            ∙ L.delete-held b k s c j fine)
      | inr h ↦ rw h (missing-held b c k j s h)
    ]

  pub delete_bucket-held :
      (b : String) (s : B.Tx) (c j : String)
      → held B c j (delete_bucket B b s).1 ≡ (if b == c then none else held B c j s)
  unfolding delete_bucket
  delete_bucket-held b s c j = elim (Bool-cases (B.exists (b ∷ []) s)) [
    | inl h ↦
        let fine = L.delete_bucket_lem b s h in
        ap (λ x. held B c j x.1) (update-none s (same_error B (B.delete_bucket (b ∷ []) s)) fine)
        ∙ L.delete_bucket-held b s c j fine
    | inr h ↦
        let (e, fails) = L.delete_bucket_missing b s h in
        ap (λ x. held B c j x.1) (update-some s (same_error B (B.delete_bucket (b ∷ []) s)) e fails)
        ∙ gone-held b c j s h
  ]

  -- What holds before a transaction and where it ends without an error holds after it.
  update-either :
      {R : Type 0} (P : B.Tx → Type 0) (s : B.Tx) (x : R × Option Error × B.Tx)
      → P s
      → (x.1 ≡ none → P x.2)
      → P (update B s x).1
  update-either P s (r, none, t) p q = rw (L.commit s t) (q refl)
  update-either P s (r, some e, t) p q = p

  flat_if :
      (t : Bool) (x y : Option (Option B.Bytes))
      → x ≢ some none
      → y ≢ some none
      → (if t then x else y) ≢ some none
  flat_if true x y f g = f
  flat_if false x y f g = g

  put_created-Flat :
      (b k : String) (v : B.Bytes) (p : Option Error × B.Tx)
      → Flat B p.1
      → (put_created B (b ∷ []) k v p).1 ≡ none
      → Flat B (put_created B (b ∷ []) k v p).2
  put_created-Flat b k v (none, t) flat h = λ c j.
      subst (λ o. o ≢ some none) (sym (L.put-held b k v t c j h))
        (flat_if (b == c && k == j) (some (some v)) (held B c j t) (λ e. cc) (flat c j))
  put_created-Flat b k v (some e, t) flat h = cc

  pub save-Flat :
      (b k : String) (v : B.Bytes) (s : B.Tx) → Flat B s → Flat B (save B b k (encoded v) s).1
  unfolding save
  save-Flat b k v s flat =
      update-either (Flat B) s (put_created B (b ∷ []) k v (B.create (b ∷ []) s)) flat (
        put_created-Flat b k v (B.create (b ∷ []) s)
          (λ c j h. flat c j (sym (L.create-held b c j s) ∙ h)))

  pub delete-Flat : (b k : String) (s : B.Tx) → Flat B s → Flat B (delete B b k s).1
  delete-Flat b k s flat c j =
      subst (λ o. o ≢ some none) (sym (delete-held b k s flat c j))
        (flat_if (b == c && k == j) none (held B c j s) (λ e. cc) (flat c j))

  pub delete_bucket-Flat : (b : String) (s : B.Tx) → Flat B s → Flat B (delete_bucket B b s).1
  delete_bucket-Flat b s flat c j =
      subst (λ o. o ≢ some none) (sym (delete_bucket-held b s c j))
        (flat_if (b == c) none (held B c j s) (λ e. cc) (flat c j))
