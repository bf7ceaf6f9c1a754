-- ===== src/Bdb/Rollback.antt =====
-- Which writes leave the database as it was.
use blank_sr.Base.{
  ◌≡◌, refl, String, Bool, true, false, Option, none, some, List, [], ◌∷◌, if◌then◌else◌,
}
use blank_sr.Bdb.Bolt.{Bolt, Encoded, encoded, unencodable, update, update_unless_panic}
use blank_sr.Bdb.Increments.{
  Result, put_result, inc_object, inc_nil, inc_done, inc_stored, inc, increase_at, split_dot,
}
use blank_sr.Bdb.Nested.{all_exist, after_delete, delete_nested}
use blank_sr.Bdb.Writes.{same_error, delete, delete_bucket}
use blank_sr.Database.{Error}
use blank_sr.Values.{Fields}

module _ (B : Bolt) where
  -- The error of the result is the one that the transaction ends with.
  abbrev Tells : {R : Type 0} → (R → Option Error) → R × Option Error × B.Tx → Type 0
  Tells error x = error x.0 ≡ x.1

  after_delete-Tells :
      (b : String) (bs : List String) (p : Option Error × B.Tx)
      → Tells (λ o. o) (after_delete B b bs p)
  after_delete-Tells b bs (none, t) = refl
  after_delete-Tells b bs (some e, t) = refl

  module _ {F : Type 0} (add : F → F → F) where
    -- `Inc` ends its transaction with the error that it returns.
    put_result-Tells :
        (path : List String) (k : String) (fs : Fields F) (v : Encoded B.Bytes) (t : B.Tx)
        → Tells (λ r. r.1) (put_result B add path k fs v t)
    put_result-Tells path k fs (encoded v) t = refl
    put_result-Tells path k fs (unencodable e) t = refl

    -- A call that changes the database and returns its error: the buckets and keys, for `Inc` also
    -- the decoder, the encoder, the path and the number.
    pub data Write : Type 0 where
      deletes : String → String → Write
      deletes_nested : String → List String → Write
      deletes_bucket : String → Write
      increases :
          (B.Bytes → Option (Fields F) × Option Error)
          → (Fields F → Encoded B.Bytes)
          → String
          → String
          → String
          → F
          → Write

    abbrev pub with_error : Option (Result B add × B.Tx) → Option (Option Error × B.Tx)
    with_error none = none
    with_error (some (r, t)) = some (r.1, t)

    -- What the call returns, and the database after it; `none` for a panic.
    unfoldable pub run : Write → B.Tx → Option (Option Error × B.Tx)
    unfolding delete delete_nested delete_bucket inc
    run (deletes b k) s = some (delete B b k s)
    run (deletes_nested k bs) s = some (delete_nested B k bs s)
    run (deletes_bucket b) s = some (delete_bucket B b s)
    run (increases decode encode b k prop n) s = with_error (inc B add decode encode b k prop n s)

    AllTell : Option (Result B add × Option Error × B.Tx) → Type 0
    AllTell none = Unit {0}
    AllTell (some x) = Tells (λ r. r.1) x

    inc_nil-AllTell : (names : List String) (t : B.Tx) → AllTell (inc_nil B add names t)
    unfolding AllTell
    inc_nil-AllTell [] t = tt
    inc_nil-AllTell (p ∷ []) t = tt
    inc_nil-AllTell (p ∷ q ∷ names) t = refl

    module _ (encode : Fields F → Encoded B.Bytes) (path : List String) (k prop : String)
        (n : F) where
      inc_done-Tells :
          (fs : Fields F) (o : Option (Fields F)) (t : B.Tx)
          → Tells (λ r. r.1) (inc_done B add encode path k fs o t)
      inc_done-Tells fs none t = refl
      inc_done-Tells fs (some new) t = put_result-Tells path k new (encode new) t

      inc_object-AllTell :
          (r : Result B add) (t : B.Tx) → AllTell (inc_object B add encode path k prop n r t)
      unfolding AllTell
      inc_object-AllTell (m, some e) t = refl
      inc_object-AllTell (none, none) t = inc_nil-AllTell (split_dot prop) t
      inc_object-AllTell (some fs, none) t =
          inc_done-Tells fs (increase_at add n prop (split_dot prop) fs) t

      inc_stored-AllTell :
          (decode : B.Bytes → Option (Fields F) × Option Error) (v : Option B.Bytes) (t : B.Tx)
          → AllTell (inc_stored B add decode encode path k prop n v t)
      unfolding AllTell
      inc_stored-AllTell decode none t = refl
      inc_stored-AllTell decode (some v) t = inc_object-AllTell (decode v) t

    update-AllTell :
        (s t : B.Tx) (o : Option (Result B add × Option Error × B.Tx)) (e : Error)
        → AllTell o
        → with_error (update_unless_panic B s o) ≡ some (some e, t)
        → t ≡ s
    unfolding AllTell
    update-AllTell s t none e tells h = cc
    update-AllTell s t (some (r, none, u)) e tells h = cc
    update-AllTell s t (some (r, some f, u)) e tells h = cc

    AllTell-if :
        (b : Bool) (x y : Option (Result B add × Option Error × B.Tx))
        → AllTell x
        → AllTell y
        → AllTell (if b then x else y)
    AllTell-if true x y p q = p
    AllTell-if false x y p q = q

    update-Tells :
        (s t : B.Tx) (x : Option Error × Option Error × B.Tx) (e : Error)
        → Tells (λ o. o) x
        → some (update B s x) ≡ some (some e, t)
        → t ≡ s
    update-Tells s t (r, none, u) e same h = cc
    update-Tells s t (r, some f, u) e same h = cc

    Tells-if :
        (b : Bool) (x y : Option Error × Option Error × B.Tx)
        → Tells (λ o. o) x
        → Tells (λ o. o) y
        → Tells (λ o. o) (if b then x else y)
    Tells-if true x y p q = p
    Tells-if false x y p q = q

    -- Whenever `Delete`, `DeleteNested`, `DeleteBucket` or `Inc` returns an error, the database is as
    -- it was before.
    pub failed_write_keeps :
        (w : Write) (s t : B.Tx) (e : Error) → run w s ≡ some (some e, t) → t ≡ s
    unfolding run AllTell
    failed_write_keeps (deletes b k) s t e h =
        update-Tells s t _ e (Tells-if (B.exists (b ∷ []) s) _ _ refl refl) h
    failed_write_keeps (deletes_nested k []) s t e h = cc
    failed_write_keeps (deletes_nested k (b ∷ bs)) s t e h =
        update-Tells s t _ e
          (Tells-if (all_exist B [] (b ∷ bs) s) _ _
            (after_delete-Tells b bs (B.delete (b ∷ bs) k s)) refl)
          h
    failed_write_keeps (deletes_bucket b) s t e h =
        update-Tells s t (same_error B (B.delete_bucket (b ∷ []) s)) e refl h
    failed_write_keeps (increases decode encode b k prop n) s t e h =
        update-AllTell s t _ e
          (AllTell-if (B.exists (b ∷ []) s)
            (inc_stored B add decode encode (b ∷ []) k prop n (B.get (b ∷ []) k s) s) _
            (inc_stored-AllTell encode (b ∷ []) k prop n decode (B.get (b ∷ []) k s) s) refl)
          h
