-- ===== src/Bdb/Emptied.antt =====
-- The bucket that `DeleteNested` empties.
use blank_sr.Base.{
  ◌≡◌, ◌∙◌, refl, ap, String, Bool, true, false, ◌&&◌, Option, none, some, List, [], ◌∷◌, ◌++◌,
  ◌==◌, if◌then◌else◌, nat_eq, length, ltb,
}
use blank_sr.Bdb.Bolt.{Bolt, update}
use blank_sr.Bdb.Nested.{
  all_exist, outer, last_of, drop_bucket, drop_if_empty, after_delete, delete_nested,
}
use blank_sr.Database.{Error, not_found}

module _ (B : Bolt) where
  outer-cons :
      (path : List String) (b c : String) (bs : List String) (t : B.Tx)
      → B.exists (path ++ (b ∷ [])) t ≡ false
      → outer B path (b ∷ c ∷ bs) t ≡ none
  unfolding outer
  outer-cons path b c bs t h = rw h refl

  stays :
      (b c : String) (bs : List String) (t : B.Tx)
      → B.exists ((b ∷ c ∷ bs) ++ (b ∷ [])) t ≡ false
      → drop_if_empty B b (c ∷ bs) t ≡ t
  unfolding drop_if_empty
  stays b c bs t h = go (B.key_n (b ∷ c ∷ bs) t == 0 && ltb 1 (length (b ∷ c ∷ bs)))
    where
      go :
          (e : Bool)
          → (if e
              then drop_bucket B (outer B (b ∷ c ∷ bs) (b ∷ c ∷ bs) t) (last_of B b (c ∷ bs)) t
              else t)
            ≡ t
      go true =
          ap (λ o. drop_bucket B o (last_of B b (c ∷ bs)) t) (outer-cons (b ∷ c ∷ bs) b c bs t h)
      go false = refl

  -- Where every bucket on the way to a key is there, and the innermost one has no bucket in it with
  -- the name of the outermost one, `DeleteNested` deletes the key and nothing else: the bucket stays
  -- even when it was emptied.
  pub emptied_bucket_stays :
      (key b c : String) (bs : List String) (s t : B.Tx)
      → all_exist B [] (b ∷ c ∷ bs) s ≡ true
      → B.delete (b ∷ c ∷ bs) key s ≡ (none, t)
      → B.exists ((b ∷ c ∷ bs) ++ (b ∷ [])) t ≡ false
      → B.commits s t ≡ true
      → delete_nested B key (b ∷ c ∷ bs) s ≡ (none, t)
  unfolding delete_nested
  emptied_bucket_stays key b c bs s t there gone apart commits =
      ap
        (λ e. update B s (
          if e
          then after_delete B b (c ∷ bs) (B.delete (b ∷ c ∷ bs) key s)
          else (some not_found, some not_found, s)))
        there
      ∙ ap (λ r. update B s (after_delete B b (c ∷ bs) r)) gone
      ∙ ap (λ u. update B {R = Option Error} s (none, none, u)) (stays b c bs t apart)
      ∙ ap (λ e. (none, if e then t else s)) commits
