-- ===== src/Tests/Buckets.antt =====
-- bdb/bdb.go over a Bolt in memory.
use blank_sr.Base.{true, false, ℕ, ◌+◌, ◌≡◌, refl, String, none, some, [], ◌∷◌, string_eq, nat_eq}
use blank_sr.Bdb.Emptied.{emptied_bucket_stays}
use blank_sr.Bdb.Increments.{increase_at, set_field, split_dot}
use blank_sr.Bdb.Laws.{IsName}
use blank_sr.Bdb.Nested.{outer, delete_nested, all_exist}
use blank_sr.Bdb.Refinement.{database, database-IsLawful}
use blank_sr.Bdb.Rollback.{Write, deletes_nested, run, failed_write_keeps}
use blank_sr.Database.{IsLawful, not_found}
use blank_sr.Values.{Fields, field, number, object}
use blank_sr.Tests.Files.{Buckets, in_memory, in_memory-IsBolt, nested}

database-IsLawful_example :
    (laws : IsLawful (database (in_memory ℕ) (in_memory-IsBolt ℕ))) × ((k : String)
      → IsName k
      → laws.IsKey k)
database-IsLawful_example = database-IsLawful (in_memory ℕ) (in_memory-IsBolt ℕ)

abbrev empty : Buckets ℕ
empty b = []

-- There is a bucket "a", but no bucket "b" in it.
abbrev write : Write (in_memory ℕ) (λ (x y : ℕ). x + y)
write = deletes_nested "k" ("a" ∷ "b" ∷ [])

refused : run (in_memory ℕ) (λ (x y : ℕ). x + y) write empty ≡ some (some not_found, empty)
unfolding run delete_nested all_exist
refused = refl

failed_write_keeps_example : empty ≡ empty
failed_write_keeps_example =
    failed_write_keeps (in_memory ℕ) (λ x y. x + y) write empty empty not_found refused

counts_up :
    increase_at
      (λ (x y : ℕ). x + y)
      2
      "visits"
      (split_dot "visits")
      (field "visits" (number 3) Fields.end)
    ≡ some (field "visits" (number 5) Fields.end)
unfolding split_dot set_field string_eq nat_eq
counts_up = refl

-- The third name of the path is ignored.
counts_up_below :
    increase_at
      (λ (x y : ℕ). x + y)
      1
      "a.b.c"
      (split_dot "a.b.c")
      (field "a" (object Fields.end) Fields.end)
    ≡ some (field "a" (object (field "b" (number 1) Fields.end)) Fields.end)
unfolding split_dot set_field string_eq nat_eq
counts_up_below = refl

-- After the last key of "a"/"b" the second loop looks for "a"/"b"/"a".
keeps_emptied : outer (in_memory ℕ) ("a" ∷ "b" ∷ []) ("a" ∷ "b" ∷ []) empty ≡ none
unfolding outer
keeps_emptied = refl

on_the_way : all_exist nested [] ("a" ∷ "b" ∷ []) true ≡ true
unfolding all_exist string_eq
on_the_way = refl

no_namesake : nested.exists ("a" ∷ "b" ∷ "a" ∷ []) false ≡ false
no_namesake = refl

emptied_bucket_stays_example : delete_nested nested "k" ("a" ∷ "b" ∷ []) true ≡ (none, false)
emptied_bucket_stays_example =
    emptied_bucket_stays nested "k" "a" "b" [] true false on_the_way refl no_namesake refl
