-- ===== src/Tests/Tools.antt =====
-- utils/array/array.go, utils/rgx/rgx.go and the RSA keys of sessionstore/sessionstore.go.
use blank_sr.Base.{ℕ, ◌≡◌, ◌≢◌, refl, String, true, none, some, List, [], ◌∷◌, string_eq}
use blank_sr.Base.Map.{Map, lookup}
use blank_sr.Sessions.Keys.{
  Formats, Files, Keys, directory, ready, init_rsa_keys, unset, second_start_signs,
}
use blank_sr.Utils.Rgx.{Rgx, find_string_submatch_map}
use blank_sr.Utils.Rgx.Laws.{last_named, find_string_submatch_map_lem}
use blank_sr.Utils.Search.{text_le, index_of_sorted_strings}
use blank_sr.Utils.Sorted.{IsSorted, index_of_sorted_strings_lem}
use blank_sr.Utils.{in_array_string}

abbrev two_names : List String
two_names = "a" ∷ "b" ∷ []

two_names-IsSorted : IsSorted two_names
unfolding text_le
two_names-IsSorted = ((refl, tt), (tt, tt))

index_of_sorted_strings_lem_example :
    index_of_sorted_strings two_names "b" ≡ in_array_string two_names "b"
index_of_sorted_strings_lem_example = index_of_sorted_strings_lem two_names "b" two_names-IsSorted

-- Keys that are their own contents.
abbrev bare : Formats ℕ ℕ ℕ
bare = record {
  public = λ k. k;
  write_public = λ k. k;
  write_private = λ k. k;
  read_public = some;
  read_private = some;
}

abbrev empty : Files ℕ
empty = record { place = directory; writable = true; jwt_pub = none; jwt_key = none }

second_start_signs_example :
    (s : Keys ℕ ℕ ℕ) × (t : Keys ℕ ℕ ℕ) × (g : Files ℕ) × (init_rsa_keys bare
        (some 7)
        (unset bare)
        empty
      ≡ ready s g)
    × (s.private_key ≡ none)
    × (s.public_key ≡ some 7)
    × (init_rsa_keys bare none (unset bare) g ≡ ready t g)
    × (t.private_key ≡ some 7)
    × (t.public_key ≡ some 7)
second_start_signs_example = second_start_signs bare 7 none empty refl refl refl refl refl

-- The expression `(?P<y>\d+)-(?P<m>\d+)` on "2017-05".
abbrev dates : Rgx
dates = record {
  find_string_submatch = λ s. some ("2017-05" ∷ "2017" ∷ "05" ∷ []);
  subexp_names = "" ∷ "y" ∷ "m" ∷ [];
}

find_string_submatch_map_lem_example :
    (m : Map String String) × (find_string_submatch_map dates "2017-05" ≡ some (m, true))
    × ((k : String) → k ≢ "" → lookup k m ≡ last_named k ("y" ∷ "m" ∷ []) ("2017" ∷ "05" ∷ []) none)
find_string_submatch_map_lem_example =
    find_string_submatch_map_lem dates "2017-05" "2017-05" ("2017" ∷ "05" ∷ []) ("y" ∷ "m" ∷ [])
      refl refl refl
