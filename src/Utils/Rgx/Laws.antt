-- ===== src/Utils/Rgx/Laws.antt =====
-- The map of the groups against the groups themselves.
use blank_sr.Base.{
  ℕ, suc, ◌+◌, ◌≡◌, ◌≢◌, ◌∙◌, refl, ap, String, Bool, true, false, ◌||◌, Option, none, some, List,
  [], ◌∷◌, ◌==◌, if◌then◌else◌, string_eq, nat_eq, get_elem?, length, arith,
}
use blank_sr.Base.Map.{Map, lookup, insert, lookup-insert, lookup-nil}
use blank_sr.Utils.Rgx.{Rgx, captured, capture, find_string_submatch_map}

-- The last of the groups of a name, and what there is if none has it.
abbrev pub last_named : String → List String → List String → Option String → Option String
last_named k (name ∷ names) (group ∷ groups) o =
    last_named k names groups (if name == k then some group else o)
last_named k _ _ o = o

abbrev Captures : ℕ → List String → List String → List String → Map String String → Type 0
Captures i names groups match m =
    (r : Map String String) × (capture i names match (some m) ≡ some r)
    × ((k : String) → k ≢ "" → lookup k r ≡ last_named k names groups (lookup k m))

-- One more name, when the rest of the loop does what it should from any map.
capture_one :
    (i : ℕ) (name g : String) (names groups match : List String) (m : Map String String) (b : Bool)
    → (suc i == 0 || name == "") ≡ b
    → get_elem? match (suc i) ≡ some g
    → ((m' : Map String String) → Captures (suc (suc i)) names groups match m')
    → (r : Map String String) × (capture
          (suc (suc i))
          names
          match
          (captured b name (get_elem? match (suc i)) m)
        ≡ some r)
      × ((k : String) → k ≢ "" → lookup k r ≡ last_named k (name ∷ names) (g ∷ groups) (lookup k m))
capture_one i name g names groups match m true e first rest =
    let (r, runs, all) = rest m in
    (r, runs, λ k ne. all k ne ∙ ap (last_named k names groups) (unnamed k ne))
  where
    unnamed : (k : String) → k ≢ "" → lookup k m ≡ (if name == k then some g else lookup k m)
    unnamed k ne = ground arith
capture_one i name g names groups match m false e first rest =
    let (r, runs, all) = rest (insert name g m) in
    (
      r,
      ap (λ o. capture (suc (suc i)) names match (captured false name o m)) first ∙ runs,
      λ k ne. all k ne ∙ ap (last_named k names groups) (lookup-insert name k g m),
    )

capture_tail :
    (i : ℕ) (names groups match : List String) (m : Map String String)
    → length names ≡ length groups
    → ((n : ℕ) → get_elem? match (suc i + n) ≡ get_elem? groups n)
    → Captures (suc i) names groups match m
unfolding capture
capture_tail i [] groups match m same at = (m, refl, λ k ne. refl)
capture_tail i (name ∷ names) [] match m same at = absurd (omega (arith, same))
capture_tail i (name ∷ names) (g ∷ groups) match m same at =
    capture_one i name g names groups match m (suc i == 0 || name == "") refl
      (ap (get_elem? match) (omega arith) ∙ at 0)
      (λ m'.
        capture_tail (suc i) names groups match m' (omega (arith, same))
          (λ n. ap (get_elem? match) (omega arith) ∙ at (suc n)))

whole_skipped :
    (names match : List String) (m : Map String String)
    → capture 0 ("" ∷ names) match (some m) ≡ capture 1 names match (some m)
unfolding capture nat_eq
whole_skipped names match m = refl

submatch_map :
    (r : Rgx) (s : String) (match : List String) (m : Map String String)
    → r.find_string_submatch s ≡ some match
    → capture 0 r.subexp_names match (some []) ≡ some m
    → find_string_submatch_map r s ≡ some (m, true)
unfolding find_string_submatch_map
submatch_map r s match m found runs = ground arith

-- For a match that has one group for each name, the whole match being the first and without a name,
-- `FindStringSubmatchMap` returns true, without a panic, and the value of a name is the last of the
-- groups that bear it.
pub find_string_submatch_map_lem :
    (r : Rgx) (s whole : String) (groups names : List String)
    → r.find_string_submatch s ≡ some (whole ∷ groups)
    → r.subexp_names ≡ "" ∷ names
    → length names ≡ length groups
    → (m : Map String String) × (find_string_submatch_map r s ≡ some (m, true))
      × ((k : String) → k ≢ "" → lookup k m ≡ last_named k names groups none)
find_string_submatch_map_lem r s whole groups names found named same =
    let (m, runs, all) =
      capture_tail 0 names groups (whole ∷ groups) [] same
        (λ n. ap (get_elem? (whole ∷ groups)) {y = suc n} (omega arith)) in
    (
      m,
      submatch_map r s (whole ∷ groups) m found (
          ap (λ ns. capture 0 ns (whole ∷ groups) (some [])) named
          ∙ whole_skipped names (whole ∷ groups) []
          ∙ runs),
      λ k ne. all k ne ∙ ap (last_named k names groups) (lookup-nil k),
    )
