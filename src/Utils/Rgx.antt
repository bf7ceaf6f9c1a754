-- ===== src/Utils/Rgx.antt =====
-- utils/rgx/rgx.go: the named groups of a match. Go's regular expressions are a parameter.
pub mod Laws
use blank_sr.Base.{
  ℕ, suc, String, Bool, true, false, ◌||◌, Option, none, some, List, [], ◌∷◌, ◌==◌, if◌then◌else◌,
  string_eq, nat_eq, get_elem?,
}
use blank_sr.Base.Map.{Map, insert}

-- `regexp.Regexp`, from `FindStringSubmatch`, which may return nil, and `SubexpNames`.
pub record Rgx : Type 0 where
  pub find_string_submatch : String → Option (List String)
  pub subexp_names : List String

-- `captures[name] = match[i]`, which panics where there is no such element.
abbrev pub captured : Bool → String → Option String → Map String String → Option (Map String String)
captured true name v m = some m
captured false name none m = none
captured false name (some v) m = some (insert name v m)

-- The loop over the names, from the index `i` on.
unfoldable pub capture :
    ℕ → List String → List String → Option (Map String String) → Option (Map String String)
capture i [] match o = o
capture i (name ∷ names) match none = none
capture i (name ∷ names) match (some m) =
    capture (suc i) names match (captured (i == 0 || name == "") name (get_elem? match i) m)

-- `FindStringSubmatchMap`; `none` is a panic.
unfoldable pub find_string_submatch_map : Rgx → String → Option (Map String String × Bool)
unfolding capture
find_string_submatch_map r s = elim (r.find_string_submatch s) [
  | none ↦ some ([], false)
  | some match ↦ elim (capture 0 r.subexp_names match (some [])) [
    | none ↦ none
    | some m ↦ some (m, true)
  ]
]
