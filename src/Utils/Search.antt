-- ===== src/Utils/Search.antt =====
-- utils/array/array.go: `IndexOfSortedStrings`, with the binary search of the package sort.
use blank_sr.Base.{
  ℕ, zero, suc, ◌+◌, ◌/◌, String, Bool, true, false, Option, none, some, List, ◌==◌, if◌then◌else◌,
  nat_eq, string_eq, ltb, length, get_elem?,
}
use Prim.Native.Char.{code}
use Prim.Native.String as Text

-- `s <= t`: the order of the bytes of UTF-8 is that of the characters.
unfoldable pub text_le : String → String → Bool
text_le Text.[] t = true
text_le (Text.◌∷◌ c s) Text.[] = false
text_le (Text.◌∷◌ c s) (Text.◌∷◌ d t) =
    let rest = text_le s t in
    if ltb (code c) (code d) then true else if code c == code d then rest else false

-- The interval after one step of `sort.Search`.
abbrev pub halved : (ℕ → Bool) → ℕ → ℕ → ℕ × ℕ
halved f i j = let h = (i + j) / 2 in if f h then (i, h) else (suc h, j)

-- `sort.Search` between `i` and `j`, with one step of fuel for each round.
unfoldable pub search : ℕ → (ℕ → Bool) → ℕ → ℕ → ℕ
search zero f i j = i
search (suc fuel) f i j =
    let rest = search fuel f (halved f i j).0 (halved f i j).1 in if ltb i j then rest else i

-- `arr[i] >= s`
abbrev pub at_least : List String → String → ℕ → Bool
at_least arr s i = elim (get_elem? arr i) [ none ↦ false | some v ↦ text_le s v ]

abbrev pub if_equal : ℕ → String → Option String → Option ℕ
if_equal i s none = none
if_equal i s (some v) = if v == s then some i else none

-- `IndexOfSortedStrings`
unfoldable pub index_of_sorted_strings : List String → String → Option ℕ
unfolding text_le search
index_of_sorted_strings arr s =
    let i = search (length arr) (at_least arr s) 0 (length arr) in if_equal i s (get_elem? arr i)
