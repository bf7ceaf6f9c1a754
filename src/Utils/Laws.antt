-- ===== src/Utils/Laws.antt =====
-- What the searches and comparisons of utils/array decide.
use blank_sr.Base.{
  ℕ, suc, ◌≤◌, ◌≡◌, ◌↔◌, refl, ap, String, true, false, Option, none, some, List, [], ◌∷◌, arith,
  ◌==◌, if◌then◌else◌, string_eq, nat_eq, length, count, inl, inr, Bool-cases,
}
use blank_sr.Utils.{
  in_array_from, in_array_string, in_both_arrays_string, found, elements, same_elements,
  string_arrays_equals,
}

-- `count` tells whether a string is in a slice.
in_array_from-found :
    (i : ℕ) (arr : List String) (s : String)
    → found (in_array_from i arr s) ≡ (if count s arr == 0 then false else true)
unfolding in_array_from nat_eq
in_array_from-found i [] s = refl
in_array_from-found i (v ∷ arr) s = ground (arith, in_array_from-found (suc i) arr s)

same_elements-eq : (a b : List String) → length a ≡ length b → (same_elements a b ≡ true) ↔ (a ≡ b)
unfolding same_elements
same_elements-eq [] [] h = (λ e. refl, λ e. refl)
same_elements-eq [] (y ∷ b) h = absurd (omega arith)
same_elements-eq (x ∷ a) [] h = absurd (omega arith)
same_elements-eq (x ∷ a) (y ∷ b) h =
    let (to, from) = same_elements-eq a b (omega arith) in
    (λ e. ground (arith, to), λ e. ground (arith, from))

compared :
    (a b : List String)
    → ((if length a == length b then same_elements a b else false) ≡ true) ↔ (a ≡ b)
unfolding nat_eq
compared a b = elim (nat_eq.dec (length a) (length b)) [
  | yes e ↦
      let (to, from) = same_elements-eq a b e in
      (λ h. ground (arith, to), λ h. ground (arith, from))
  | no ne ↦ (λ h. absurd (ground arith), λ h. absurd (ne (ap (λ l. length l) h)))
]

-- `StringArraysEquals` decides whether two slices have the same strings in the same order, where
-- nil counts as an empty slice.
pub string_arrays_equals_lem :
    (a b : Option (List String)) → (string_arrays_equals a b ≡ true) ↔ (elements a ≡ elements b)
unfolding string_arrays_equals nat_eq
string_arrays_equals_lem none none = (λ e. refl, λ e. refl)
string_arrays_equals_lem none (some b) = compared [] b
string_arrays_equals_lem (some a) none = compared a []
string_arrays_equals_lem (some a) (some b) = compared a b

in_both-cons :
    (v : String) (arr1 arr2 : List String)
    → in_both_arrays_string (v ∷ arr1) arr2
      ≡ (if count v arr2 == 0 then in_both_arrays_string arr1 arr2 else true)
unfolding in_both_arrays_string in_array_string nat_eq
in_both-cons v arr1 arr2 = ground (arith, in_array_from-found 0 arr2 v)

in_both-nil : (arr2 : List String) → in_both_arrays_string [] arr2 ≡ false
unfolding in_both_arrays_string
in_both-nil arr2 = refl

in_both-cases :
    (arr1 arr2 : List String)
    → (in_both_arrays_string arr1 arr2 ≡ true
        → (s : String) × (1 ≤ count s arr1) × (1 ≤ count s arr2))
      × ((s : String)
          → 1 ≤ count s arr1
          → 1 ≤ count s arr2
          → in_both_arrays_string arr1 arr2 ≡ true)
unfolding nat_eq
in_both-cases [] arr2 =
    (λ e. absurd (ground (arith, in_both-nil arr2)), λ s h k. absurd (omega arith))
in_both-cases (v ∷ arr1) arr2 =
    let (to, from) = in_both-cases arr1 arr2 in
    (
      λ e. elim (Bool-cases (count v arr2 == 0)) [
        | inl none_here ↦
            let (s, h, k) = to (ground (arith, in_both-cons v arr1 arr2)) in (s, ground arith, k)
        | inr here ↦ (v, ground arith, ground arith)
      ],
      λ s h k. ground (arith, in_both-cons v arr1 arr2, from s),
    )

-- `InBothArraysString` tells whether some string is in both slices.
pub in_both_arrays_string_lem :
    (arr1 arr2 : List String)
    → (in_both_arrays_string arr1 arr2 ≡ true)
      ↔ ((s : String) × (1 ≤ count s arr1) × (1 ≤ count s arr2))
in_both_arrays_string_lem arr1 arr2 =
    let (to, from) = in_both-cases arr1 arr2 in (to, λ w. from w.0 w.1 w.2)
