-- ===== src/Utils/Sorted.antt =====
-- The binary search on sorted slices.
use blank_sr.Base.{
  ℕ, zero, suc, ◌+◌, ◌/◌, ◌≤◌, ◌<◌, ◌≡◌, ◌≢◌, ◌∙◌, ap, refl, sym, subst, String, Bool, true, false,
  Option, none, some, List, [], ◌∷◌, nat_eq, string_eq, ltb, length, get_elem?, All, arith,
  Bool-cases, inl, inr,
}
use mathlib.Core.Option.{some-injective}
use blank_sr.Utils.{in_array_from, in_array_string}
use blank_sr.Utils.Search.{text_le, search, at_least, if_equal, index_of_sorted_strings}
use blank_sr.Utils.Order.{text_le_refl, text_le_trans, text_le_antisym}

-- The first index at which a condition holds that goes on holding, or the end.
abbrev IsFirst : (ℕ → Bool) → ℕ → ℕ → ℕ → Type 0
IsFirst f i j r = (i ≤ r) × (r ≤ j) × ((k : ℕ) → i ≤ k → k < r → f k ≡ false) × (r < j → f r ≡ true)

IsFirst-left : (f : ℕ → Bool) (i j h r : ℕ) → h < j → f h ≡ true → IsFirst f i h r → IsFirst f i j r
IsFirst-left f i j h r lt yes_h (low, high, before, at) = (
  low,
  omega arith,
  before,
  λ end. elim (Bool-cases (ltb r h)) [
    | inl l ↦ at (ground arith)
    | inr l ↦ let same : r ≡ h = ground arith in ap f same ∙ yes_h
  ],
)

IsFirst-right :
    (f : ℕ → Bool) (i j h r : ℕ)
    → ((a b : ℕ) → a ≤ b → b < j → f a ≡ true → f b ≡ true)
    → i ≤ h
    → h < j
    → f h ≡ false
    → IsFirst f (suc h) j r
    → IsFirst f i j r
IsFirst-right f i j h r mono le lt no_h (low, high, before, at) = (
  omega arith,
  high,
  λ k from to. elim (Bool-cases (ltb h k)) [
    | inl l ↦ before k (ground arith) to
    | inr l ↦ elim (Bool-cases (f k)) [
      | inr no_k ↦ no_k
      | inl yes_k ↦ cc (mono k h (ground arith) lt yes_k, no_h)
    ]
  ],
  at,
)

search-IsFirst :
    (fuel : ℕ) (f : ℕ → Bool) (i j : ℕ)
    → ((a b : ℕ) → a ≤ b → b < j → f a ≡ true → f b ≡ true)
    → i ≤ j
    → j ≤ i + fuel
    → IsFirst f i j (search fuel f i j)
unfolding search
search-IsFirst zero f i j mono le enough =
    (omega arith, omega arith, λ k low high. absurd (omega arith), λ lt. absurd (omega arith))
search-IsFirst (suc fuel) f i j mono le enough = elim (Bool-cases (ltb i j)) [
  | inr done ↦
      rw done
        (omega arith, omega arith, λ k low high. absurd (omega arith), λ lt. absurd (ground arith))
  | inl more ↦ elim (Bool-cases (f ((i + j) / 2))) [
    | inl yes_h ↦
        rw (more, yes_h)
          (IsFirst-left f i j ((i + j) / 2) _ (ground arith) yes_h (
            search-IsFirst fuel f i ((i + j) / 2) (λ a b le lt h. mono a b le (ground arith) h)
              (ground arith) (ground arith)))
    | inr no_h ↦
        rw (more, no_h)
          (IsFirst-right f i j ((i + j) / 2) _ mono (ground arith) (ground arith) no_h (
            search-IsFirst fuel f (suc ((i + j) / 2)) j (λ a b le lt h. mono a b le lt h)
              (ground arith) (ground arith)))
  ]
]

-- Each string is at most every later one.
abbrev pub IsSorted : List String → Type 0
IsSorted [] = Unit {0}
IsSorted (v ∷ vs) = All (λ w. text_le v w ≡ true) vs × IsSorted vs

All-at :
    (v : String) (ws : List String) (b : ℕ) (w : String)
    → All (λ u. text_le v u ≡ true) ws
    → get_elem? ws b ≡ some w
    → text_le v w ≡ true
All-at v [] b w all h = cc
All-at v (u ∷ ws) zero w (here, all) h = subst (λ x. text_le v x ≡ true) (some-injective u w h) here
All-at v (u ∷ ws) (suc b) w (here, all) h = All-at v ws b w all h

sorted-at :
    (arr : List String) (a b : ℕ) (v w : String)
    → IsSorted arr
    → a ≤ b
    → get_elem? arr a ≡ some v
    → get_elem? arr b ≡ some w
    → text_le v w ≡ true
sorted-at [] a b v w s le h k = cc
sorted-at (u ∷ arr) zero zero v w s le h k =
    subst (λ x. text_le v x ≡ true) (some-injective v w (sym h ∙ k)) (text_le_refl v)
sorted-at (u ∷ arr) zero (suc b) v w (all, s) le h k =
    subst (λ x. text_le x w ≡ true) (some-injective u v h) (All-at u arr b w all k)
sorted-at (u ∷ arr) (suc a) zero v w s le h k = absurd (omega arith)
sorted-at (u ∷ arr) (suc a) (suc b) v w (all, s) le h k = sorted-at arr a b v w s (omega arith) h k

get_elem?-some :
    (arr : List String) (i : ℕ) → i < length arr → (v : String) × (get_elem? arr i ≡ some v)
get_elem?-some [] i lt = absurd (omega arith)
get_elem?-some (v ∷ arr) zero lt = (v, refl)
get_elem?-some (v ∷ arr) (suc i) lt = get_elem?-some arr i (omega arith)

-- The linear search ends at the first index.
in_array_from-first :
    (n i : ℕ) (arr : List String) (s : String)
    → ((k : ℕ) → k < i → get_elem? arr k ≢ some s)
    → get_elem? arr i ≡ some s
    → in_array_from n arr s ≡ some (n + i)
unfolding in_array_from
in_array_from-first n i [] s before at = cc
in_array_from-first n zero (v ∷ arr) s before at =
    let same : v ≡ s = some-injective v s at in ground (arith, same)
in_array_from-first n (suc i) (v ∷ arr) s before at =
    let differs : v ≢ s = λ e. before 0 (omega arith) (ap some e) in
    ground (
      arith,
      differs,
      in_array_from-first (suc n) i arr s (λ k lt. before (suc k) (omega arith)) at,
    )

in_array_from-none :
    (n : ℕ) (arr : List String) (s : String)
    → ((k : ℕ) → get_elem? arr k ≢ some s)
    → in_array_from n arr s ≡ none
unfolding in_array_from
in_array_from-none n [] s nowhere = refl
in_array_from-none n (v ∷ arr) s nowhere =
    let differs : v ≢ s = λ e. nowhere 0 (ap some e) in
    ground (arith, differs, in_array_from-none (suc n) arr s (λ k. nowhere (suc k)))

get_elem?-lt : (arr : List String) (k : ℕ) (v : String) → get_elem? arr k ≡ some v → k < length arr
get_elem?-lt [] k v h = cc
get_elem?-lt (u ∷ arr) zero v h = omega arith
get_elem?-lt (u ∷ arr) (suc k) v h = omega (arith, get_elem?-lt arr k v h)

get_elem?-end : (arr : List String) (k : ℕ) → length arr ≤ k → get_elem? arr k ≡ none
get_elem?-end [] k le = refl
get_elem?-end (u ∷ arr) zero le = absurd (omega arith)
get_elem?-end (u ∷ arr) (suc k) le = get_elem?-end arr k (omega arith)

at_least-some :
    (arr : List String) (s : String) (i : ℕ) (v : String)
    → get_elem? arr i ≡ some v
    → at_least arr s i ≡ text_le s v
at_least-some arr s i v h =
    ap (λ o. elim o as (λ _. Bool) [ none ↦ false | some u ↦ text_le s u ]) h

module _ (arr : List String) (s : String) (sorted : IsSorted arr) where
  at_least_mono :
      (a b : ℕ) → a ≤ b → b < length arr → at_least arr s a ≡ true → at_least arr s b ≡ true
  at_least_mono a b le lt h =
      let (v, va) = get_elem?-some arr a (omega arith) in
      let (w, wb) = get_elem?-some arr b lt in
      at_least-some arr s b w wb
      ∙ text_le_trans s v w (sym (at_least-some arr s a v va) ∙ h)
          (sorted-at arr a b v w sorted le va wb)

  -- Where the string is not at the first index that reaches it, it is nowhere.
  nowhere_else :
      (i : ℕ)
      → IsFirst (at_least arr s) 0 (length arr) i
      → get_elem? arr i ≢ some s
      → (k : ℕ) → get_elem? arr k ≢ some s
  nowhere_else i (low, high, before, at) not_at k there =
      let reached = at_least-some arr s k s there ∙ text_le_refl s in
      elim (Bool-cases (ltb k i)) [
        | inl l ↦ cc (before k (omega arith) (ground arith), reached)
        | inr l ↦
            let inside = get_elem?-lt arr k s there in
            let (v, vi) = get_elem?-some arr i (ground arith) in
            not_at (
              vi
              ∙ ap some (
                  text_le_antisym v s (sorted-at arr i k v s sorted (ground arith) vi there)
                    (sym (at_least-some arr s i v vi) ∙ at (ground arith))))
      ]

  equal_at :
      (i : ℕ) (o : Option String)
      → get_elem? arr i ≡ o
      → IsFirst (at_least arr s) 0 (length arr) i
      → if_equal i s o ≡ in_array_from 0 arr s
  equal_at i none e first = sym (in_array_from-none 0 arr s (nowhere_else i first (λ h. cc)))
  equal_at i (some v) e first = elim (string_eq.dec v s) [
    | yes same ↦ ground (
      arith,
      same,
      in_array_from-first 0 i arr s
          (λ k lt there.
            cc (first.2 k (omega arith) lt, at_least-some arr s k s there ∙ text_le_refl s))
          (e ∙ ap some same),
    )
    | no differs ↦
        let nowhere =
          in_array_from-none 0 arr s
            (nowhere_else i first (λ h. differs (some-injective v s (sym e ∙ h)))) in
        ground (arith, differs, nowhere)
  ]

-- On a sorted slice `IndexOfSortedStrings`, with one round of the search for each string of the
-- slice, finds what `InArrayString` finds: the first index of the string, or -1 if it is not there.
pub index_of_sorted_strings_lem :
    (arr : List String) (s : String)
    → IsSorted arr
    → index_of_sorted_strings arr s ≡ in_array_string arr s
unfolding index_of_sorted_strings in_array_string
index_of_sorted_strings_lem arr s sorted =
    equal_at arr s sorted (search (length arr) (at_least arr s) 0 (length arr)) _ refl (
      search-IsFirst (length arr) (at_least arr s) 0 (length arr) (at_least_mono arr s sorted)
        (omega arith) (omega arith))
