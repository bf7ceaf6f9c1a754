-- ===== src/Base/Lists.antt =====
-- Lists measured by native numbers, and predicates over lists.
use Prim.Native.Nat.{ℕ, zero, suc, ◌+◌}
use mathlib.Core.Path.{◌≡◌, refl, ap, subst}
use mathlib.Core.Bool.{Bool}
use mathlib.Core.List.{List, [], ◌∷◌, ◌++◌}
use mathlib.Core.Option.{Option, none, some, some-injective}
use native.Mathlib.Omega.{arith}
use blank_sr.Base.Equality.{Eq, ◌==◌, if◌then◌else◌}

module _ {ℓ} {A : Type ℓ} where
  abbrev pub length : List A → ℕ
  length [] = 0
  length (x ∷ xs) = suc (length xs)

  abbrev pub get_elem? : List A → ℕ → Option A
  get_elem? [] i = none
  get_elem? (x ∷ xs) zero = some x
  get_elem? (x ∷ xs) (suc i) = get_elem? xs i

  -- `append(xs[:i], xs[i+1:]...)`
  abbrev pub remove_at : ℕ → List A → List A
  remove_at i [] = []
  remove_at zero (x ∷ xs) = xs
  remove_at (suc i) (x ∷ xs) = x ∷ remove_at i xs

  abbrev pub take : ℕ → List A → List A
  take zero xs = []
  take (suc n) [] = []
  take (suc n) (x ∷ xs) = x ∷ take n xs

  abbrev pub drop : ℕ → List A → List A
  drop zero xs = xs
  drop (suc n) [] = []
  drop (suc n) (x ∷ xs) = drop n xs

  pub take-length : (xs : List A) → take (length xs) xs ≡ xs
  take-length [] = refl
  take-length (x ∷ xs) = ap (◌∷◌ x) (take-length xs)

  pub drop-length : (xs : List A) → drop (length xs) xs ≡ []
  drop-length [] = refl
  drop-length (x ∷ xs) = drop-length xs

  abbrev pub or_else : Option A → A → A
  or_else none d = d
  or_else (some a) d = a

  pub length-append : (xs ys : List A) → length (xs ++ ys) ≡ length xs + length ys
  length-append [] ys = omega arith
  length-append (x ∷ xs) ys = omega (arith, length-append xs ys)

  abbrev pub All {κ} : (A → Type κ) → List A → Type κ
  All P [] = Unit
  All P (x ∷ xs) = P x × All P xs

  -- How many items pass a test.
  abbrev pub count_if : (A → Bool) → List A → ℕ
  count_if t [] = 0
  count_if t (x ∷ xs) = (if t x then 1 else 0) + count_if t xs

  pub count_if-append :
      (t : A → Bool) (xs ys : List A) → count_if t (xs ++ ys) ≡ count_if t xs + count_if t ys
  count_if-append t [] ys = omega arith
  count_if-append t (x ∷ xs) ys = omega (arith, count_if-append t xs ys)

  pub All-append {κ} : (P : A → Type κ) (xs ys : List A) → All P xs → All P ys → All P (xs ++ ys)
  All-append P [] ys hx hy = hy
  All-append P (x ∷ xs) ys hx hy = (hx.0, All-append P xs ys hx.1 hy)

  pub All-get_elem? {κ} :
      (P : A → Type κ) (xs : List A) (n : ℕ) (x : A) → All P xs → get_elem? xs n ≡ some x → P x
  All-get_elem? P [] n x h e = cc
  All-get_elem? P (y ∷ ys) zero x h e = subst P (some-injective y x e) h.0
  All-get_elem? P (y ∷ ys) (suc n) x h e = All-get_elem? P ys n x h.1 e

  pub All-remove_at {κ} : (P : A → Type κ) (xs : List A) (n : ℕ) → All P xs → All P (remove_at n xs)
  All-remove_at P [] n h = tt
  All-remove_at P (y ∷ ys) zero h = h.1
  All-remove_at P (y ∷ ys) (suc n) h = (h.0, All-remove_at P ys n h.1)

  pub count_if-remove_at :
      (t : A → Bool) (xs : List A) (n : ℕ) (x : A)
      → get_elem? xs n ≡ some x
      → count_if t xs ≡ (if t x then 1 else 0) + count_if t (remove_at n xs)
  count_if-remove_at t [] n x e = cc
  count_if-remove_at t (y ∷ ys) zero x e = rw (some-injective y x e)
  count_if-remove_at t (y ∷ ys) (suc n) x e = omega (arith, count_if-remove_at t ys n x e)

module _ {ℓ} {A : Type ℓ} ⦃e : Eq A⦄ where
  abbrev pub count : A → List A → ℕ
  count a = count_if (λ x. x == a)

  -- The list with every copy of the item gone.
  abbrev pub without : A → List A → List A
  without a [] = []
  without a (x ∷ xs) = let rest = without a xs in if x == a then rest else x ∷ rest

  pub count-without :
      (a b : A) (xs : List A) → count b (without a xs) ≡ (if b == a then 0 else count b xs)
  count-without a b [] = ground arith
  count-without a b (x ∷ xs) = ground (arith, count-without a b xs)
