-- ===== src/Base/Merging.antt =====
-- A loop over one map that completes another: each key gets a value made of the new one and the one
-- that is there.
use mathlib.Core.Path.{◌≡◌, refl, ◌∙◌, subst, sym, ap}
use mathlib.Core.Bool.{true, false}
use mathlib.Core.Logic.{ite}
use mathlib.Core.Option.{Option, none, some}
use mathlib.Core.List.{[], ◌∷◌}
use native.Mathlib.Omega.{arith}
use blank_sr.Base.Equality.{Eq, ◌==◌, if◌then◌else◌}
use blank_sr.Base.Map.{Map, lookup, insert, lookup-insert, lookup-nil}

-- What a key has after the loop.
abbrev pub completed {κ} : {V : Type κ} → (V → Option V → V) → Option V → Option V → Option V
completed f none old = old
completed f (some v) old = some (f v old)

abbrev pub first_of {κ} : {V : Type κ} → Option V → Option V → Option V
first_of none old = old
first_of (some v) old = some v

none-some {κ} : {V : Type κ} {v : V} → ◌≡◌ {A = Option V} none (some v) → ⊥
none-some h = cc

module _ {ℓ κ} {K : Type ℓ} {V : Type κ} ⦃e : Eq K⦄ where
  unfoldable pub merge_into : (V → Option V → V) → Map K V → Map K V → Map K V
  merge_into f [] m = m
  merge_into f ((k, v) ∷ vs) m = merge_into f vs (insert k (f v (lookup k m)) m)

  -- Each key at most once.
  abbrev pub IsUnique : Map K V → Type (ℓ ⊔ κ)
  IsUnique [] = Unit
  IsUnique ((k, v) ∷ m) = (lookup k m ≡ none) × IsUnique m

  pub lookup-cons :
      (j k : K) (v : V) (m : Map K V)
      → lookup j ((k, v) ∷ m) ≡ (if k == j then some v else lookup j m)
  unfolding lookup
  lookup-cons j k v m = refl

  pub lookup-merge_into :
      (f : V → Option V → V) (vs m : Map K V) (j : K)
      → IsUnique vs
      → lookup j (merge_into f vs m) ≡ completed f (lookup j vs) (lookup j m)
  unfolding merge_into
  lookup-merge_into f [] m j u = rw (lookup-nil {V = V} j)
  lookup-merge_into f ((k, v) ∷ vs) m j u =
      lookup-merge_into f vs (insert k (f v (lookup k m)) m) j u.1 ∙ step (e.dec k j)
    where
      step :
          Dec (k ≡ j)
          → completed f (lookup j vs) (lookup j (insert k (f v (lookup k m)) m))
            ≡ completed f (lookup j ((k, v) ∷ vs)) (lookup j m)
      step (yes p) =
          subst
            (λ i.
              completed f (lookup i vs) (lookup i (insert k (f v (lookup k m)) m))
              ≡ completed f (lookup i ((k, v) ∷ vs)) (lookup i m))
            p (ground (arith, lookup-cons k k v vs, lookup-insert k k (f v (lookup k m)) m, u.0))
      step (no n) = ground (arith, lookup-cons j k v vs, lookup-insert k j (f v (lookup k m)) m)

  -- A loop that puts what it makes of some entries into a new map, under a key that it makes too.
  unfoldable pub collect : (K → V → Option (K × V)) → Map K V → Map K V → Map K V
  collect f [] acc = acc
  collect f ((k, v) ∷ vs) acc =
      collect f vs (elim (f k v) [ none ↦ acc | some (j, w) ↦ insert j w acc ])

  abbrev pub value_of : Option (K × V) → Option V
  value_of none = none
  value_of (some (k, v)) = some v

  -- The loop writes under the keys that it reads.
  abbrev pub KeepsKeys : (K → V → Option (K × V)) → Map K V → Type (ℓ ⊔ κ)
  KeepsKeys f vs = (k j : K) (v w : V) → lookup k vs ≡ some v → f k v ≡ some (j, w) → j ≡ k

  KeepsKeys-tail :
      (f : K → V → Option (K × V)) (k : K) (v : V) (vs : Map K V)
      → lookup k vs ≡ none
      → KeepsKeys f ((k, v) ∷ vs)
      → KeepsKeys f vs
  KeepsKeys-tail f k v vs new keys i j w x at = keys i j w x (elim (e.dec k i) [
    | yes p ↦ absurd (clash p)
    | no n ↦ ground (arith, lookup-cons i k v vs, at)
  ])
    where
      clash : k ≡ i → ⊥
      clash p = none-some (sym new ∙ ap (λ h. lookup h vs) p ∙ at)

  abbrev pub made : (K → V → Option (K × V)) → K → Option V → Option V
  made f j none = none
  made f j (some v) = value_of (f j v)

  collect_step :
      (f : K → V → Option (K × V)) (k j : K) (v : V) (r : Option (K × V)) (vs acc : Map K V)
      → ((i : K) (w : V) → r ≡ some (i, w) → i ≡ k)
      → f k v ≡ r
      → lookup k vs ≡ none
      → first_of
          (made f j (lookup j vs))
          (lookup j (elim r [ none ↦ acc | some (i, w) ↦ insert i w acc ]))
        ≡ first_of (made f j (lookup j ((k, v) ∷ vs))) (lookup j acc)
  collect_step f k j v none vs acc keys same new = elim (e.dec k j) [
    | yes p ↦
        subst
          (λ i.
            first_of (made f i (lookup i vs)) (lookup i acc)
            ≡ first_of (made f i (lookup i ((k, v) ∷ vs))) (lookup i acc))
          p (ground (arith, lookup-cons k k v vs, same, new))
    | no n ↦ ground (arith, lookup-cons j k v vs)
  ]
  collect_step f k j v (some (i, w)) vs acc keys same new =
      let own : i ≡ k = keys i w refl in
      elim (e.dec k j) [
        | yes p ↦
            subst
              (λ h.
                first_of (made f h (lookup h vs)) (lookup h (insert i w acc))
                ≡ first_of (made f h (lookup h ((k, v) ∷ vs))) (lookup h acc))
              p (ground (arith, lookup-cons k k v vs, lookup-insert i k w acc, same, new))
        | no n ↦ ground (arith, lookup-cons j k v vs, lookup-insert i j w acc)
      ]

  pub lookup-collect :
      (f : K → V → Option (K × V)) (vs acc : Map K V) (j : K)
      → KeepsKeys f vs
      → IsUnique vs
      → lookup j (collect f vs acc) ≡ first_of (made f j (lookup j vs)) (lookup j acc)
  unfolding collect
  lookup-collect f [] acc j keys u = rw (lookup-nil {V = V} j) refl
  lookup-collect f ((k, v) ∷ vs) acc j keys u =
      lookup-collect f vs _ j (KeepsKeys-tail f k v vs u.0 keys) u.1
      ∙ collect_step f k j v (f k v) vs acc
          (λ i w h. keys k i v w (ground (arith, lookup-cons k k v vs)) h) refl u.0

  insert-IsUnique : (k : K) (v : V) (m : Map K V) → IsUnique m → IsUnique (insert k v m)
  unfolding insert
  insert-IsUnique k v [] u = (lookup-nil {V = V} k, tt)
  insert-IsUnique k v ((j, w) ∷ m) u = step (e.dec j k) (insert-IsUnique k v m u.1)
    where
      step :
          (d : Dec (j ≡ k))
          → IsUnique (insert k v m)
          → IsUnique (if ite d true false then (k, v) ∷ m else (j, w) ∷ insert k v m)
      step (yes p) rest = (subst (λ i. lookup i m ≡ none) p u.0, u.1)
      step (no n) rest = (ground (arith, lookup-insert k j v m, u.0), rest)

  pub collect-IsUnique :
      (f : K → V → Option (K × V)) (vs acc : Map K V) → IsUnique acc → IsUnique (collect f vs acc)
  unfolding collect
  collect-IsUnique f [] acc u = u
  collect-IsUnique f ((k, v) ∷ vs) acc u = collect-IsUnique f vs _ (step (f k v))
    where
      step : (r : Option (K × V)) → IsUnique (elim r [ none ↦ acc | some (j, w) ↦ insert j w acc ])
      step none = u
      step (some (j, w)) = insert-IsUnique j w acc u
