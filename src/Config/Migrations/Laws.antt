-- ===== src/Config/Migrations/Laws.antt =====
-- What is left of a store's migrations.
use blank_sr.Base.{
  ◌≡◌, ◌≢◌, ◌∙◌, ap, sym, subst, true, false, List, [], ◌∷◌, if◌then◌else◌, string_eq, nat_eq,
  length, arith, Bool-cases, inl, inr,
}
use blank_sr.Base.Int.{ℤ, pos, negsuc}
use blank_sr.Config.Migrations.{◌≤ℤ◌, ◌<ℤ◌, same, is_bad, prune, clean, IsSorted}
use blank_sr.Config.Migrations.Walk.{onto, onto-onto, length-onto, walk, prune-walk}
use blank_sr.Config.Stores.{MigrationTask}

-- Migrations with scripts, each of a greater version than the one before, and all above a version.
abbrev pub Above : ℤ → List MigrationTask → Type 0
Above p [] = Unit {0}
Above p (v ∷ vs) = (p <ℤ v.version) × (v.script ≢ "") × Above v.version vs

abbrev pub IsStrict : List MigrationTask → Type 0
IsStrict [] = Unit {0}
IsStrict (v ∷ vs) = (v.script ≢ "") × Above v.version vs

-- The same, with versions from a given one on.
abbrev From : ℤ → List MigrationTask → Type 0
From p [] = Unit {0}
From p (v ∷ vs) = (p ≤ℤ v.version) × (v.script ≢ "") × Above v.version vs

abbrev Descends : ℤ → List MigrationTask → Type 0
Descends p [] = Unit {0}
Descends p (v ∷ vs) = (v.version ≤ℤ p) × Descends v.version vs

abbrev IsDescending : List MigrationTask → Type 0
IsDescending [] = Unit {0}
IsDescending (v ∷ vs) = Descends v.version vs

same_lem : (a b : ℤ) → same a b ≡ false → a ≤ℤ b → a <ℤ b
unfolding nat_eq
same_lem (pos m) (pos n) h le = ground arith
same_lem (pos m) (negsuc n) h le = omega arith
same_lem (negsuc m) (pos n) h le = omega arith
same_lem (negsuc m) (negsuc n) h le = ground arith

-- A step of the walk.
From-step :
    (v : MigrationTask) (prev : ℤ) (kept : List MigrationTask)
    → v.version ≤ℤ prev
    → From prev kept
    → From v.version (if is_bad v prev then kept else v ∷ kept)
From-step v prev kept le h = elim (Bool-cases (is_bad v prev)) [
  | inl bad ↦ rw bad (lower kept h)
  | inr good ↦
      rw good (omega arith, ground arith, raise kept h (same_lem v.version prev (ground arith) le))
]
  where
    lower : (kept : List MigrationTask) → From prev kept → From v.version kept
    lower [] h = tt
    lower (w ∷ ws) h = (omega arith, h.1, h.2)

    raise : (kept : List MigrationTask) → From prev kept → v.version <ℤ prev → Above v.version kept
    raise [] h lt = tt
    raise (w ∷ ws) h lt = (omega arith, h.1, h.2)

From-IsStrict : (p : ℤ) (kept : List MigrationTask) → From p kept → IsStrict kept
From-IsStrict p [] h = tt
From-IsStrict p (v ∷ vs) h = (h.1, h.2)

walk-IsStrict :
    (rs : List MigrationTask) (prev : ℤ) (kept : List MigrationTask)
    → Descends prev rs
    → From prev kept
    → IsStrict (walk rs prev kept)
unfolding walk
walk-IsStrict [] prev kept d h = From-IsStrict prev kept h
walk-IsStrict (v ∷ rs) prev kept d h =
    walk-IsStrict rs v.version (if is_bad v prev then kept else v ∷ kept) d.1
      (From-step v prev kept d.0 h)

-- The first step, for which the version before is no version of the list.
walk-first : (rs : List MigrationTask) (prev : ℤ) → IsDescending rs → IsStrict (walk rs prev [])
unfolding walk
walk-first [] prev d = tt
walk-first (v ∷ rs) prev d =
    walk-IsStrict rs v.version (if is_bad v prev then [] else v ∷ []) d
      (elim (Bool-cases (is_bad v prev)) [
        | inl bad ↦ rw bad tt
        | inr good ↦ rw good (omega arith, ground arith, tt)
      ])

onto-IsDescending :
    (x : MigrationTask) (xs acc : List MigrationTask)
    → IsSorted (x ∷ xs)
    → Descends x.version acc
    → IsDescending (onto xs (x ∷ acc))
onto-IsDescending x [] acc s d = d
onto-IsDescending x (y ∷ ys) acc s d = onto-IsDescending y ys (x ∷ acc) s.1 (s.0, d)

sorted-IsDescending : (m : List MigrationTask) → IsSorted m → IsDescending (onto m [])
sorted-IsDescending [] s = tt
sorted-IsDescending (x ∷ xs) s = onto-IsDescending x xs [] s tt

clean-walk :
    (sort : List MigrationTask → List MigrationTask) (m : List MigrationTask)
    → clean sort m ≡ walk (onto (sort m) []) (negsuc 98) []
unfolding clean
clean-walk sort m =
    let rs = onto (sort m) [] in
    sym (
      sym (prune-walk rs (negsuc 98) [])
      ∙ ap (λ t. prune (length rs) (negsuc 98) t) (onto-onto (sort m) [])
      ∙ ap (λ n. prune n (negsuc 98) (sort m)) (length-onto (sort m) [] ∙ omega arith))

-- After `Validate` the migrations of a store have scripts and strictly increasing versions, if
-- `sort.Slice` sorts them by version.
pub clean-IsStrict :
    (sort : List MigrationTask → List MigrationTask) (m : List MigrationTask)
    → IsSorted (sort m)
    → IsStrict (clean sort m)
clean-IsStrict sort m s =
    subst IsStrict (sym (clean-walk sort m))
      (walk-first (onto (sort m) []) (negsuc 98) (sorted-IsDescending (sort m) s))

same_self : (a : ℤ) → same a a ≡ true
unfolding nat_eq
same_self (pos m) = ground arith
same_self (negsuc m) = ground arith

-- If the greatest version stands twice and the migration that sorting puts last has no script, then
-- both are lost, the one with a script too.
pub duplicate_lost :
    (sort : List MigrationTask → List MigrationTask) (m xs : List MigrationTask)
    (v w : MigrationTask)
    → onto (sort m) [] ≡ w ∷ v ∷ xs
    → w.script ≡ ""
    → v.version ≡ w.version
    → clean sort m ≡ walk xs v.version []
unfolding walk
duplicate_lost sort m xs v w e empty twice =
    clean-walk sort m ∙ rw e (ground (arith, empty, twice, same_self w.version))
