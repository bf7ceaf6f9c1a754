-- ===== src/Config/Migrations.antt =====
-- config/process.go: `Validate` sorts the migrations of a store and takes out the bad ones.
-- `sort.Slice` is a parameter: it sorts by version, and says nothing of the order of equal ones.
pub mod Walk
pub mod Laws
use blank_sr.Base.{
  ℕ, zero, suc, ◌+◌, ◌<◌, ◌≤◌, ◌≡◌, String, Bool, true, false, ◌||◌, Option, none, some, List, [],
  ◌∷◌, ◌==◌, if◌then◌else◌, string_eq, nat_eq, length, get_elem?, remove_at, count_if,
}
use blank_sr.Base.Int.{ℤ, pos, negsuc}
use blank_sr.Config.Stores.{MigrationTask}

abbrev pub pos_part : ℤ → ℕ
pos_part (pos n) = n
pos_part (negsuc n) = 0

abbrev pub neg_part : ℤ → ℕ
neg_part (pos n) = 0
neg_part (negsuc n) = suc n

infix 50 ◌≤ℤ◌ ◌<ℤ◌
abbrev pub ◌≤ℤ◌ : ℤ → ℤ → Type 0
a ≤ℤ b = pos_part a + neg_part b ≤ pos_part b + neg_part a

abbrev pub ◌<ℤ◌ : ℤ → ℤ → Type 0
a <ℤ b = pos_part a + neg_part b < pos_part b + neg_part a

-- `a == b` for integers.
abbrev pub same : ℤ → ℤ → Bool
same (pos m) (pos n) = m == n
same (negsuc m) (negsuc n) = m == n
same _ _ = false

-- `badMigration`
abbrev pub is_bad : MigrationTask → ℤ → Bool
is_bad v prev = v.script == "" || same v.version prev

-- The loop from the index below `i` down to 0, with `prevVer`.
unfoldable pub prune : ℕ → ℤ → List MigrationTask → List MigrationTask
prune zero prev m = m
prune (suc i) prev m = elim (get_elem? m i) [
  | none ↦ m
  | some v ↦ prune i v.version (if is_bad v prev then remove_at i m else m)
]

-- The migrations of a store after `Validate`.
unfoldable pub clean :
    (List MigrationTask → List MigrationTask) → List MigrationTask → List MigrationTask
unfolding prune
clean sort m = let sorted = sort m in prune (length sorted) (negsuc 98) sorted

-- Each version is at most the next one.
abbrev pub IsSorted : List MigrationTask → Type 0
IsSorted [] = Unit {0}
IsSorted (v ∷ []) = Unit {0}
IsSorted (v ∷ w ∷ vs) = (v.version ≤ℤ w.version) × IsSorted (w ∷ vs)
