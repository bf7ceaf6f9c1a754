-- ===== src/Config/Migrations/Walk.antt =====
-- The loop by indices as a walk over the migrations, the last one first.
use blank_sr.Base.{
  ℕ, zero, suc, ◌+◌, ◌≡◌, ◌∙◌, refl, ap, List, [], ◌∷◌, some, Bool, true, false, if◌then◌else◌,
  length, get_elem?, remove_at, arith,
}
use blank_sr.Base.Int.{ℤ}
use blank_sr.Config.Migrations.{prune, is_bad}
use blank_sr.Config.Stores.{MigrationTask}

-- A list that is held the last item first, in front of another.
abbrev pub onto {ℓ} : {A : Type ℓ} → List A → List A → List A
onto [] ys = ys
onto (r ∷ rs) ys = onto rs (r ∷ ys)

get_elem?-onto {ℓ} :
    {A : Type ℓ} (rs ys : List A) (k : ℕ) → get_elem? (onto rs ys) (length rs + k) ≡ get_elem? ys k
get_elem?-onto [] ys k = ap (get_elem? ys) (omega arith)
get_elem?-onto (r ∷ rs) ys k =
    ap (get_elem? (onto rs (r ∷ ys))) (omega arith) ∙ get_elem?-onto rs (r ∷ ys) (suc k)

remove_at-onto {ℓ} :
    {A : Type ℓ} (rs ys : List A) (k : ℕ)
    → remove_at (length rs + k) (onto rs ys) ≡ onto rs (remove_at k ys)
remove_at-onto [] ys k = ap (λ n. remove_at n ys) (omega arith)
remove_at-onto (r ∷ rs) ys k =
    ap (λ n. remove_at n (onto rs (r ∷ ys))) (omega arith) ∙ remove_at-onto rs (r ∷ ys) (suc k)

-- Held the last item first, and turned round again.
pub onto-onto {ℓ} : {A : Type ℓ} (m rs : List A) → onto (onto m rs) [] ≡ onto rs m
onto-onto [] rs = refl
onto-onto (x ∷ m) rs = onto-onto m (x ∷ rs)

pub length-onto {ℓ} : {A : Type ℓ} (m rs : List A) → length (onto m rs) ≡ length m + length rs
length-onto [] rs = omega arith
length-onto (x ∷ m) rs = omega (arith, length-onto m (x ∷ rs))

-- What the walk keeps, in front of what it has kept so far.
unfoldable pub walk : List MigrationTask → ℤ → List MigrationTask → List MigrationTask
walk [] prev kept = kept
walk (v ∷ rs) prev kept = walk rs v.version (if is_bad v prev then kept else v ∷ kept)

prune-suc :
    (i : ℕ) (prev : ℤ) (m : List MigrationTask) (v : MigrationTask)
    → get_elem? m i ≡ some v
    → prune (suc i) prev m ≡ prune i v.version (if is_bad v prev then remove_at i m else m)
unfolding prune
prune-suc i prev m v e = rw (e, prune)

prune-zero : (prev : ℤ) (m : List MigrationTask) → prune zero prev m ≡ m
unfolding prune
prune-zero prev m = refl

pub prune-walk :
    (rs : List MigrationTask) (prev : ℤ) (ys : List MigrationTask)
    → prune (length rs) prev (onto rs ys) ≡ walk rs prev ys
unfolding walk
prune-walk [] prev ys = prune-zero prev ys
prune-walk (v ∷ rs) prev ys =
    prune-suc (length rs) prev (onto rs (v ∷ ys)) v at
    ∙ step (is_bad v prev)
    ∙ prune-walk rs v.version (if is_bad v prev then ys else v ∷ ys)
  where
    at : get_elem? (onto rs (v ∷ ys)) (length rs) ≡ some v
    at = ap (get_elem? (onto rs (v ∷ ys))) (omega arith) ∙ get_elem?-onto rs (v ∷ ys) 0

    cut : remove_at (length rs) (onto rs (v ∷ ys)) ≡ onto rs ys
    cut = ap (λ n. remove_at n (onto rs (v ∷ ys))) (omega arith) ∙ remove_at-onto rs (v ∷ ys) 0

    step :
        (b : Bool)
        → prune
            (length rs)
            v.version
            (if b then remove_at (length rs) (onto rs (v ∷ ys)) else onto rs (v ∷ ys))
          ≡ prune (length rs) v.version (onto rs (if b then ys else v ∷ ys))
    step true = ap (prune (length rs) v.version) cut
    step false = refl
