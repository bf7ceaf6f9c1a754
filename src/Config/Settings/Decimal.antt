-- ===== src/Config/Settings/Decimal.antt =====
-- Texts of decimal numbers.
use blank_sr.Base.{
  ℕ, zero, suc, ◌+◌, ◌-◌, ◌*◌, ◌/◌, ◌%◌, ◌^◌, ◌≤◌, ◌<◌, ◌≡◌, ◌≢◌, ◌∙◌, ap, refl, sym, some, List,
  [], ◌∷◌, ◌++◌, if◌then◌else◌, nat_eq, ltb, length, length-append, arith, All, All-append,
  Bool-cases, inl, inr,
}
use blank_sr.Base.Int.{pos}
use blank_sr.Config.Settings.{split, continued, atoi}

abbrev pub IsDigit : ℕ → Type 0
IsDigit c = (48 ≤ c) × (c ≤ 57)

-- The last digits of a number, with one step of fuel for each.
unfoldable pub digits : ℕ → ℕ → List ℕ
digits zero n = []
digits (suc f) n =
    let rest = digits f (n / 10) in if ltb n 10 then (48 + n) ∷ [] else rest ++ ((48 + n % 10) ∷ [])

-- The decimal digits of a number.
abbrev pub decimal : ℕ → List ℕ
decimal n = digits (suc n) n

pub digits-IsDigit : (f n : ℕ) → All IsDigit (digits f n)
unfolding digits
digits-IsDigit zero n = tt
digits-IsDigit (suc f) n = elim (Bool-cases (ltb n 10)) [
  | inl h ↦ rw h ((omega arith, ground arith), tt)
  | inr h ↦ rw h (
      All-append IsDigit (digits f (n / 10)) ((48 + n % 10) ∷ []) (digits-IsDigit f (n / 10))
        ((omega arith, omega arith), tt))
]

continued-cons :
    (a x : ℕ) (xs : List ℕ) → IsDigit x → continued a (x ∷ xs) ≡ continued (a * 10 + (x - 48)) xs
unfolding continued
continued-cons a x xs (low, high) = ground arith

continued-append :
    (a n : ℕ) (xs ys : List ℕ)
    → All IsDigit xs
    → continued a xs ≡ some n
    → continued a (xs ++ ys) ≡ continued n ys
unfolding continued
continued-append a n [] ys d h = ap (λ m. continued m ys) (cc)
continued-append a n (x ∷ xs) ys (d, ds) h =
    continued-cons a x (xs ++ ys) d
    ∙ continued-append (a * 10 + (x - 48)) n xs ys ds (sym (continued-cons a x xs d) ∙ h)

continued-digits : (f n : ℕ) → n < f → continued 0 (digits f n) ≡ some n
unfolding digits continued
continued-digits zero n h = absurd (omega arith)
continued-digits (suc f) n h = elim (Bool-cases (ltb n 10)) [
  | inl t ↦ rw t (continued-cons 0 (48 + n) [] (omega arith, ground arith) ∙ ap some (omega arith))
  | inr t ↦ rw t (
      continued-append 0 (n / 10) (digits f (n / 10)) ((48 + n % 10) ∷ [])
        (digits-IsDigit f (n / 10)) (continued-digits f (n / 10) (ground arith))
      ∙ continued-cons (n / 10) (48 + n % 10) [] (omega arith, omega arith)
      ∙ ap some (omega arith))
]

digits-length : (f n : ℕ) → 1 ≤ length (digits (suc f) n)
unfolding digits
digits-length f n = elim (Bool-cases (ltb n 10)) [
  | inl t ↦ rw t (omega arith)
  | inr t ↦ rw (t, length-append (digits f (n / 10)) ((48 + n % 10) ∷ [])) (omega arith)
]

decimal-empty : (n : ℕ) → decimal n ≢ []
decimal-empty n e = ground (arith, digits-length n n, ap length e)

-- A row of digits is read as a number.
atoi-digits :
    (xs : List ℕ) (n : ℕ)
    → xs ≢ []
    → All IsDigit xs
    → continued 0 xs ≡ some n
    → n < 2 ^ 63
    → atoi xs ≡ some (pos n)
unfolding atoi
atoi-digits [] n e d h lt = absurd (e refl)
atoi-digits (c ∷ cs) n e ((low, high), ds) h lt = rw h (ground arith)

pub atoi-decimal : (n : ℕ) → n < 2 ^ 63 → atoi (decimal n) ≡ some (pos n)
atoi-decimal n h =
    atoi-digits (decimal n) n (decimal-empty n) (digits-IsDigit (suc n) n)
      (continued-digits (suc n) n (omega arith)) h

pub split-front : (xs ys : List ℕ) → All IsDigit xs → split (xs ++ 58 ∷ ys) ≡ xs ∷ split ys
unfolding split nat_eq
split-front [] ys h = refl
split-front (x ∷ xs) ys ((low, high), hs) = rw (split-front xs ys hs) (ground arith)

pub split-digits : (xs : List ℕ) → All IsDigit xs → split xs ≡ xs ∷ []
unfolding split
split-digits [] h = refl
split-digits (x ∷ xs) ((low, high), hs) = rw (split-digits xs hs) (ground arith)
