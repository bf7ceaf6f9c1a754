-- ===== src/Config/Typing/Defaults.antt =====
-- The tests of `validateProps` on default values, bounds and lengths.
use blank_sr.Base.{
  zero, suc, ◌≡◌, ◌≢◌, ◌⊎◌, inl, inr, refl, String, Bool, true, false, not, ◌&&◌, Option, none,
  some, ◌==◌, if◌then◌else◌, string_eq, nat_eq, arith,
}
use blank_sr.Base.Int.{ℤ, pos, negsuc}
use blank_sr.Config.Checks.{
  check_length, default_fits, is_number, is_bool, is_text, is_array, bound, in_order,
}
use blank_sr.Config.Props.{Floats, Attrs}
use blank_sr.Config.Typing.{HasDefault, unset, expression, constant, IsBound, IsRange, HasLengths}
use blank_sr.Values.{
  Value, null, bool, number, string, array, object, Values, Fields, field_or_null, is_null,
}

order :
    (a b c : Bool)
    → (if a && b then true else not c) ≡ true
    → ((a ≡ true) × (b ≡ true)) ⊎ (c ≡ false)
order true true c h = inl (refl, refl)
order true false c h = inr (ground arith)
order false b c h = inr (ground arith)

module _ {F : Type 0} where
  pub not_null : (v : Value F) → not (is_null v) ≡ true → v ≢ null
  not_null v h e = ground arith

  pub default_fits-HasDefault :
      (A : Type 0) (of : A → Value F) (fits : Value F → Bool) (v : Value F)
      → ((w : Value F) → fits w ≡ true → (x : A) × (w ≡ of x))
      → default_fits fits v ≡ true
      → HasDefault A of v
  unfolding default_fits
  default_fits-HasDefault A of fits null own h = unset refl
  default_fits-HasDefault A of fits (object d) own h =
      expression d refl (not_null (field_or_null "$expression" d) h)
  default_fits-HasDefault A of fits (bool b) own h = let (x, e) = own (bool b) h in constant x e
  default_fits-HasDefault A of fits (blank_sr.Values.int b) own h =
      let (x, e) = own _ h in constant x e
  default_fits-HasDefault A of fits (number b) own h = let (x, e) = own _ h in constant x e
  default_fits-HasDefault A of fits (string b) own h = let (x, e) = own _ h in constant x e
  default_fits-HasDefault A of fits (array b) own h = let (x, e) = own _ h in constant x e

  pub is_number-own : (v : Value F) → is_number v ≡ true → (x : F) × (v ≡ number x)
  is_number-own null h = cc
  is_number-own (bool b) h = cc
  is_number-own (blank_sr.Values.int n) h = cc
  is_number-own (number x) h = (x, refl)
  is_number-own (string s) h = cc
  is_number-own (array vs) h = cc
  is_number-own (object fs) h = cc

  pub is_bool-own : (v : Value F) → is_bool v ≡ true → (x : Bool) × (v ≡ bool x)
  is_bool-own null h = cc
  is_bool-own (bool b) h = (b, refl)
  is_bool-own (blank_sr.Values.int n) h = cc
  is_bool-own (number x) h = cc
  is_bool-own (string s) h = cc
  is_bool-own (array vs) h = cc
  is_bool-own (object fs) h = cc

  pub is_text-own : (v : Value F) → is_text v ≡ true → (x : String) × (v ≡ string x)
  is_text-own null h = cc
  is_text-own (bool b) h = cc
  is_text-own (blank_sr.Values.int n) h = cc
  is_text-own (number x) h = cc
  is_text-own (string s) h = (s, refl)
  is_text-own (array vs) h = cc
  is_text-own (object fs) h = cc

  pub is_array-own : (v : Value F) → is_array v ≡ true → (x : Values F) × (v ≡ array x)
  is_array-own null h = cc
  is_array-own (bool b) h = cc
  is_array-own (blank_sr.Values.int n) h = cc
  is_array-own (number x) h = cc
  is_array-own (string s) h = cc
  is_array-own (array vs) h = (vs, refl)
  is_array-own (object fs) h = cc

  bound-IsBound : (fl : Floats F) (v : Value F) (x : F) → bound fl v ≡ some x → IsBound fl v x
  bound-IsBound fl null x h = inr (refl, ground arith)
  bound-IsBound fl (number y) x h = inl ground arith
  bound-IsBound fl (bool b) x h = cc
  bound-IsBound fl (blank_sr.Values.int n) x h = cc
  bound-IsBound fl (string s) x h = cc
  bound-IsBound fl (array vs) x h = cc
  bound-IsBound fl (object fs) x h = cc

  pub in_order-IsRange :
      (fl : Floats F) (v w : Value F) (lo hi : Option F)
      → bound fl v ≡ lo
      → bound fl w ≡ hi
      → in_order fl lo hi ≡ true
      → IsRange fl v w
  in_order-IsRange fl v w (some x) (some y) e f h = (
    x,
    y,
    bound-IsBound fl v x e,
    bound-IsBound fl w y f,
    order (fl.eq x fl.zero) (fl.eq y fl.zero) (fl.lt y x) h,
  )
  in_order-IsRange fl v w (some x) none e f h = cc
  in_order-IsRange fl v w none hi e f h = cc

  pub has_key :
      (k : String) (b : Bool)
      → (k == "") ≡ b
      → (v : Value F) → not (b && is_null v) ≡ true
      → (k ≢ "") ⊎ (v ≢ null)
  has_key k false e v h = inl (λ no. ground arith)
  has_key k true e v h = inr (not_null v h)

module _ {F R : Type 0} where
  pub lengths :
      (a : Attrs F R) (x y : ℤ)
      → a.min_length ≡ x
      → a.max_length ≡ y
      → check_length x y ≡ none
      → HasLengths a
  unfolding check_length
  lengths a (negsuc n) m e f h = cc
  lengths a (pos n) (negsuc m) e f h = cc
  lengths a (pos zero) (pos m) e f h = (0, m, e, f, inl refl)
  lengths a (pos (suc n)) (pos zero) e f h = (suc n, 0, e, f, inr (inl refl))
  lengths a (pos (suc n)) (pos (suc m)) e f h = (suc n, suc m, e, f, inr (inr ground arith))
