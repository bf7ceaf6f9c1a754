-- ===== src/Utils/Order.antt =====
-- The order of texts that the binary search goes by.
use blank_sr.Base.{◌≡◌, ◌∙◌, ap, refl, sym, String, true, nat_eq, arith}
use blank_sr.Utils.Search.{text_le}
use Prim.Native.Char.{Char, code}
use Prim.Native.Nat.{compare}
use Prim.Native.String as Text
use text.Mathlib.TextEquality.{codes_equal}
use text.Mathlib.TextPositions.{compare_self}

pub text_le_refl : (s : String) → text_le s s ≡ true
unfolding text_le
text_le_refl Text.[] = refl
text_le_refl (Text.◌∷◌ c s) = ground (arith, text_le_refl s)

pub text_le_trans : (s t u : String) → text_le s t ≡ true → text_le t u ≡ true → text_le s u ≡ true
unfolding text_le
text_le_trans Text.[] t u h k = refl
text_le_trans (Text.◌∷◌ c s) Text.[] u h k = cc
text_le_trans (Text.◌∷◌ c s) (Text.◌∷◌ d t) Text.[] h k = cc
text_le_trans (Text.◌∷◌ c s) (Text.◌∷◌ d t) (Text.◌∷◌ e u) h k = ground (arith, text_le_trans s t u)

code-injective : (c d : Char) → code c ≡ code d → c ≡ d
code-injective c d h =
    codes_equal c d (ap (λ n. compare (code c) n) (sym h) ∙ compare_self (code c))

pub text_le_antisym : (s t : String) → text_le s t ≡ true → text_le t s ≡ true → s ≡ t
unfolding text_le
text_le_antisym Text.[] Text.[] h k = refl
text_le_antisym Text.[] (Text.◌∷◌ d t) h k = cc
text_le_antisym (Text.◌∷◌ c s) Text.[] h k = cc
text_le_antisym (Text.◌∷◌ c s) (Text.◌∷◌ d t) h k =
    let same : code c ≡ code d = ground (arith, h, k) in
    ap (λ x. Text.◌∷◌ x s) (code-injective c d same)
    ∙ ap (Text.◌∷◌ d) (text_le_antisym s t (ground (arith, h, same)) (ground (arith, k, same)))
