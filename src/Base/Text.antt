-- ===== src/Base/Text.antt =====
-- Python's methods on texts, as lists of code points.
use Prim.Native.Nat.{ℕ, ◌+◌, ◌≤◌}
use pytmbot.Base.Lists.{length}
use mathlib.Core.Bool.{Bool, true, false, ◌&&◌, ◌||◌}
use mathlib.Core.List.{List, [], ◌∷◌}
use pytmbot.Base.Tests.{leb, if◌then◌else◌}
use mathlib.Core.Path.{◌≡◌, refl}
use mathlib.Core.Logic.{◌↔◌}
use native.Mathlib.Omega.{arith}
use pytmbot.Base.Eq.{Eq, ◌==◌, ==_iff, nat_eq}

-- What `str.strip` and `str.split` take for white space.
unfoldable pub is_space : ℕ → Bool
is_space c =
    (leb 9 c && leb c 13)
    || (leb 28 c && leb c 32)
    || c == 133
    || c == 160
    || c == 5760
    || (leb 8192 c && leb c 8202)
    || c == 8232
    || c == 8233
    || c == 8239
    || c == 8287
    || c == 12288

-- `str.lstrip`, and `str.rstrip` by the same from the end.
unfoldable pub skip_spaces : List ℕ → List ℕ
skip_spaces [] = []
skip_spaces (c ∷ text) = if is_space c then skip_spaces text else c ∷ text

abbrev is_empty : List ℕ → Bool
is_empty [] = true
is_empty (c ∷ text) = false

unfoldable pub drop_trailing : List ℕ → List ℕ
drop_trailing [] = []
drop_trailing (c ∷ text) =
    let rest = drop_trailing text in if is_space c && is_empty rest then [] else c ∷ rest

-- `str.strip`
unfoldable pub strip : List ℕ → List ℕ
strip text = drop_trailing (skip_spaces text)

-- `text.split(sep)` for one character: never an empty list.
unfoldable pub split_on : ℕ → List ℕ → List (List ℕ)
split_on sep [] = [] ∷ []
split_on sep (c ∷ text) =
    let pieces = split_on sep text in
    if c == sep
    then [] ∷ pieces
    else elim pieces [ [] ↦ (c ∷ []) ∷ [] | piece ∷ others ↦ (c ∷ piece) ∷ others ]

-- The code points of the zeros of Unicode's decimal digits; the other nine follow each.
abbrev pub zeros : List ℕ
zeros =
    48 ∷ 1632 ∷ 1776 ∷ 1984 ∷ 2406 ∷ 2534 ∷ 2662 ∷ 2790 ∷ 2918 ∷ 3046 ∷ 3174 ∷ 3302 ∷ 3430 ∷ 3558
    ∷ 3664 ∷ 3792 ∷ 3872 ∷ 4160 ∷ 4240 ∷ 6112 ∷ 6160 ∷ 6470 ∷ 6608 ∷ 6784 ∷ 6800 ∷ 6992 ∷ 7088
    ∷ 7232 ∷ 7248 ∷ 42528 ∷ 43216 ∷ 43264 ∷ 43472 ∷ 43504 ∷ 43600 ∷ 44016 ∷ 65296 ∷ 66720 ∷ 68912
    ∷ 69734 ∷ 69872 ∷ 69942 ∷ 70096 ∷ 70384 ∷ 70736 ∷ 70864 ∷ 71248 ∷ 71360 ∷ 71472 ∷ 71904 ∷ 72016
    ∷ 72784 ∷ 73040 ∷ 73120 ∷ 92768 ∷ 92864 ∷ 93008 ∷ 120782 ∷ 120792 ∷ 120802 ∷ 120812 ∷ 120822
    ∷ 123200 ∷ 123632 ∷ 125264 ∷ 130032 ∷ []

abbrev in_ten : ℕ → List ℕ → Bool
in_ten c [] = false
in_ten c (z ∷ zs) = (leb z c && leb c (z + 9)) || in_ten c zs

-- What `\d` matches in a pattern on texts.
unfoldable pub is_decimal : ℕ → Bool
is_decimal c = in_ten c zeros

unfoldable pub all_of : (ℕ → Bool) → List ℕ → Bool
all_of p [] = true
all_of p (c ∷ text) = p c && all_of p text

-- `str.lower` on the ASCII letters. Nothing else is lowered to a text of ASCII letters that the
-- sources compare with but the Kelvin sign, to `k`, and none of these texts has a `k`.
abbrev to_lower : ℕ → ℕ
to_lower c = if leb b'A' c && leb c b'Z' then c + 32 else c

unfoldable pub lower : List ℕ → List ℕ
lower [] = []
lower (c ∷ text) = to_lower c ∷ lower text

abbrev pub text_eq : List ℕ → List ℕ → Bool
text_eq [] [] = true
text_eq (a ∷ xs) (b ∷ ys) = a == b && text_eq xs ys
text_eq _ _ = false

pub text_eq_iff : (xs ys : List ℕ) → (text_eq xs ys ≡ true) ↔ (xs ≡ ys)
text_eq_iff [] [] = ((λ e. refl), λ e. refl)
text_eq_iff [] (y ∷ ys) = ((λ e. ground (arith, e)), λ e. ground (arith, e))
text_eq_iff (x ∷ xs) [] = ((λ e. ground (arith, e)), λ e. ground (arith, e))
text_eq_iff (x ∷ xs) (y ∷ ys) = (
  (λ e. ground (arith, e, ==_iff x y, text_eq_iff xs ys)),
  λ e. ground (arith, e, ==_iff x y, text_eq_iff xs ys),
)

instance abbrev pub codes_eq : Eq (List ℕ)
codes_eq = record { same = text_eq; same_iff = text_eq_iff }

skip_spaces-skip_spaces : (text : List ℕ) → skip_spaces (skip_spaces text) ≡ skip_spaces text
unfolding skip_spaces
skip_spaces-skip_spaces [] = refl
skip_spaces-skip_spaces (c ∷ text) = ground (arith, skip_spaces-skip_spaces text)

drop_trailing-drop_trailing :
    (text : List ℕ) → drop_trailing (drop_trailing text) ≡ drop_trailing text
unfolding drop_trailing
drop_trailing-drop_trailing [] = refl
drop_trailing-drop_trailing (c ∷ text) = ground (arith, drop_trailing-drop_trailing text)

length-skip_spaces : (text : List ℕ) → length (skip_spaces text) ≤ length text
unfolding skip_spaces
length-skip_spaces [] = omega arith
length-skip_spaces (c ∷ text) = ground (arith, length-skip_spaces text)

-- Trimming the end leaves a text that starts without white space so.
skip_spaces-drop_trailing :
    (text : List ℕ)
    → skip_spaces text ≡ text
    → skip_spaces (drop_trailing text) ≡ drop_trailing text
unfolding skip_spaces drop_trailing
skip_spaces-drop_trailing [] h = refl
skip_spaces-drop_trailing (c ∷ text) h = ground (arith, h, length-skip_spaces text)

pub strip-strip : (text : List ℕ) → strip (strip text) ≡ strip text
unfolding strip
strip-strip text =
    rw (skip_spaces-drop_trailing (skip_spaces text) (skip_spaces-skip_spaces text))
      (drop_trailing-drop_trailing (skip_spaces text))
