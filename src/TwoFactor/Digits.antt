-- ===== src/TwoFactor/Digits.antt =====
-- The reading of a one-time code from a message: `_extract_totp_code` of
-- pytmbot/handlers/auth_processing/twofa_processing.py, `is_valid_totp_code` of
-- pytmbot/utils/validation.py and the pattern of pytmbot/utils/totp.py, on texts of code points.
use pytmbot.Base.{
  ℕ, Bool, false, ◌&&◌, ◌||◌, Option, none, some, List, [], ◌∷◌, leb, length, if◌then◌else◌,
}
use pytmbot.Base.Text.{is_decimal, all_of, strip}
use pytmbot.Base.Eq.{◌==◌, nat_eq}
use pytmbot.Access.Command.{first_word, without_bot_name}

-- The first and the last code points of the digits that are not decimal, as superscripts are.
abbrev pub other_digits : List (ℕ × ℕ)
other_digits =
    (178, 179)
    ∷ (185, 185)
    ∷ (4969, 4977)
    ∷ (6618, 6618)
    ∷ (8304, 8304)
    ∷ (8308, 8313)
    ∷ (8320, 8329)
    ∷ (9312, 9320)
    ∷ (9332, 9340)
    ∷ (9352, 9360)
    ∷ (9450, 9450)
    ∷ (9461, 9469)
    ∷ (9471, 9471)
    ∷ (10102, 10110)
    ∷ (10112, 10120)
    ∷ (10122, 10130)
    ∷ (68160, 68163)
    ∷ (69216, 69224)
    ∷ (69714, 69722)
    ∷ (127232, 127242)
    ∷ []

abbrev in_ranges : ℕ → List (ℕ × ℕ) → Bool
in_ranges c [] = false
in_ranges c ((a, b) ∷ rs) = (leb a c && leb c b) || in_ranges c rs

-- `str.isdigit` at one code point.
unfoldable pub is_digit : ℕ → Bool
is_digit c = is_decimal c || in_ranges c other_digits

-- `TOTP_CODE_PATTERN.match`, on a text without white space at its end.
unfoldable pub matches_pattern : List ℕ → Bool
matches_pattern text = length text == 6 && all_of is_decimal text

unfoldable pub is_valid_totp_code : List ℕ → Bool
is_valid_totp_code text = length text == 6 && all_of is_digit text

-- The command's part before an `@`, if it is a code.
abbrev command_code : List ℕ → List ℕ
command_code command =
    let normalized = strip (without_bot_name command) in
    if matches_pattern normalized then normalized else []

abbrev code_of : List ℕ → Option (List ℕ)
code_of [] = some []
code_of (c ∷ text) =
    if c == b'/'
    then elim (first_word text) [ none ↦ none | some command ↦ some (command_code command) ]
    else some (c ∷ text)

-- `none` is the `IndexError` of a slash alone.
unfoldable pub extract_totp_code : Option (List ℕ) → Option (List ℕ)
extract_totp_code none = some []
extract_totp_code (some text) = code_of (strip text)
