-- ===== src/Updates/Patterns.antt =====
-- The patterns of tags of pytmbot/adapters/docker/updates.py, on texts of code points. A name that
-- they are tried on has no white space at its end, so `$` is the end of the text.
use pytmbot.Base.{
  ℕ, zero, suc, ◌+◌, ◌-◌, ◌*◌, Bool, true, false, ◌&&◌, ◌||◌, Option, none, some, List, [], ◌∷◌,
  leb, length, if◌then◌else◌, ◌>>=◌,
}
use pytmbot.Base.Eq.{◌==◌, nat_eq}
use pytmbot.Base.Text.{zeros, is_decimal, all_of}

-- `_TAG_SHA_PATTERN`
abbrev pub is_hex : ℕ → Bool
is_hex c = (leb b'0' c && leb c b'9') || (leb b'a' c && leb c b'f')

unfoldable pub matches_sha : List ℕ → Bool
unfolding all_of
matches_sha text = leb 7 (length text) && leb (length text) 64 && all_of is_hex text

-- `\d+(\.\d+)*` to the end of the text; the first argument tells whether the component at hand has a
-- digit.
unfoldable pub dotted_digits : Bool → List ℕ → Bool
unfolding is_decimal
dotted_digits seen [] = seen
dotted_digits seen (c ∷ text) = elim (is_decimal c) [
  | true ↦ dotted_digits true text
  | false ↦ elim (seen && c == b'.') [ true ↦ dotted_digits false text | false ↦ false ]
]

-- `_TAG_NUMERIC_PATTERN`
abbrev pub matches_numeric : List ℕ → Bool
matches_numeric text = dotted_digits false text

abbrev cons_first : ℕ → Option (List ℕ × List ℕ) → Option (List ℕ × List ℕ)
cons_first c none = none
cons_first c (some (xs, rest)) = some (c ∷ xs, rest)

-- `\d+\.\d+\.\d+`, with so many dots to come: the text that matches, and the rest.
unfoldable pub core : ℕ → Bool → List ℕ → Option (List ℕ × List ℕ)
unfolding is_decimal
core dots seen [] = if seen && dots == 0 then some ([], []) else none
core dots seen (c ∷ text) = elim (is_decimal c) [
  | true ↦ cons_first c (core dots true text)
  | false ↦ elim seen [
    | false ↦ none
    | true ↦ elim dots [
      | zero ↦ some ([], c ∷ text)
      | suc n ↦ elim (c == b'.') [ true ↦ cons_first c (core n false text) | false ↦ none ]
    ]
  ]
]

abbrev is_identifier : ℕ → Bool
is_identifier c =
    (leb b'0' c && leb c b'9')
    || (leb b'A' c && leb c b'Z')
    || (leb b'a' c && leb c b'z')
    || c == b'-'

-- The identifiers of a prerelease, which a `+` may end, or of a build.
unfoldable pub identifiers : Bool → Bool → List ℕ → Bool
identifiers plus seen [] = seen
identifiers plus seen (c ∷ text) = elim (is_identifier c) [
  | true ↦ identifiers plus true text
  | false ↦ elim (seen && c == b'.') [
    | true ↦ identifiers plus false text
    | false ↦ elim (seen && plus && c == b'+') [
      | true ↦ identifiers false false text
      | false ↦ false
    ]
  ]
]

abbrev is_suffix : List ℕ → Bool
is_suffix [] = true
is_suffix (c ∷ text) =
    if c == b'-'
    then identifiers true false text
    else if c == b'+'
    then identifiers false false text
    else false

abbrev without_v : List ℕ → List ℕ
without_v [] = []
without_v (c ∷ text) = if c == b'v' then text else c ∷ text

-- `_TAG_SEMVER_PATTERN`: the group 1 of its match.
unfoldable pub match_semver : List ℕ → Option (List ℕ)
unfolding core identifiers
match_semver text = elim (core 2 false (without_v text)) [
  | none ↦ none
  | some (version, suffix) ↦ if is_suffix suffix then some version else none
]

-- One of the separators, if it is there.
abbrev skip_separator : List ℕ → List ℕ
skip_separator [] = []
skip_separator (c ∷ text) = if c == b'-' || c == b'_' || c == b'.' then text else c ∷ text

-- Whether a code point matches a lower-case letter where case is ignored; the long s matches an s.
abbrev same_letter : ℕ → ℕ → Bool
same_letter letter c = c == letter || c + 32 == letter || (letter == b's' && c == 383)

unfoldable pub after_word : List ℕ → List ℕ → Option (List ℕ)
after_word [] text = some text
after_word (letter ∷ word) [] = none
after_word (letter ∷ word) (c ∷ text) =
    let rest = after_word word text in if same_letter letter c then rest else none

abbrev without_any_v : List ℕ → List ℕ
without_any_v [] = []
without_any_v (c ∷ text) = if same_letter b'v' c then text else c ∷ text

-- The number after one of the words.
unfoldable pub release_number : List ℕ → List ℕ → Option (List ℕ)
unfolding after_word dotted_digits
release_number word text = elim (after_word word text) [
  | none ↦ none
  | some rest ↦
      let number = without_any_v (skip_separator rest) in
      if matches_numeric number then some number else none
]

abbrev or_else : Option (List ℕ) → Option (List ℕ) → Option (List ℕ)
or_else none second = second
or_else (some text) second = some text

-- `_TAG_RELEASE_PATTERN`: the group 2 of its match.
unfoldable pub match_release : List ℕ → Option (List ℕ)
unfolding release_number
match_release text =
    or_else (release_number (b'r' ∷ b'e' ∷ b'l' ∷ b'e' ∷ b'a' ∷ b's' ∷ b'e' ∷ []) text)
      (or_else (release_number (b'r' ∷ b'e' ∷ b'l' ∷ []) text) (release_number (b'r' ∷ []) text))

-- `int` of a decimal digit.
abbrev digit_value : ℕ → List ℕ → ℕ
digit_value c [] = 0
digit_value c (z ∷ zs) = if leb z c && leb c (z + 9) then c - z else digit_value c zs

-- `\d{n}` at the start: its `int`, from the value before it, and the rest.
unfoldable pub digits : ℕ → ℕ → List ℕ → Option (ℕ × List ℕ)
unfolding is_decimal
digits zero value text = some (value, text)
digits (suc n) value [] = none
digits (suc n) value (c ∷ text) =
    let rest = digits n (value * 10 + digit_value c zeros) text in
    if is_decimal c then rest else none

-- The groups of a match of `_TAG_DATE_PATTERN`; those of the time are there together.
pub record DateGroups : Type 0 where
  pub year : ℕ
  pub month : ℕ
  pub day : ℕ
  pub time : Option (ℕ × (ℕ × ℕ))

unfoldable pub match_time : List ℕ → Option (ℕ × (ℕ × ℕ))
unfolding digits
match_time text = do
  (hour, t1) ← digits 2 0 (skip_separator text)
  (minute, t2) ← digits 2 0 (skip_separator t1)
  (second, t3) ← digits 2 0 (skip_separator t2)
  elim t3 [ [] ↦ some (hour, (minute, second)) | _ ∷ _ ↦ none ]

unfoldable pub match_date : List ℕ → Option DateGroups
unfolding match_time
match_date text = do
  (year, t1) ← digits 4 0 text
  (month, t2) ← digits 2 0 (skip_separator t1)
  (day, t3) ← digits 2 0 (skip_separator t2)
  elim t3 [
    | [] ↦ some (record { year = year; month = month; day = day; time = none })
    | c ∷ rest ↦ do
      time ← match_time (c ∷ rest)
      some (record { year = year; month = month; day = day; time = some time })
  ]
