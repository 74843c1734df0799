-- ===== src/Updates/Numbers.antt =====
-- How pytmbot/adapters/docker/updates.py classifies the names of tags that are numbers.
use pytmbot.Base.{ℕ, ◌≤◌, ◌≡◌, refl, true, false, List, [], ◌∷◌, arith, length, All}
use pytmbot.Base.Eq.{nat_eq}
use pytmbot.Base.Text.{strip, skip_spaces, drop_trailing, is_space, lower, all_of}
use pytmbot.Updates.Patterns.{is_hex, matches_sha}
use pytmbot.Updates.Tags.{sha, TagInfo, Packages, analyze_tag, analyze_name}

-- The ASCII digits.
abbrev IsDigit : ℕ → Type 0
IsDigit c = (b'0' ≤ c) × (c ≤ b'9')

digit-is_space : (c : ℕ) → IsDigit c → is_space c ≡ false
unfolding is_space
digit-is_space c h = ground (arith, h)

lower-digits : (text : List ℕ) → All IsDigit text → lower text ≡ text
unfolding lower
lower-digits [] h = refl
lower-digits (c ∷ text) h = ground (arith, h, lower-digits text h.1)

drop_trailing-digits : (text : List ℕ) → All IsDigit text → drop_trailing text ≡ text
unfolding drop_trailing
drop_trailing-digits [] h = refl
drop_trailing-digits (c ∷ text) h =
    ground (arith, digit-is_space c h.0, drop_trailing-digits text h.1)

strip-digits : (text : List ℕ) → All IsDigit text → strip text ≡ text
unfolding strip skip_spaces
strip-digits [] h = drop_trailing-digits [] tt
strip-digits (c ∷ text) h = ground (arith, digit-is_space c h.0, drop_trailing-digits (c ∷ text) h)

digits_are_hex : (text : List ℕ) → All IsDigit text → all_of is_hex text ≡ true
unfolding all_of
digits_are_hex [] h = refl
digits_are_hex (c ∷ text) h = ground (arith, h, digits_are_hex text h.1)

matches_sha-digits :
    (text : List ℕ)
    → All IsDigit text
    → 7 ≤ length text
    → length text ≤ 64
    → matches_sha text ≡ true
unfolding matches_sha
matches_sha-digits text h long short = ground (arith, long, short, digits_are_hex text h)

-- A name of 7 to 64 digits is never taken for a version or a date, though it may be one, as `20240115`
-- for a day: it is classified as the hash of a commit.
pub digits_are_hashes :
    {V : Type 0} (p : Packages V) (info : TagInfo)
    → All IsDigit info.name
    → 7 ≤ length info.name
    → length info.name ≤ 64
    → (analyze_tag p info).tag_type ≡ sha
unfolding analyze_tag analyze_name
digits_are_hashes p info digits long short = by_name info.name refl digits long short
  where
    by_name :
        (name : List ℕ)
        → info.name ≡ name
        → All IsDigit name
        → 7 ≤ length name
        → length name ≤ 64
        → (analyze_tag p info).tag_type ≡ sha
    by_name [] e h l m = absurd (omega (arith, l))
    by_name (c ∷ text) e h l m = ground (
      arith,
      e,
      h,
      strip-digits (c ∷ text) h,
      lower-digits (c ∷ text) h,
      matches_sha-digits (c ∷ text) h l m,
    )
