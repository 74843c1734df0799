-- ===== src/Updates/Tags.antt =====
-- The classification of tags: `TagType`, `EnhancedTagInfo` and `TagAnalyzer.analyze_tag` of
-- pytmbot/adapters/docker/updates.py. A text is a list of code points. `version.parse` and the
-- versions belong to the packaging package; `isoparse` belongs to dateutil.
use pytmbot.Base.{
  ℕ, ◌+◌, ◌*◌, ◌%◌, String, Bool, true, false, not, ◌&&◌, ◌||◌, Option, none, some, List, [], ◌∷◌,
  leb, if◌then◌else◌,
}
use pytmbot.Base.Eq.{◌==◌, nat_eq}
use pytmbot.Base.Text.{strip, lower, text_eq}
use pytmbot.Updates.Patterns.{
  matches_sha, matches_numeric, match_semver, match_release, match_date, DateGroups,
}

pub data TagType : Type 0 where
  semver date latest sha custom invalid : TagType

abbrev pub priority : TagType → ℕ
priority semver = 100
priority date = 80
priority latest = 60
priority sha = 40
priority custom = 20
priority invalid = 0

pub record TagInfo : Type 0 where
  pub name : List ℕ
  pub created_at : List ℕ
  pub digest : Option String

-- A `datetime` with or without a time zone, by its place in the order of those of its kind.
pub data Stamp : Type 0 where
  naive aware : ℕ → Stamp

-- What the module uses of the two packages: `version.parse`, the major number and the order of
-- versions, and `isoparse`; `none` is the exception of either reader.
pub record Packages (V : Type 0) : Type 0 where
  pub parse : List ℕ → Option V
  pub major : V → ℕ
  pub older : V → V → Bool
  pub isoparse : List ℕ → Option Stamp

-- `parse_error` is whether there is one.
pub record EnhancedTagInfo (V : Type 0) : Type 0 where
  pub tag_info : TagInfo
  pub tag_type : TagType
  pub version_info : Option V
  pub date_info : Option ℕ
  pub parse_error : Bool

abbrev leap_year : ℕ → Bool
leap_year y = (y % 4 == 0) && (not (y % 100 == 0) || y % 400 == 0)

abbrev days_in_month : ℕ → ℕ → ℕ
days_in_month year month =
    if month == 2
    then (if leap_year year then 29 else 28)
    else if month == 4 || month == 6 || month == 9 || month == 11
    then 30
    else 31

-- The place of a time among all others, with 31 days in each month.
abbrev place : ℕ → ℕ → ℕ → ℕ × (ℕ × ℕ) → ℕ
place year month day (hour, (minute, second)) =
    ((((year * 12 + month) * 31 + day) * 24 + hour) * 60 + minute) * 60 + second

abbrev valid_time : ℕ × (ℕ × ℕ) → Bool
valid_time (hour, (minute, second)) = leb hour 23 && leb minute 59 && leb second 59

abbrev time_or_midnight : Option (ℕ × (ℕ × ℕ)) → ℕ × (ℕ × ℕ)
time_or_midnight none = (0, (0, 0))
time_or_midnight (some time) = time

-- `_build_tag_date_info`; `none` is its `ValueError`, or that of `datetime`.
unfoldable pub build_date : DateGroups → Option ℕ
build_date g =
    let time = time_or_midnight g.time in
    if leb 2_000 g.year
      && leb g.year 2_100
      && leb 1 g.month
      && leb g.month 12
      && leb 1 g.day
      && leb g.day (days_in_month g.year g.month)
      && valid_time time
    then some (place g.year g.month g.day time)
    else none

abbrev in_texts : List ℕ → List (List ℕ) → Bool
in_texts name [] = false
in_texts name (text ∷ texts) = text_eq name text || in_texts name texts

-- `_LATEST_TAG_NAMES`
abbrev latest_tag_names : List (List ℕ)
latest_tag_names =
    (b'l' ∷ b'a' ∷ b't' ∷ b'e' ∷ b's' ∷ b't' ∷ [])
    ∷ (b'c' ∷ b'u' ∷ b'r' ∷ b'r' ∷ b'e' ∷ b'n' ∷ b't' ∷ [])
    ∷ (b's' ∷ b't' ∷ b'a' ∷ b'b' ∷ b'l' ∷ b'e' ∷ [])
    ∷ (b'm' ∷ b'a' ∷ b'i' ∷ b'n' ∷ [])
    ∷ (b'm' ∷ b'a' ∷ b's' ∷ b't' ∷ b'e' ∷ b'r' ∷ [])
    ∷ []

module _ {V : Type 0} (p : Packages V) where
  abbrev pub plain : TagInfo → TagType → Bool → EnhancedTagInfo V
  plain info tag_type parse_error = record {
    tag_info = info;
    tag_type = tag_type;
    version_info = none;
    date_info = none;
    parse_error = parse_error;
  }

  abbrev versioned : TagInfo → V → EnhancedTagInfo V
  versioned info v = record (plain info semver false) { version_info = some v }

  -- `_analyze_semver_tag`: a version that is not read is a custom tag with an error.
  unfoldable pub analyze_semver_tag : TagInfo → List ℕ → Option (EnhancedTagInfo V)
  analyze_semver_tag info name = elim (match_semver name) [
    | none ↦ none
    | some text ↦ elim (p.parse text) [
      | none ↦ some (plain info custom true)
      | some v ↦ some (versioned info v)
    ]
  ]

  -- `_analyze_release_tag`
  unfoldable pub analyze_release_tag : TagInfo → List ℕ → Option (EnhancedTagInfo V)
  analyze_release_tag info name = elim (match_release name) [
    | none ↦ none
    | some text ↦ elim (p.parse text) [ none ↦ none | some v ↦ some (versioned info v) ]
  ]

  -- `_analyze_numeric_tag`
  unfoldable pub analyze_numeric_tag : TagInfo → List ℕ → Option (EnhancedTagInfo V)
  analyze_numeric_tag info name =
      if matches_numeric name
      then elim (p.parse name) [ none ↦ none | some v ↦ some (versioned info v) ]
      else none

  -- `_analyze_date_tag`
  unfoldable pub analyze_date_tag : TagInfo → List ℕ → Option (EnhancedTagInfo V)
  unfolding build_date
  analyze_date_tag info name = elim (match_date name) [
    | none ↦ none
    | some groups ↦ elim (build_date groups) [
      | none ↦ some (plain info custom true)
      | some d ↦ some (record (plain info date false) { date_info = some d })
    ]
  ]

  abbrev or_next :
      Option (EnhancedTagInfo V) → Option (EnhancedTagInfo V) → Option (EnhancedTagInfo V)
  or_next none second = second
  or_next (some tag) second = some tag

  abbrev or_custom : TagInfo → Option (EnhancedTagInfo V) → EnhancedTagInfo V
  or_custom info none = plain info custom false
  or_custom info (some tag) = tag

  -- A name that is not empty.
  unfoldable pub analyze_name : TagInfo → List ℕ → EnhancedTagInfo V
  unfolding analyze_semver_tag analyze_release_tag analyze_numeric_tag analyze_date_tag
  analyze_name info name =
      if in_texts (lower name) latest_tag_names
      then plain info latest false
      else if matches_sha (lower name)
      then plain info sha false
      else or_custom info (
          or_next (analyze_semver_tag info name) (
            or_next (analyze_release_tag info name)
              (or_next (analyze_numeric_tag info name) (analyze_date_tag info name))))

  -- `analyze_tag`
  unfoldable pub analyze_tag : TagInfo → EnhancedTagInfo V
  unfolding analyze_name strip
  analyze_tag info = elim (strip info.name) [
    | [] ↦ plain info invalid true
    | c ∷ text ↦ analyze_name info (c ∷ text)
  ]

abbrev is_invalid : TagType → Bool
is_invalid invalid = true
is_invalid _ = false

abbrev pub is_valid : {V : Type 0} → EnhancedTagInfo V → Bool
is_valid t = not (is_invalid t.tag_type) && not t.parse_error

-- The loop of `_fetch_tags_from_registry_url` over the entries that are read: the valid tags.
unfoldable pub valid_tags : {V : Type 0} → Packages V → List TagInfo → List (EnhancedTagInfo V)
unfolding analyze_tag
valid_tags p [] = []
valid_tags p (info ∷ infos) =
    let rest = valid_tags p infos in
    let tag = analyze_tag p info in if is_valid tag then tag ∷ rest else rest
