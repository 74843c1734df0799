-- ===== src/Updates/Analysis.antt =====
-- What the classification of pytmbot/adapters/docker/updates.py leaves in a tag.
use pytmbot.Base.{ℕ, ◌≡◌, ◌⊎◌, refl, Bool, true, false, Option, none, some, List, arith, inl, inr}
use pytmbot.Updates.Tags.{
  TagType, semver, date, TagInfo, Packages, EnhancedTagInfo, is_valid, analyze_semver_tag,
  analyze_release_tag, analyze_numeric_tag, analyze_date_tag, analyze_name, analyze_tag,
}

module _ {V : Type 0} (p : Packages V) where
  -- All of a tag but its information.
  abbrev Parts : Type 0
  Parts = TagType × (Option V × (Option ℕ × Bool))

  abbrev parts : EnhancedTagInfo V → Parts
  parts t = (t.tag_type, (t.version_info, (t.date_info, t.parse_error)))

  analyze_name-parts :
      (i j : TagInfo) (name : List ℕ)
      → parts (analyze_name p i name) ≡ parts (analyze_name p j name)
  unfolding analyze_name analyze_semver_tag analyze_release_tag analyze_numeric_tag analyze_date_tag
  analyze_name-parts i j name = ground arith

  pub analyze_tag-parts :
      (i j : TagInfo) → i.name ≡ j.name → parts (analyze_tag p i) ≡ parts (analyze_tag p j)
  unfolding analyze_tag
  analyze_tag-parts i j e = grind (arith, analyze_name-parts)

  analyze_name-tag_info : (i : TagInfo) (name : List ℕ) → (analyze_name p i name).tag_info ≡ i
  unfolding analyze_name analyze_semver_tag analyze_release_tag analyze_numeric_tag analyze_date_tag
  analyze_name-tag_info i name = ground arith

  pub analyze_tag-tag_info : (i : TagInfo) → (analyze_tag p i).tag_info ≡ i
  unfolding analyze_tag
  analyze_tag-tag_info i = grind (arith, analyze_name-tag_info)

  abbrev is_some : {A : Type 0} → Option A → Bool
  is_some none = false
  is_some (some a) = true

  -- A tag has a version, or a date, where its type says so.
  abbrev HasKey : EnhancedTagInfo V → Type 0
  HasKey t =
      (t.tag_type ≡ semver → is_some t.version_info ≡ true)
      × (t.tag_type ≡ date → is_some t.date_info ≡ true)

  analyze_name-HasKey : (i : TagInfo) (name : List ℕ) → HasKey (analyze_name p i name)
  unfolding analyze_name analyze_semver_tag analyze_release_tag analyze_numeric_tag analyze_date_tag
  analyze_name-HasKey i name = ground arith

  analyze_tag-HasKey : (i : TagInfo) → HasKey (analyze_tag p i)
  unfolding analyze_tag
  analyze_tag-HasKey i = grind (arith, analyze_name-HasKey)

  some_of : {A : Type 0} (o : Option A) → is_some o ≡ true → (a : A) × (o ≡ some a)
  some_of none h = absurd (ground (arith, h))
  some_of (some a) h = (a, refl)

  pub version_of :
      (i : TagInfo)
      → (analyze_tag p i).tag_type ≡ semver
      → (v : V) × ((analyze_tag p i).version_info ≡ some v)
  version_of i e = some_of (analyze_tag p i).version_info ((analyze_tag-HasKey i).0 e)

  pub date_of :
      (i : TagInfo)
      → (analyze_tag p i).tag_type ≡ date
      → (d : ℕ) × ((analyze_tag p i).date_info ≡ some d)
  date_of i e = some_of (analyze_tag p i).date_info ((analyze_tag-HasKey i).1 e)

  abbrev IsErrorless : EnhancedTagInfo V → Type 0
  IsErrorless t =
      (t.tag_type ≡ semver → t.parse_error ≡ false) × (t.tag_type ≡ date → t.parse_error ≡ false)

  analyze_name-IsErrorless : (i : TagInfo) (name : List ℕ) → IsErrorless (analyze_name p i name)
  unfolding analyze_name analyze_semver_tag analyze_release_tag analyze_numeric_tag analyze_date_tag
  analyze_name-IsErrorless i name = ground arith

  analyze_tag-IsErrorless : (i : TagInfo) → IsErrorless (analyze_tag p i)
  unfolding analyze_tag
  analyze_tag-IsErrorless i = grind (arith, analyze_name-IsErrorless)

  pub named-is_valid :
      (i : TagInfo)
      → ((analyze_tag p i).tag_type ≡ semver) ⊎ ((analyze_tag p i).tag_type ≡ date)
      → is_valid (analyze_tag p i) ≡ true
  named-is_valid i (inl e) = ground (arith, e, (analyze_tag-IsErrorless i).0 e)
  named-is_valid i (inr e) = ground (arith, e, (analyze_tag-IsErrorless i).1 e)
