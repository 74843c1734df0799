-- ===== src/Updates/Compatible.antt =====
-- Which remote tags pytmbot/adapters/docker/updates.py reports as updates of a local tag.
use pytmbot.Base.{
  ℕ, ◌<◌, ◌≡◌, ◌≢◌, ◌⊎◌, String, true, false, some, arith, Bool-cases, Option-cases, inl, inr,
}
use pytmbot.Base.Eq.{nat_eq, string_eq, ==_iff}
use pytmbot.Base.Text.{text_eq, text_eq_iff}
use pytmbot.Updates.Tags.{TagType, semver, date, Stamp, Packages, EnhancedTagInfo, is_valid}
use pytmbot.Updates.Compare.{
  earlier, same_type, digest_of, tag_digests_equal, created_later, compare_tags, is_compatible,
}

-- A type whose tags are compared by the time of their creation.
abbrev IsPlain : TagType → Type 0
IsPlain t = (t ≢ semver) × (t ≢ date)

-- A remote tag is an update of a local one if both have the same name and different digests, or if
-- they have different names and one type, and the remote one is newer: by the version, with the same
-- major number, by the date in the name, or by the time of the creation.
pub data IsUpdateFor {V : Type 0} (p : Packages V) (s t : EnhancedTagInfo V) : Type 0 where
  rebuilt :
      {a b : String}
      → s.tag_info.name ≡ t.tag_info.name
      → digest_of s ≡ some a
      → digest_of t ≡ some b
      → a ≢ b
      → IsUpdateFor p s t
  newer_version :
      {v w : V}
      → s.tag_info.name ≢ t.tag_info.name
      → s.tag_type ≡ semver
      → t.tag_type ≡ semver
      → s.version_info ≡ some v
      → t.version_info ≡ some w
      → p.major v ≡ p.major w
      → p.older v w ≡ true
      → IsUpdateFor p s t
  newer_date :
      {d e : ℕ}
      → s.tag_info.name ≢ t.tag_info.name
      → s.tag_type ≡ date
      → t.tag_type ≡ date
      → s.date_info ≡ some d
      → t.date_info ≡ some e
      → d < e
      → IsUpdateFor p s t
  created_after :
      {a b : Stamp}
      → s.tag_info.name ≢ t.tag_info.name
      → IsPlain s.tag_type
      → s.tag_type ≡ t.tag_type
      → p.isoparse s.tag_info.created_at ≡ some a
      → p.isoparse t.tag_info.created_at ≡ some b
      → earlier a b ≡ some true
      → IsUpdateFor p s t

same_type_lem : (a b : TagType) → same_type a b ≡ true → a ≡ b
same_type_lem a b h = ground (arith, h)

plain_types : (t : TagType) → (t ≡ semver) ⊎ ((t ≡ date) ⊎ IsPlain t)
plain_types t = ground arith

module _ {V : Type 0} (p : Packages V) (s t : EnhancedTagInfo V) where
  different_names :
      text_eq s.tag_info.name t.tag_info.name ≡ false → s.tag_info.name ≢ t.tag_info.name
  different_names h e = ground (arith, h, (text_eq_iff s.tag_info.name t.tag_info.name).1 e)

  rebuilt_lem :
      text_eq s.tag_info.name t.tag_info.name ≡ true
      → is_compatible p s t ≡ true
      → IsUpdateFor p s t
  unfolding is_compatible tag_digests_equal
  rebuilt_lem same h = elim (Option-cases (digest_of s)) [
    | inl e ↦ absurd (ground (arith, same, h, e))
    | inr (a, e) ↦ elim (Option-cases (digest_of t)) [
      | inl f ↦ absurd (ground (arith, same, h, e, f))
      | inr (b, f) ↦
          rebuilt ((text_eq_iff s.tag_info.name t.tag_info.name).0 same) e f
            (λ ab. ground (arith, same, h, e, f, (==_iff a b).1 ab))
    ]
  ]

  newer_version_lem :
      text_eq s.tag_info.name t.tag_info.name ≡ false
      → s.tag_type ≡ semver
      → is_compatible p s t ≡ true
      → IsUpdateFor p s t
  unfolding is_compatible compare_tags
  newer_version_lem differ type h = elim (Option-cases s.version_info) [
    | inl e ↦ absurd (ground (arith, differ, type, h, e))
    | inr (v, e) ↦ elim (Option-cases t.version_info) [
      | inl f ↦ absurd (ground (arith, differ, type, h, e, f))
      | inr (w, f) ↦
          newer_version (different_names differ) type (ground (arith, differ, type, h)) e f
            (ground (arith, differ, type, h, e, f, ==_iff (p.major v) (p.major w)))
            (ground (arith, differ, type, h, e, f))
    ]
  ]

  newer_date_lem :
      text_eq s.tag_info.name t.tag_info.name ≡ false
      → s.tag_type ≡ date
      → is_compatible p s t ≡ true
      → IsUpdateFor p s t
  unfolding is_compatible compare_tags
  newer_date_lem differ type h = elim (Option-cases s.date_info) [
    | inl e ↦ absurd (ground (arith, differ, type, h, e))
    | inr (v, e) ↦ elim (Option-cases t.date_info) [
      | inl f ↦ absurd (ground (arith, differ, type, h, e, f))
      | inr (w, f) ↦
          newer_date (different_names differ) type (ground (arith, differ, type, h)) e f
            (ground (arith, differ, type, h, e, f))
    ]
  ]

  created_after_lem :
      text_eq s.tag_info.name t.tag_info.name ≡ false
      → IsPlain s.tag_type
      → is_compatible p s t ≡ true
      → IsUpdateFor p s t
  unfolding is_compatible compare_tags created_later
  created_after_lem differ type h = elim (Option-cases (p.isoparse s.tag_info.created_at)) [
    | inl e ↦ absurd (ground (arith, differ, type, h, e))
    | inr (v, e) ↦ elim (Option-cases (p.isoparse t.tag_info.created_at)) [
      | inl f ↦ absurd (ground (arith, differ, type, h, e, f))
      | inr (w, f) ↦
          created_after (different_names differ) type (ground (arith, differ, type, h)) e f
            (ground (arith, differ, type, h, e, f))
    ]
  ]

  pub is_compatible-IsUpdateFor : is_compatible p s t ≡ true → IsUpdateFor p s t
  is_compatible-IsUpdateFor h = elim (Bool-cases (text_eq s.tag_info.name t.tag_info.name)) [
    | inl same ↦ rebuilt_lem same h
    | inr differ ↦ elim (plain_types s.tag_type) [
      | inl type ↦ newer_version_lem differ type h
      | inr (inl type) ↦ newer_date_lem differ type h
      | inr (inr type) ↦ created_after_lem differ type h
    ]
  ]

  pub IsUpdateFor-is_compatible : is_valid t ≡ true → IsUpdateFor p s t → is_compatible p s t ≡ true
  unfolding is_compatible compare_tags created_later tag_digests_equal
  IsUpdateFor-is_compatible valid (rebuilt {a} {b} same e f differ) =
      ground
        (arith, valid, text_eq_iff s.tag_info.name t.tag_info.name, same, e, f, differ, ==_iff a b)
  IsUpdateFor-is_compatible valid (newer_version {v} {w} differ x y e f major newer) = ground (
    arith,
    valid,
    text_eq_iff s.tag_info.name t.tag_info.name,
    differ,
    x,
    y,
    e,
    f,
    newer,
    ==_iff (p.major v) (p.major w),
    major,
  )
  IsUpdateFor-is_compatible valid (newer_date {d} {e} differ x y g f newer) =
      ground (arith, valid, text_eq_iff s.tag_info.name t.tag_info.name, differ, x, y, g, f, newer)
  IsUpdateFor-is_compatible valid (created_after {a} {b} differ plain same e f newer) =
      ground (
        arith,
        valid,
        text_eq_iff s.tag_info.name t.tag_info.name,
        differ,
        plain,
        same,
        e,
        f,
        newer,
      )
