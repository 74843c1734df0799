-- ===== src/Updates/Compare.antt =====
-- The comparison of tags and the search for updates: `EnhancedTagInfo.__lt__`,
-- `_compare_enhanced_tags`, `_tag_digests_equal` and `_find_compatible_tag_updates` of
-- pytmbot/adapters/docker/updates.py.
use pytmbot.Base.{
  ℕ, String, Bool, true, false, not, ◌&&◌, Option, none, some, List, [], ◌∷◌, ltb, map, take,
  if◌then◌else◌, ◌>>=◌,
}
use pytmbot.Base.Eq.{◌==◌, nat_eq, string_eq}
use pytmbot.Base.Text.{text_eq}
use pytmbot.Updates.Tags.{
  TagType, semver, date, priority, Stamp, naive, aware, Packages, EnhancedTagInfo, is_valid,
}

-- `<` of two datetimes; `none` is the `TypeError` of one with a time zone and one without.
abbrev pub earlier : Stamp → Stamp → Option Bool
earlier (naive a) (naive b) = some (ltb a b)
earlier (aware a) (aware b) = some (ltb a b)
earlier _ _ = none

-- `<` of two texts.
unfoldable pub text_lt : List ℕ → List ℕ → Bool
text_lt [] [] = false
text_lt [] (b ∷ ys) = true
text_lt (a ∷ xs) [] = false
text_lt (a ∷ xs) (b ∷ ys) = let rest = text_lt xs ys in if a == b then rest else ltb a b

abbrev pub same_type : TagType → TagType → Bool
same_type a b = priority a == priority b

-- A digest that is there and not empty.
abbrev pub digest_of : {V : Type 0} → EnhancedTagInfo V → Option String
digest_of t = elim t.tag_info.digest [
  | none ↦ none
  | some digest ↦ if digest == "" then none else some digest
]

unfoldable pub tag_digests_equal : {V : Type 0} → EnhancedTagInfo V → EnhancedTagInfo V → Bool
tag_digests_equal s t = elim (digest_of s) [
  | none ↦ false
  | some a ↦ elim (digest_of t) [ none ↦ false | some b ↦ a == b ]
]

pub record UpdateInfo : Type 0 where
  pub current_tag : List ℕ
  pub newer_tag : List ℕ
  pub created_at_local : List ℕ
  pub created_at_remote : List ℕ
  pub current_digest : String

abbrev pub update_of : {V : Type 0} → EnhancedTagInfo V → EnhancedTagInfo V → UpdateInfo
update_of s t = record {
  current_tag = s.tag_info.name;
  newer_tag = t.tag_info.name;
  created_at_local = s.tag_info.created_at;
  created_at_remote = t.tag_info.created_at;
  current_digest = elim (digest_of s) [ none ↦ "" | some digest ↦ digest ];
}

-- `MAX_UPDATES_PER_REPO`
abbrev pub max_updates : ℕ
max_updates = 10

module _ {V : Type 0} (p : Packages V) where
  abbrev by_name : EnhancedTagInfo V → EnhancedTagInfo V → Bool
  by_name s t = text_lt s.tag_info.name t.tag_info.name

  -- The order of two tags by the times of their creation, or by their names.
  unfoldable pub created_lt : EnhancedTagInfo V → EnhancedTagInfo V → Option Bool
  unfolding text_lt
  created_lt s t = elim (p.isoparse s.tag_info.created_at) [
    | none ↦ some (by_name s t)
    | some a ↦ elim (p.isoparse t.tag_info.created_at) [
      | none ↦ some (by_name s t)
      | some b ↦ earlier a b
    ]
  ]

  abbrev version_lt : Option V → Option V → Option Bool → Option Bool
  version_lt (some v) (some w) other = some (p.older v w)
  version_lt _ _ other = other

  abbrev date_lt : Option ℕ → Option ℕ → Option Bool → Option Bool
  date_lt (some d) (some e) other = some (ltb d e)
  date_lt _ _ other = other

  -- `__lt__`
  unfoldable pub tag_lt : EnhancedTagInfo V → EnhancedTagInfo V → Option Bool
  unfolding created_lt
  tag_lt s t =
      if same_type s.tag_type t.tag_type
      then elim s.tag_type [
        | semver ↦ version_lt s.version_info t.version_info (created_lt s t)
        | date ↦ date_lt s.date_info t.date_info (created_lt s t)
        | _ ↦ created_lt s t
      ]
      else some (ltb (priority s.tag_type) (priority t.tag_type))

  abbrev or_false : Option Bool → Bool
  or_false none = false
  or_false (some b) = b

  -- The remote tag was created later; what is not read or not comparable was not.
  unfoldable pub created_later : EnhancedTagInfo V → EnhancedTagInfo V → Bool
  created_later s t = elim (p.isoparse s.tag_info.created_at) [
    | none ↦ false
    | some a ↦ elim (p.isoparse t.tag_info.created_at) [
      | none ↦ false
      | some b ↦ or_false (earlier a b)
    ]
  ]

  -- `_compare_enhanced_tags` of the local and the remote tag.
  unfoldable pub compare_tags : EnhancedTagInfo V → EnhancedTagInfo V → Bool
  unfolding created_later
  compare_tags s t = same_type s.tag_type t.tag_type && elim s.tag_type [
    | semver ↦ or_false (version_lt s.version_info t.version_info none)
    | date ↦ or_false (date_lt s.date_info t.date_info none)
    | _ ↦ created_later s t
  ]

  abbrev same_major : Option V → Option V → Bool
  same_major (some v) (some w) = p.major v == p.major w
  same_major _ _ = false

  abbrev has_digest : EnhancedTagInfo V → Bool
  has_digest t = elim (digest_of t) [ none ↦ false | some digest ↦ true ]

  -- Whether the loop of `_find_compatible_tag_updates` appends a remote tag.
  unfoldable pub is_compatible : EnhancedTagInfo V → EnhancedTagInfo V → Bool
  unfolding compare_tags tag_digests_equal
  is_compatible s t =
      if not (is_valid t)
      then false
      else if text_eq s.tag_info.name t.tag_info.name
      then not (tag_digests_equal s t) && has_digest s && has_digest t
      else elim s.tag_type [
        | semver ↦ same_major s.version_info t.version_info && compare_tags s t
        | _ ↦ compare_tags s t
      ]

  unfoldable pub compatible_tags :
      EnhancedTagInfo V → List (EnhancedTagInfo V) → List (EnhancedTagInfo V)
  unfolding is_compatible
  compatible_tags s [] = []
  compatible_tags s (t ∷ ts) =
      let rest = compatible_tags s ts in if is_compatible s t then t ∷ rest else rest

  unfoldable pub insert_tag :
      EnhancedTagInfo V → List (EnhancedTagInfo V) → Option (List (EnhancedTagInfo V))
  unfolding tag_lt
  insert_tag s [] = some (s ∷ [])
  insert_tag s (t ∷ ts) = do
    less ← tag_lt s t
    elim less [ false ↦ some (s ∷ t ∷ ts) | true ↦ do rest ← insert_tag s ts; some (t ∷ rest) ]

  -- `compatible_tags.sort(reverse=True)`, which keeps the order of equal tags; `none` is the
  -- `TypeError` of a comparison. Where `<` is an order, this is the one list that Python's sort can
  -- leave.
  unfoldable pub sort_tags : List (EnhancedTagInfo V) → Option (List (EnhancedTagInfo V))
  unfolding insert_tag
  sort_tags [] = some []
  sort_tags (t ∷ ts) = sort_tags ts >>= insert_tag t

  -- `_find_compatible_tag_updates`
  unfoldable pub find_updates :
      EnhancedTagInfo V → List (EnhancedTagInfo V) → Option (List UpdateInfo)
  unfolding compatible_tags sort_tags
  find_updates s remotes =
      if is_valid s
      then elim (sort_tags (compatible_tags s remotes)) [
        | none ↦ none
        | some sorted ↦ some (map (update_of s) (take max_updates sorted))
      ]
      else some []
