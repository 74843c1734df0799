-- ===== src/Updates/Local.antt =====
-- The catalog of the local images: `_extract_image_digest`, `_parse_image_tag` and
-- `_process_local_image_tags` of pytmbot/adapters/docker/updates.py, on what the docker package gives
-- for an image. `normalize_created_at` is left to the caller.
use pytmbot.Base.{
  ℕ, ◌+◌, ◌≤◌, ◌≡◌, refl, sym, ◌∙◌, Bool, true, false, ◌||◌, Option, none, some, List, [], ◌∷◌,
  ◌++◌, arith, leb, length, if◌then◌else◌,
}
use pytmbot.Base.Eq.{◌==◌, nat_eq}
use pytmbot.Base.Dict.{Dict, lookup, insert}
use pytmbot.Base.Text.{strip, split_on, codes_eq}

abbrev slash : ℕ
slash = b'/'

abbrev colon : ℕ
colon = b':'

-- `text.count(c)`
unfoldable pub count : ℕ → List ℕ → ℕ
count c [] = 0
count c (d ∷ text) = let rest = count c text in if d == c then rest + 1 else rest

-- `"/".join(parts[-2:])`
unfoldable pub join_last_two : List (List ℕ) → List ℕ
join_last_two [] = []
join_last_two (a ∷ []) = a
join_last_two (a ∷ b ∷ []) = a ++ slash ∷ b
join_last_two (a ∷ b ∷ c ∷ parts) = join_last_two (b ∷ c ∷ parts)

-- The repository and the tag after the last two parts of the name are taken.
unfoldable pub repo_tag : List ℕ → List ℕ
unfolding count split_on join_last_two
repo_tag text = if leb 2 (count slash text) then join_last_two (split_on slash text) else text

-- `rsplit(":", 1)`, if there is a colon.
unfoldable pub split_last : List ℕ → Option (List ℕ × List ℕ)
split_last [] = none
split_last (c ∷ text) = elim (split_last text) [
  | some (before, after) ↦ some (c ∷ before, after)
  | none ↦ if c == colon then some ([], text) else none
]

abbrev default_tag : List ℕ
default_tag = b'l' ∷ b'a' ∷ b't' ∷ b'e' ∷ b's' ∷ b't' ∷ []

abbrev is_empty : List ℕ → Bool
is_empty [] = true
is_empty (c ∷ text) = false

-- `_parse_image_tag` of a name that is stripped and not empty; `none` is the `ValueError`.
unfoldable pub parse_normalized : List ℕ → Option (List ℕ × List ℕ)
unfolding repo_tag split_last
parse_normalized text = elim (split_last (repo_tag text)) [
  | none ↦ some (repo_tag text, default_tag)
  | some (repo, version) ↦ if is_empty repo || is_empty version then none else some (repo, version)
]

unfoldable pub parse_image_tag : List ℕ → Option (List ℕ × List ℕ)
unfolding parse_normalized
parse_image_tag tag = elim (strip tag) [ [] ↦ none | c ∷ text ↦ parse_normalized (c ∷ text) ]

pub record LocalTag : Type 0 where
  pub tag : List ℕ
  pub created_at : Option (List ℕ)
  pub digest : Option (List ℕ)

abbrev pub Catalog : Type 0
Catalog = Dict (List ℕ) (List LocalTag)

abbrev append_tag : List ℕ → LocalTag → Catalog → Catalog
append_tag repo t d = insert repo ((elim (lookup repo d) [ none ↦ [] | some ts ↦ ts ]) ++ t ∷ []) d

-- `_process_local_image_tags`, for the names of an image, which are texts.
unfoldable pub process_tags : Option (List ℕ) → Option (List ℕ) → List (List ℕ) → Catalog → Catalog
unfolding parse_image_tag
process_tags created_at digest [] d = d
process_tags created_at digest (tag ∷ tags) d = elim (strip tag) [
  | [] ↦ process_tags created_at digest tags d
  | c ∷ text ↦ elim (parse_image_tag (c ∷ text)) [
    | none ↦ process_tags created_at digest tags d
    | some (repo, version) ↦ process_tags created_at digest tags (
        if is_empty repo || leb 256 (length repo)
        then d
        else append_tag repo (record { tag = version; created_at = created_at; digest = digest }) d)
  ]
]

split_on-first :
    (p t : List ℕ) → count slash p ≡ 0 → split_on slash (p ++ slash ∷ t) ≡ p ∷ split_on slash t
unfolding count split_on
split_on-first [] t h = refl
split_on-first (c ∷ p) t h = ground (arith, h, split_on-first p t)

count-append : (p t : List ℕ) → count slash (p ++ t) ≡ count slash p + count slash t
unfolding count
count-append [] t = omega arith
count-append (c ∷ p) t = ground (arith, count-append p t)

length-split_on : (t : List ℕ) → length (split_on slash t) ≡ count slash t + 1
unfolding count split_on
length-split_on [] = refl
length-split_on (c ∷ t) = ground (arith, length-split_on t)

join_last_two-cons :
    (p : List ℕ) (parts : List (List ℕ))
    → 2 ≤ length parts
    → join_last_two (p ∷ parts) ≡ join_last_two parts
unfolding join_last_two
join_last_two-cons p [] h = absurd (omega (arith, h))
join_last_two-cons p (a ∷ []) h = absurd (omega (arith, h))
join_last_two-cons p (a ∷ b ∷ parts) h = refl

repo_tag-registry :
    (p t : List ℕ)
    → count slash p ≡ 0
    → 1 ≤ count slash t
    → repo_tag (p ++ slash ∷ t) ≡ join_last_two (split_on slash t)
unfolding repo_tag count
repo_tag-registry p t h parts = ground (
  arith,
  h,
  parts,
  count-append p (slash ∷ t),
  split_on-first p t h,
  length-split_on t,
  join_last_two-cons p (split_on slash t),
)

-- The registry of an image is not kept: images of the same last two parts and tag, as
-- `ghcr.io/org/app:1` and `quay.io/org/app:1`, are read as one repository, whose tags are then asked of
-- one registry.
pub registries_are_ignored :
    (p q t : List ℕ)
    → count slash p ≡ 0
    → count slash q ≡ 0
    → 1 ≤ count slash t
    → parse_normalized (p ++ slash ∷ t) ≡ parse_normalized (q ++ slash ∷ t)
unfolding parse_normalized
registries_are_ignored p q t hp hq parts =
    let same : repo_tag (p ++ slash ∷ t) ≡ repo_tag (q ++ slash ∷ t) =
      repo_tag-registry p t hp parts ∙ sym (repo_tag-registry q t hq parts) in
    ground (arith, same)
