-- ===== src/Updates/Best.antt =====
-- The updates that pytmbot/adapters/docker/updates.py reports for a tag with a version or a date.
use mathlib.Core.List.{Permᴰ}
use pytmbot.Base.{
  ℕ, ◌≡◌, ◌⊎◌, ◌↔◌, refl, sym, ◌∙◌, Bool, true, false, some, List, [], ◌∷◌, arith, map, take, All,
  Bool-cases, inl, inr, ltb,
}
use pytmbot.Updates.Tags.{
  TagType, semver, date, TagInfo, Packages, EnhancedTagInfo, is_valid, analyze_tag, valid_tags,
}
use pytmbot.Updates.Compare.{
  update_of, max_updates, tag_lt, is_compatible, compatible_tags, find_updates,
}
use pytmbot.Updates.Compatible.{
  IsUpdateFor, rebuilt, newer_version, newer_date, created_after, is_compatible-IsUpdateFor,
  IsUpdateFor-is_compatible,
}
use pytmbot.Updates.Analysis.{
  analyze_tag-parts, analyze_tag-tag_info, version_of, date_of, named-is_valid,
}
use pytmbot.Updates.Newest.{IsOrdered, IsSorted, sort_tags_lem, All-Permᴰ}

-- The order of versions that packaging documents: no version is older than an older one, and one that
-- is not older than another is not older than what that one is not older than.
pub record IsOrder {V : Type 0} (p : Packages V) : Type 0 where
  pub asymmetric : (v w : V) → p.older v w ≡ true → p.older w v ≡ false
  pub transitive : (u v w : V) → p.older u v ≡ false → p.older v w ≡ false → p.older u w ≡ false

-- The types whose tags are ordered by what their names say.
abbrev IsNamed : TagType → Type 0
IsNamed t = (t ≡ semver) ⊎ (t ≡ date)

module _ {V : Type 0} (p : Packages V) where
  -- A tag of the type, with its version or its date.
  abbrev IsKeyed : TagType → EnhancedTagInfo V → Type 0
  IsKeyed type t =
      (t.tag_type ≡ type)
      × (((type ≡ semver) × (v : V) × (t.version_info ≡ some v))
          ⊎ ((type ≡ date) × (d : ℕ) × (t.date_info ≡ some d)))

  module _ (order : IsOrder p) (type : TagType) where
    total_lem :
        (s t : EnhancedTagInfo V)
        → IsKeyed type s
        → IsKeyed type t
        → (b : Bool) × (tag_lt p s t ≡ some b)
    unfolding tag_lt
    total_lem s t (a, inl (x, v, e)) (b, inl (y, w, f)) =
        (p.older v w, ground (arith, a, x, e, b, f))
    total_lem s t (a, inr (x, d, e)) (b, inr (y, g, f)) = (ltb d g, ground (arith, a, x, e, b, f))
    total_lem s t (a, inl (x, v, e)) (b, inr (y, w, f)) = absurd (ground (arith, x, y))
    total_lem s t (a, inr (x, v, e)) (b, inl (y, w, f)) = absurd (ground (arith, x, y))

    asymmetric_lem :
        (s t : EnhancedTagInfo V)
        → IsKeyed type s
        → IsKeyed type t
        → tag_lt p s t ≡ some true
        → tag_lt p t s ≡ some false
    unfolding tag_lt
    asymmetric_lem s t (a, inl (x, v, e)) (b, inl (y, w, f)) h =
        ground (arith, a, x, e, b, f, h, order.asymmetric v w)
    asymmetric_lem s t (a, inr (x, d, e)) (b, inr (y, g, f)) h = ground (arith, a, x, e, b, f, h)
    asymmetric_lem s t (a, inl (x, v, e)) (b, inr (y, w, f)) h = absurd (ground (arith, x, y))
    asymmetric_lem s t (a, inr (x, v, e)) (b, inl (y, w, f)) h = absurd (ground (arith, x, y))

    transitive_lem :
        (s t u : EnhancedTagInfo V)
        → IsKeyed type s
        → IsKeyed type t
        → IsKeyed type u
        → tag_lt p s t ≡ some false
        → tag_lt p t u ≡ some false
        → tag_lt p s u ≡ some false
    unfolding tag_lt
    transitive_lem s t u (a, inl (x, v, e)) (b, inl (y, w, f)) (c, inl (z, o, g)) h k =
        ground (arith, a, x, e, b, f, c, g, h, k, order.transitive v w o)
    transitive_lem s t u (a, inr (x, v, e)) (b, inr (y, w, f)) (c, inr (z, o, g)) h k =
        ground (arith, a, x, e, b, f, c, g, h, k)
    transitive_lem s t u (a, inl (x, v, e)) (b, inr (y, w, f)) c h k = absurd (ground (arith, x, y))
    transitive_lem s t u (a, inr (x, v, e)) (b, inl (y, w, f)) c h k = absurd (ground (arith, x, y))
    transitive_lem s t u (a, inl (x, v, e)) b (c, inr (y, w, f)) h k = absurd (ground (arith, x, y))
    transitive_lem s t u (a, inr (x, v, e)) b (c, inl (y, w, f)) h k = absurd (ground (arith, x, y))

    IsKeyed-IsOrdered : IsOrdered p (IsKeyed type)
    IsKeyed-IsOrdered = record {
      total = total_lem;
      asymmetric = asymmetric_lem;
      transitive = transitive_lem;
    }

  typed_lem :
      (j : TagInfo) (type : TagType)
      → (analyze_tag p j).tag_type ≡ type
      → IsNamed type
      → IsKeyed type (analyze_tag p j)
  typed_lem j type same (inl e) = let (v, f) = version_of p j (same ∙ e) in (same, inl (e, v, f))
  typed_lem j type same (inr e) = let (d, f) = date_of p j (same ∙ e) in (same, inr (e, d, f))

  -- An update of a tag with a version or a date has one too.
  update-IsKeyed :
      (i j : TagInfo)
      → IsNamed (analyze_tag p i).tag_type
      → IsUpdateFor p (analyze_tag p i) (analyze_tag p j)
      → IsKeyed (analyze_tag p i).tag_type (analyze_tag p j)
  update-IsKeyed i j named (rebuilt same e f differ) =
      let names : i.name ≡ j.name =
        ground (arith, same, analyze_tag-tag_info p i, analyze_tag-tag_info p j) in
      typed_lem j (analyze_tag p i).tag_type (ground (arith, analyze_tag-parts p i j names)) named
  update-IsKeyed i j named (newer_version differ x y e f major newer) =
      typed_lem j (analyze_tag p i).tag_type (y ∙ sym x) named
  update-IsKeyed i j named (newer_date differ x y e f newer) =
      typed_lem j (analyze_tag p i).tag_type (y ∙ sym x) named
  update-IsKeyed i j named (created_after differ plain_type same e f newer) =
      typed_lem j (analyze_tag p i).tag_type (sym same) named

  compatible-IsKeyed :
      (i : TagInfo) (infos : List TagInfo)
      → IsNamed (analyze_tag p i).tag_type
      → All
          (λ t. IsKeyed (analyze_tag p i).tag_type t × IsUpdateFor p (analyze_tag p i) t)
          (compatible_tags p (analyze_tag p i) (valid_tags p infos))
  unfolding compatible_tags valid_tags
  compatible-IsKeyed i [] named = tt
  compatible-IsKeyed i (j ∷ infos) named = elim (Bool-cases (is_valid (analyze_tag p j))) [
    | inr drop ↦ rw drop (compatible-IsKeyed i infos named)
    | inl keep ↦ elim (Bool-cases (is_compatible p (analyze_tag p i) (analyze_tag p j))) [
      | inr miss ↦ rw (keep, miss) (compatible-IsKeyed i infos named)
      | inl hit ↦
          let u = is_compatible-IsUpdateFor p (analyze_tag p i) (analyze_tag p j) hit in
          rw (keep, hit) ((update-IsKeyed i j named u, u), compatible-IsKeyed i infos named)
    ]
  ]

  valid_tags-agree :
      (s : EnhancedTagInfo V) (infos : List TagInfo)
      → All (λ t. (is_compatible p s t ≡ true) ↔ IsUpdateFor p s t) (valid_tags p infos)
  unfolding valid_tags
  valid_tags-agree s [] = tt
  valid_tags-agree s (j ∷ infos) = elim (Bool-cases (is_valid (analyze_tag p j))) [
    | inr drop ↦ rw drop (valid_tags-agree s infos)
    | inl keep ↦ rw keep (
      (
        is_compatible-IsUpdateFor p s (analyze_tag p j),
        IsUpdateFor-is_compatible p s (analyze_tag p j) keep,
      ),
      valid_tags-agree s infos,
    )
  ]

All-split {ℓ κ} :
    {A : Type ℓ} (P Q : A → Type κ) (xs : List A) → All (λ x. P x × Q x) xs → All P xs × All Q xs
All-split P Q [] h = (tt, tt)
All-split P Q (x ∷ xs) h = let (hp, hq) = All-split P Q xs h.1 in ((h.0.0, hp), (h.0.1, hq))

-- For a local tag with a version or a date in its name, the search never fails: its answer is the
-- first ten of the updates among the valid remote tags, in an order in which no tag stands before a
-- newer one. So what is left out is no newer than any tag in the answer. The loop takes a remote tag
-- exactly if it is an update of the local one.
pub find_updates_lem :
    {V : Type 0} (p : Packages V) (info : TagInfo) (infos : List TagInfo)
    → IsOrder p
    → IsNamed (analyze_tag p info).tag_type
    → let s = analyze_tag p info in
      let remotes = valid_tags p infos in
      (sorted : List (EnhancedTagInfo V)) × (find_updates p s remotes
        ≡ some (map (update_of s) (take max_updates sorted)))
      × IsSorted p sorted
      × Permᴰ sorted (compatible_tags p s remotes)
      × All (λ t. IsUpdateFor p s t) sorted
      × All (λ t. (is_compatible p s t ≡ true) ↔ IsUpdateFor p s t) remotes
unfolding find_updates
find_updates_lem p info infos order named =
    let s = analyze_tag p info in
    let remotes = valid_tags p infos in
    let found = compatible_tags p s remotes in
    let (keyed, updates) =
      All-split (IsKeyed p s.tag_type) (IsUpdateFor p s) found
        (compatible-IsKeyed p info infos named) in
    let (sorted, done, perm, ordered) =
      sort_tags_lem p (IsKeyed p s.tag_type) (IsKeyed-IsOrdered p order s.tag_type) found keyed in
    (
      sorted,
      rw (named-is_valid p info named, done) refl,
      ordered,
      perm,
      All-Permᴰ (λ t. IsUpdateFor p s t) perm updates,
      valid_tags-agree p s infos,
    )
