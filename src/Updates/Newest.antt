-- ===== src/Updates/Newest.antt =====
-- The sorting and the cut of the updates that pytmbot/adapters/docker/updates.py reports.
use mathlib.Core.Path.{subst}
use mathlib.Core.List.{Permᴰ}
use mathlib.Core.List.Permᴰ as Permᴰ
use pytmbot.Base.{
  ◌≡◌, refl, sym, Bool, true, false, some, List, [], ◌∷◌, arith, All, Bool-cases, inl, inr,
}
use pytmbot.Updates.Tags.{Packages, EnhancedTagInfo}
use pytmbot.Updates.Compare.{tag_lt, insert_tag, sort_tags}

pub All-Permᴰ {ℓ κ} :
    {A : Type ℓ} (P : A → Type κ) {xs ys : List A} → Permᴰ xs ys → All P ys → All P xs
All-Permᴰ P Permᴰ.nil h = h
All-Permᴰ P (Permᴰ.cons e d) h = (subst P (sym e) h.0, All-Permᴰ P d h.1)
All-Permᴰ P (Permᴰ.swap e f) h = (subst P (sym e) h.1.0, (subst P (sym f) h.0, h.1.1))
All-Permᴰ P (Permᴰ.trans d e) h = All-Permᴰ P d (All-Permᴰ P e h)

-- Tags that `<` orders: it answers for each two, and none that is not below another is below what
-- that one is not below.
pub record IsOrdered {V : Type 0} (p : Packages V) (Q : EnhancedTagInfo V → Type 0) : Type 0 where
  pub total : (s t : EnhancedTagInfo V) → Q s → Q t → (b : Bool) × (tag_lt p s t ≡ some b)
  pub asymmetric :
      (s t : EnhancedTagInfo V) → Q s → Q t → tag_lt p s t ≡ some true → tag_lt p t s ≡ some false
  pub transitive :
      (s t u : EnhancedTagInfo V)
      → Q s
      → Q t
      → Q u
      → tag_lt p s t ≡ some false
      → tag_lt p t u ≡ some false
      → tag_lt p s u ≡ some false

module _ {V : Type 0} (p : Packages V) where
  -- No tag is below one that comes after it.
  abbrev pub IsSorted : List (EnhancedTagInfo V) → Type 0
  IsSorted [] = Unit
  IsSorted (t ∷ ts) = All (λ u. tag_lt p t u ≡ some false) ts × IsSorted ts

  module _ (Q : EnhancedTagInfo V → Type 0) (order : IsOrdered p Q) where
    below_rest :
        (s t : EnhancedTagInfo V) (ts : List (EnhancedTagInfo V))
        → Q s
        → Q t
        → All Q ts
        → tag_lt p s t ≡ some false
        → All (λ u. tag_lt p t u ≡ some false) ts
        → All (λ u. tag_lt p s u ≡ some false) ts
    below_rest s t [] qs qt q st h = tt
    below_rest s t (u ∷ ts) qs qt q st h =
        (order.transitive s t u qs qt q.0 st h.0, below_rest s t ts qs qt q.1 st h.1)

    insert_tag_lem :
        (s : EnhancedTagInfo V) (ts : List (EnhancedTagInfo V))
        → Q s
        → All Q ts
        → IsSorted ts
        → (us : List (EnhancedTagInfo V)) × (insert_tag p s ts ≡ some us)
          × Permᴰ us (s ∷ ts)
          × IsSorted us
    unfolding insert_tag
    insert_tag_lem s [] qs q h = (s ∷ [], refl, Permᴰ.refl (s ∷ []), (tt, tt))
    insert_tag_lem s (t ∷ ts) qs q h =
        let (b, answer) = order.total s t qs q.0 in
        elim (Bool-cases b) [
          | inr e ↦ (
            s ∷ t ∷ ts,
            ground (arith, answer, e),
            Permᴰ.refl (s ∷ t ∷ ts),
            (
              (
                ground (arith, answer, e),
                below_rest s t ts qs q.0 q.1 (ground (arith, answer, e)) h.0,
              ),
              h,
            ),
          )
          | inl e ↦
              let (us, inserted, perm, sorted) = insert_tag_lem s ts qs q.1 h.1 in
              let above : tag_lt p t s ≡ some false =
                order.asymmetric s t qs q.0 (ground (arith, answer, e)) in
              (
                t ∷ us,
                ground (arith, answer, e, inserted),
                Permᴰ.trans (Permᴰ.cons refl perm) (Permᴰ.swap refl refl),
                (All-Permᴰ (λ u. tag_lt p t u ≡ some false) perm (above, h.0), sorted),
              )
        ]

    pub sort_tags_lem :
        (ts : List (EnhancedTagInfo V))
        → All Q ts
        → (us : List (EnhancedTagInfo V)) × (sort_tags p ts ≡ some us) × Permᴰ us ts × IsSorted us
    unfolding sort_tags
    sort_tags_lem [] q = ([], refl, Permᴰ.nil, tt)
    sort_tags_lem (t ∷ ts) q =
        let (us, done, perm, sorted) = sort_tags_lem ts q.1 in
        let (vs, inserted, perm', sorted') =
          insert_tag_lem t us q.0 (All-Permᴰ Q perm q.1) sorted in
        (vs, ground (arith, done, inserted), Permᴰ.trans perm' (Permᴰ.cons refl perm), sorted')
