-- ===== src/Updates/Mixed.antt =====
-- When the sort of the updates in pytmbot/adapters/docker/updates.py raises.
use mathlib.Core.Path.{subst}
use mathlib.Core.List.{Memᴰ}
use pytmbot.Base.{
  ℕ, ◌≡◌, ◌≢◌, ◌⊎◌, refl, sym, Bool, true, false, some, List, [], ◌∷◌, arith, All, Option-cases,
  inl, inr,
}
use pytmbot.Updates.Tags.{TagInfo, Stamp, naive, aware, Packages, EnhancedTagInfo}
use pytmbot.Updates.Compare.{earlier, UpdateInfo}
use pytmbot.Updates.Fetch.{returned}
use pytmbot.Updates.Check.{
  Keyed, key_of, failure, keys_of, insert_update, sort_keyed, sort_updates, process_repo,
  repo_updates,
}

abbrev is_aware : Stamp → Bool
is_aware (naive a) = false
is_aware (aware a) = true

module _ {V : Type 0} (p : Packages V) where
  abbrev AreAlike : Bool → List Keyed → Type 0
  AreAlike b = All (λ k. is_aware k.0 ≡ b)

  earlier-alike : (j k : Stamp) (less : Bool) → earlier j k ≡ some less → is_aware j ≡ is_aware k
  earlier-alike (naive a) (naive b) less h = refl
  earlier-alike (aware a) (aware b) less h = refl
  earlier-alike (naive a) (aware b) less h = absurd (ground (arith, h))
  earlier-alike (aware a) (naive b) less h = absurd (ground (arith, h))

  -- An insertion that does not raise is into updates of one kind.
  insert_update-alike :
      (k : Keyed) (js us : List Keyed)
      → insert_update p k js ≡ some us
      → (us ≢ [])
        × ((js ≡ [])
            ⊎ ((j : Keyed) × (rest : List Keyed) × (js ≡ j ∷ rest) × (is_aware k.0 ≡ is_aware j.0)))
  unfolding insert_update
  insert_update-alike k [] us h = ((λ e. ground (arith, e, h)), inl refl)
  insert_update-alike k (j ∷ js) us h = elim (Option-cases (earlier k.0 j.0)) [
    | inl e ↦ absurd (ground (arith, e, h))
    | inr (less, e) ↦
        ((λ empty. insert_not_empty less e empty), inr (j, js, refl, earlier-alike k.0 j.0 less e))
  ]
    where
      insert_not_empty : (less : Bool) → earlier k.0 j.0 ≡ some less → us ≢ []
      insert_not_empty true e empty = elim (Option-cases (insert_update p k js)) [
        | inl f ↦ ground (arith, e, f, h)
        | inr (vs, f) ↦ ground (arith, e, f, h, empty)
      ]
      insert_not_empty false e empty = ground (arith, e, h, empty)

  -- An insertion keeps the kind.
  insert_update-AreAlike :
      (b : Bool) (k : Keyed) (js us : List Keyed)
      → insert_update p k js ≡ some us
      → is_aware k.0 ≡ b
      → AreAlike b js
      → AreAlike b us
  unfolding insert_update
  insert_update-AreAlike b k [] us h kind alike = ground (arith, h, kind)
  insert_update-AreAlike b k (j ∷ js) us h kind alike = elim (Option-cases (insert_update p k js)) [
    | inl f ↦ ground (arith, f, h, kind, alike)
    | inr (vs, f) ↦
        ground (arith, f, h, kind, alike, insert_update-AreAlike b k js vs f kind alike.1)
  ]

  -- A sort that does not raise is of updates of one kind.
  sort_keyed-AreAlike :
      (ks us : List Keyed)
      → sort_keyed p ks ≡ some us
      → (b : Bool) × AreAlike b ks × AreAlike b us × ((us ≡ []) → (ks ≡ []))
  unfolding sort_keyed
  sort_keyed-AreAlike [] us h = (true, tt, ground (arith, h), λ e. refl)
  sort_keyed-AreAlike (k ∷ ks) us h = elim (Option-cases (sort_keyed p ks)) [
    | inl f ↦ absurd (ground (arith, f, h))
    | inr (vs, f) ↦
        let inserted : insert_update p k vs ≡ some us = ground (arith, f, h) in
        let (b, alike, alike', empty) = sort_keyed-AreAlike ks vs f in
        let (filled, kind) = insert_update-alike k vs us inserted in
        elim kind [
          | inl nothing ↦ (
            is_aware k.0,
            (refl, subst (AreAlike (is_aware k.0)) (sym (empty nothing)) tt),
            insert_update-AreAlike (is_aware k.0) k vs us inserted refl
                (subst (AreAlike (is_aware k.0)) (sym nothing) tt),
            λ e. absurd (filled e),
          )
          | inr (j, others, e, same) ↦
              let same_kind : is_aware k.0 ≡ b = ground (arith, same, e, alike') in
              (
                b,
                (same_kind, alike),
                insert_update-AreAlike b k vs us inserted same_kind alike',
                λ e. absurd (filled e),
              )
        ]
  ]

  keys_of-member :
      (u : UpdateInfo) (us : List UpdateInfo) (ks : List Keyed) (key : Stamp)
      → Memᴰ u us
      → key_of p u ≡ some key
      → keys_of p us ≡ some ks
      → Memᴰ (key, u) ks
  unfolding keys_of
  keys_of-member u [] ks key m e h = elim m [ ]
  keys_of-member u (v ∷ us) ks key m e h = elim (Option-cases (key_of p v)) [
    | inl f ↦ absurd (ground (arith, f, h))
    | inr (key', f) ↦ elim (Option-cases (keys_of p us)) [
      | inl g ↦ absurd (ground (arith, f, g, h))
      | inr (rest, g) ↦
          let listed : (key', v) ∷ rest ≡ ks = ground (arith, f, g, h) in
          subst (Memᴰ (key, u)) listed
            (by_place m key' f rest g (λ m'. keys_of-member u us rest key m' e g))
    ]
  ]
    where
      by_place :
          Memᴰ u (v ∷ us)
          → (key' : Stamp) → key_of p v ≡ some key'
          → (rest : List Keyed) → keys_of p us ≡ some rest
          → (Memᴰ u us → Memᴰ (key, u) rest)
          → Memᴰ (key, u) ((key', v) ∷ rest)
      by_place (Memᴰ.head same) key' f rest g later = Memᴰ.head (ground (arith, same, e, f))
      by_place (Memᴰ.tail m') key' f rest g later = Memᴰ.tail (later m')

  alike-member :
      (b : Bool) (k : Keyed) (ks : List Keyed) → Memᴰ k ks → AreAlike b ks → is_aware k.0 ≡ b
  alike-member b k [] m h = elim m [ ]
  alike-member b k (j ∷ ks) (Memᴰ.head e) h = ground (arith, e, h)
  alike-member b k (j ∷ ks) (Memᴰ.tail m) h = alike-member b k ks m h.1

-- If the updates of a repository have one whose remote tag has no time of creation, and one whose time
-- has a time zone, then the sort raises, and all updates of the repository are lost: the repository is
-- reported as failed.
pub mixed_times_fail :
    {V : Type 0} (p : Packages V) (infos : List TagInfo) (t : EnhancedTagInfo V)
    (ts : List (EnhancedTagInfo V)) (u w : UpdateInfo) (a : ℕ)
    → Memᴰ u (repo_updates p infos (t ∷ ts))
    → Memᴰ w (repo_updates p infos (t ∷ ts))
    → u.created_at_remote ≡ []
    → w.created_at_remote ≢ []
    → p.isoparse w.created_at_remote ≡ some (aware a)
    → process_repo p infos (returned (t ∷ ts)) ≡ failure false
unfolding process_repo sort_updates
mixed_times_fail p infos t ts u w a mu mw missing there zoned =
    let us = repo_updates p infos (t ∷ ts) in
    elim (Option-cases (keys_of p us)) [
      | inl e ↦ ground (arith, e)
      | inr (ks, e) ↦ elim (Option-cases (sort_keyed p ks)) [
        | inl f ↦ ground (arith, e, f)
        | inr (sorted, f) ↦
            let (b, alike, _, _) = sort_keyed-AreAlike p ks sorted f in
            let no_zone : false ≡ b =
              alike-member p b (naive 0, u) ks
                (keys_of-member p u us ks (naive 0) mu (ground (arith, missing)) e) alike in
            let zone : true ≡ b =
              alike-member p b (aware a, w) ks
                (keys_of-member p w us ks (aware a) mw (ground (arith, there, zoned)) e) alike in
            absurd (ground (arith, no_zone, zone))
      ]
    ]
