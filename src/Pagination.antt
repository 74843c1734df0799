-- ===== src/Pagination.antt =====
-- pytmbot/handlers/docker_handlers/pagination.py: `paginate_items`. Page numbers and sizes are
-- natural numbers: a negative one is taken for the least as zero is.
use pytmbot.Base.{
  ℕ, zero, suc, ◌+◌, ◌-◌, ◌*◌, ◌/◌, ◌≤◌, ◌<◌, ◌≡◌, refl, sym, ap, ◌∙◌, min, max, List, [], ◌∷◌,
  ◌++◌, arith, length, length-take, length-drop, take, drop,
}
use native.Mathlib.Nat.{div-add-mod', mod-lt}
mod Tests

pub record PaginationWindow {ℓ} (A : Type ℓ) : Type ℓ where
  pub items : List A
  pub page : ℕ
  pub total_pages : ℕ
  pub total_items : ℕ
  pub page_size : ℕ

-- `items[start:end]`
abbrev pub slice {ℓ} : {A : Type ℓ} → ℕ → ℕ → List A → List A
slice start end items = take (end - start) (drop start items)

unfoldable pub paginate_items {ℓ} : {A : Type ℓ} → List A → ℕ → ℕ → PaginationWindow A
paginate_items items page page_size =
    let normalized_size = max 1 page_size in
    let total_items = length items in
    let total_pages = max 1 ((total_items + normalized_size - 1) / normalized_size) in
    let normalized_page = max 1 (min page total_pages) in
    let start = (normalized_page - 1) * normalized_size in
    let end = start + normalized_size in
    record {
      items = slice start end items;
      page = normalized_page;
      total_pages = total_pages;
      total_items = total_items;
      page_size = normalized_size;
    }

-- The items of the pages from `page` on, `n` of them, one after another.
abbrev pub pages {ℓ} : {A : Type ℓ} → List A → ℕ → ℕ → ℕ → List A
pages items page_size page zero = []
pages items page_size page (suc n) =
    (paginate_items items page page_size).items ++ pages items page_size (page + 1) n

take-drop {ℓ} : {A : Type ℓ} (n : ℕ) (xs : List A) → take n xs ++ drop n xs ≡ xs
take-drop zero xs = refl
take-drop (suc n) [] = refl
take-drop (suc n) (x ∷ xs) = ap (λ ys. x ∷ ys) (take-drop n xs)

drop-nil {ℓ} : {A : Type ℓ} (n : ℕ) → drop {A = A} n [] ≡ []
drop-nil zero = refl
drop-nil (suc n) = refl

drop-drop {ℓ} : {A : Type ℓ} (m n k : ℕ) (xs : List A) → k ≡ m + n → drop n (drop m xs) ≡ drop k xs
drop-drop zero n k xs h = ap (λ j. drop j xs) (omega (arith, h))
drop-drop (suc m) n k [] h = drop-nil n ∙ sym (drop-nil k)
drop-drop (suc m) n zero (x ∷ xs) h = absurd (omega (arith, h))
drop-drop (suc m) n (suc k) (x ∷ xs) h = drop-drop m n k xs (omega (arith, h))

drop-all {ℓ} : {A : Type ℓ} (n : ℕ) (xs : List A) → length xs ≤ n → drop n xs ≡ []
drop-all zero [] h = refl
drop-all zero (x ∷ xs) h = ground (arith, h)
drop-all (suc n) [] h = refl
drop-all (suc n) (x ∷ xs) h = drop-all n xs (omega (arith, h))

ceil : (l s : ℕ) → 1 ≤ s → l ≤ (l + s - 1) / s * s
ceil l s h = omega (arith, div-add-mod' (l + s - 1) s, mod-lt (l + s - 1) h)

at_least_one : (l s q : ℕ) → l ≤ q * s → l ≤ max 1 q * s
at_least_one l s zero h = omega (arith, h)
at_least_one l s (suc q) h = let e : max 1 (suc q) ≡ suc q = omega arith in rw e h

abbrev pub size_of : ℕ → ℕ
size_of page_size = max 1 page_size

abbrev pub total_of {ℓ} : {A : Type ℓ} → List A → ℕ → ℕ
total_of items page_size = (paginate_items items 1 page_size).total_pages

module _ {ℓ} {A : Type ℓ} (items : List A) (page_size : ℕ) where
  page_lem :
      (k : ℕ)
      → k + 1 ≤ total_of items page_size
      → (paginate_items items (k + 1) page_size).items
        ≡ take (size_of page_size) (drop (k * size_of page_size) items)
  unfolding paginate_items
  page_lem k le =
      let e : max 1 (min (k + 1) (total_of items page_size)) - 1 ≡ k = omega (arith, le) in
      let s : ℕ = size_of page_size in
      let f : k * s + s - k * s ≡ s = omega arith in rw e (ap (λ n. take n (drop (k * s) items)) f)

  all_pages : length items ≤ total_of items page_size * size_of page_size
  unfolding paginate_items
  all_pages =
      at_least_one (length items) (size_of page_size)
        ((length items + size_of page_size - 1) / size_of page_size)
        (ceil (length items) (size_of page_size) (omega arith))

  pages_from :
      (n k : ℕ)
      → k + n ≡ total_of items page_size
      → pages items page_size (k + 1) n ≡ drop (k * size_of page_size) items
  pages_from zero k h =
      let e : k ≡ total_of items page_size = omega (arith, h) in
      sym (drop-all (k * size_of page_size) items (rw e all_pages))
  pages_from (suc n) k h =
      let s : ℕ = size_of page_size in
      rw (page_lem k (omega (arith, h)), pages_from n (k + 1) (omega (arith, h)))
        ((ap (λ ys. take s (drop (k * s) items) ++ ys)
            (sym (drop-drop (k * s) s ((k + 1) * s) items (omega arith))))
          ∙ take-drop s (drop (k * s) items))

-- The pages from the first to the last, one after another, are all the items in their order.
pub pages_are_items {ℓ} :
    {A : Type ℓ} (items : List A) (page_size : ℕ)
    → pages items page_size 1 (total_of items page_size) ≡ items
pages_are_items items page_size =
    let z : 0 * size_of page_size ≡ 0 = omega arith in
    pages_from items page_size (total_of items page_size) 0 (omega arith) ∙ ap (λ j. drop j items) z
