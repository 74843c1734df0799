-- ===== src/Pagination/Tests.antt =====
-- Pages of small lists, and the theorem at one.
use pytmbot.Base.{ℕ, ◌≡◌, refl, List, [], ◌∷◌}
use pytmbot.Pagination.{paginate_items, pages, total_of, pages_are_items}

abbrev five : List ℕ
five = 10 ∷ 11 ∷ 12 ∷ 13 ∷ 14 ∷ []

last_page : (paginate_items five 9 2).items ≡ 14 ∷ []
unfolding paginate_items
last_page = refl

pages_are_items_example : pages five 2 1 (total_of five 2) ≡ five
pages_are_items_example = pages_are_items five 2
