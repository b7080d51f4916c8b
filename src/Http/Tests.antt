-- ===== src/Http/Tests.antt =====
-- A concrete use of the pages.
use at_nova_platform.Prelude.{ℕ, ◌≡◌, refl, List, [], ◌∷◌, arith}
use at_nova_platform.Http.Pagination.{paginate, read_pages, read_pages-all, pages_of}

page_counts : (pages_of 0 20 ≡ 1) × (pages_of 40 20 ≡ 2) × (pages_of 41 20 ≡ 3)
page_counts = (refl, refl, refl)

abbrev five : List ℕ
five = 1 ∷ 2 ∷ 3 ∷ 4 ∷ 5 ∷ []

read_pages-all_example :
    read_pages five (paginate five (record { page = 1; page_size = 2 })).total_pages 1 2 ≡ five
read_pages-all_example = read_pages-all five 2 (omega arith)
