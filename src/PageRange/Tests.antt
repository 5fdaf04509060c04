-- ===== src/PageRange/Tests.antt =====
-- The range "2,1-3", whose parts overlap, and the theorems on page ranges at it.
use print_q.Base.{
  ◌≡◌, ◌≤◌, ◌⊎◌, refl, ℕ, ◌+◌, true, false, some, List, [], ◌∷◌, any, Distinct, ok, leb,
}
use print_q.Base.Sorting.{IsSorted}
use print_q.PageRange.{parse_page_range, count_selected_pages, map_bounds, split, trim}
use print_q.PageRange.Normal.{
  normalize_page_range, merge_pages, join_parts, normalize_page_range-covers,
}
use print_q.PageRange.Bounds.{parse_page_range-pages, covers}

abbrev overlapping : List ℕ
overlapping = b'2' ∷ b',' ∷ b'1' ∷ b'-' ∷ b'3' ∷ []

overlapping_pages : parse_page_range overlapping 4 ≡ ok (1 ∷ 2 ∷ 3 ∷ [])
unfolding parse_page_range
overlapping_pages = refl

parse_page_range-pages_example :
    IsSorted leb (1 ∷ 2 ∷ 3 ∷ [])
    × Distinct (1 ∷ 2 ∷ 3 ∷ [])
    × (true ≡ any (covers 3) (map_bounds (split b',' (trim overlapping))))
    × ((true ≡ false) ⊎ ((1 ≤ 3) × (3 ≤ 4)))
parse_page_range-pages_example =
    parse_page_range-pages overlapping 4 (1 ∷ 2 ∷ 3 ∷ []) 3 overlapping_pages

three_selected : count_selected_pages (some overlapping) 4 ≡ ok 3
unfolding count_selected_pages parse_page_range
three_selected = refl

-- One digit is enough here.
abbrev digit : ℕ → List ℕ
digit n = (n + b'0') ∷ []

normal_form :
    normalize_page_range digit (some overlapping) (some 4) ≡ some (b'1' ∷ b'-' ∷ b'3' ∷ [])
unfolding normalize_page_range parse_page_range trim merge_pages join_parts
normal_form = refl

normalize_page_range-covers_example :
    (ranges : List (ℕ × ℕ)) × (normalize_page_range digit (some overlapping) (some 4)
      ≡ some (join_parts digit ranges))
    × ((k : ℕ)
        → any (covers k) ranges ≡ any (covers k) (map_bounds (split b',' (trim overlapping))))
normalize_page_range-covers_example =
    normalize_page_range-covers digit overlapping 4 (1 ∷ 2 ∷ 3 ∷ []) overlapping_pages
