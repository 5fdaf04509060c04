-- ===== src/PageRange/Normal.antt =====
-- packages/shared/src/pageRange.ts: normalizePageRange, the canonical text of a page range. `digits` is
-- the decimal text of a number. `Infinity`, which ends the last run of pages, is the end of the list.
use print_q.Base.{
  ℕ, ◌+◌, ◌≤◌, ◌≡◌, refl, sym, ◌∙◌, true, false, Option, none, some, or_else, List, [], ◌∷◌, ◌++◌,
  ◌==◌, ◌||◌, if◌then◌else◌, includes, any, arith, Result, ok, throw,
}
use print_q.PageRange.{PageRangeError, bad_format, trim, split, map_bounds, parse_page_range}
use print_q.PageRange.Bounds.{covers, parse_page_range-pages}

-- The runs of consecutive pages: one from `start` to `prev` is under way.
unfoldable pub merge_from : (start prev : ℕ) → List ℕ → List (ℕ × ℕ)
merge_from start prev [] = (start, prev) ∷ []
merge_from start prev (p ∷ ps) = elim (p == prev + 1) [
  | true ↦ merge_from start p ps
  | false ↦ (start, prev) ∷ merge_from p p ps
]

unfoldable pub merge_pages : List ℕ → List (ℕ × ℕ)
unfolding merge_from
merge_pages [] = []
merge_pages (p ∷ ps) = merge_from p p ps

-- `${start}` or `${start}-${prev}`.
abbrev pub part_text : (ℕ → List ℕ) → ℕ × ℕ → List ℕ
part_text digits (start, end) =
    if start == end then digits start else digits start ++ b'-' ∷ digits end

-- `parts.join(',')`.
unfoldable pub join_parts : (ℕ → List ℕ) → List (ℕ × ℕ) → List ℕ
join_parts digits [] = []
join_parts digits (part ∷ []) = part_text digits part
join_parts digits (part ∷ next ∷ parts) =
    part_text digits part ++ b',' ∷ join_parts digits (next ∷ parts)

abbrev pub max_safe_integer : ℕ
max_safe_integer = 9_007_199_254_740_991

abbrev pub normal_text : (ℕ → List ℕ) → List ℕ → Result PageRangeError (List ℕ) → List ℕ
normal_text digits range (ok pages) = join_parts digits (merge_pages pages)
normal_text digits range (throw e) = trim range

-- `!range.trim()`.
abbrev pub unless_blank : List ℕ → List ℕ → Option (List ℕ)
unless_blank [] text = none
unless_blank (c ∷ cs) text = some text

unfoldable pub normalize_page_range : (ℕ → List ℕ) → Option (List ℕ) → Option ℕ → Option (List ℕ)
normalize_page_range digits none total_pages = none
normalize_page_range digits (some range) total_pages =
    unless_blank (trim range)
      (normal_text digits range (parse_page_range range (or_else total_pages max_safe_integer)))

any-merge_from :
    (k start prev : ℕ) (ps : List ℕ)
    → start ≤ prev
    → any (covers k) (merge_from start prev ps) ≡ (covers k (start, prev) || includes k ps)
unfolding merge_from
any-merge_from k start prev [] h = ground arith
any-merge_from k start prev (p ∷ ps) h =
    ground (arith, any-merge_from k start p ps, any-merge_from k p p ps)

any-merge_pages : (k : ℕ) (pages : List ℕ) → any (covers k) (merge_pages pages) ≡ includes k pages
unfolding merge_pages
any-merge_pages k [] = refl
any-merge_pages k (p ∷ ps) = ground (arith, any-merge_from k p p ps)

parse-empty :
    (range : List ℕ) (total_pages : ℕ)
    → trim range ≡ []
    → parse_page_range range total_pages ≡ throw bad_format
unfolding parse_page_range
parse-empty range total_pages e = rw e refl

no_pages :
    (pages : List ℕ) → Path (Result PageRangeError (List ℕ)) (throw bad_format) (ok pages) → ⊥
no_pages pages h = cc

normalize-parsed :
    (digits : ℕ → List ℕ) (range : List ℕ) (total_pages : ℕ) (pages : List ℕ)
    → parse_page_range range total_pages ≡ ok pages
    → normalize_page_range digits (some range) (some total_pages)
      ≡ some (join_parts digits (merge_pages pages))
unfolding normalize_page_range
normalize-parsed digits range total_pages pages h = by_text (trim range) refl
  where
    by_text :
        (text : List ℕ)
        → trim range ≡ text
        → normalize_page_range digits (some range) (some total_pages)
          ≡ some (join_parts digits (merge_pages pages))
    by_text [] e = absurd (no_pages pages (sym (parse-empty range total_pages e) ∙ h))
    by_text (c ∷ cs) e = rw (e, h) refl

-- Normalising a page range keeps its pages: if a range parses against the page count, then the text that
-- is shown for it is written from ranges which cover a page exactly when a part of the given range does.
pub normalize_page_range-covers :
    (digits : ℕ → List ℕ) (range : List ℕ) (total_pages : ℕ) (pages : List ℕ)
    → parse_page_range range total_pages ≡ ok pages
    → (ranges : List (ℕ × ℕ)) × (normalize_page_range digits (some range) (some total_pages)
        ≡ some (join_parts digits ranges))
      × ((k : ℕ) → any (covers k) ranges ≡ any (covers k) (map_bounds (split b',' (trim range))))
normalize_page_range-covers digits range total_pages pages h = (
  merge_pages pages,
  normalize-parsed digits range total_pages pages h,
  λ k. any-merge_pages k pages ∙ (parse_page_range-pages range total_pages pages k h).2,
)
