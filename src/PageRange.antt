-- ===== src/PageRange.antt =====
-- packages/shared/src/pageRange.ts: the pages that a text such as "1-5,8,11-12" selects. A text is
-- the list of its UTF-16 codes. `Number` of decimal digits is exact here; a source number of 2^53 or
-- more is rounded, which the test against the page count refuses either way.
pub mod Bounds
pub mod Normal
mod Tests
use print_q.Base.{
  ℕ, zero, suc, ◌+◌, ◌-◌, ◌*◌, Bool, true, false, Option, none, some, List, [], ◌∷◌, ◌++◌, ◌==◌,
  leb, ltb, ◌&&◌, ◌||◌, not, if◌then◌else◌, includes, length, Result, ok, throw, ◌>>=◌,
}
use mathlib.Core.List.{reverse}
use print_q.Base.Sorting.{sort}

pub data PageRangeError : Type 0 where
  bad_format outside_document : PageRangeError

-- `\s`, which is also what `trim` removes.
abbrev pub is_space : ℕ → Bool
is_space c =
    (leb 9 c && leb c 13)
    || c == 32
    || c == 160
    || c == 0x1680
    || (leb 0x2000 c && leb c 0x200a)
    || c == 0x2028
    || c == 0x2029
    || c == 0x202f
    || c == 0x205f
    || c == 0x3000
    || c == 0xfeff

abbrev pub is_digit : ℕ → Bool
is_digit c = leb b'0' c && leb c b'9'

unfoldable pub trim_start : List ℕ → List ℕ
trim_start [] = []
trim_start (c ∷ cs) = let rest = trim_start cs in if is_space c then rest else c ∷ cs

unfoldable pub trim : List ℕ → List ℕ
unfolding trim_start
trim text = reverse (trim_start (reverse (trim_start text)))

-- The regular expression `^\d+(-\d+)?(\s*,\s*\d+(-\d+)?)*$` as an automaton: where a number must
-- begin, in the first number of a part, behind its dash, in its second number, behind a part, and
-- behind a comma.
pub data Scan : Type 0 where
  at_start in_first after_dash in_second after_part after_comma : Scan

abbrev pub behind_part : ℕ → Option Scan
behind_part c = if is_space c then some after_part else if c == b',' then some after_comma else none

unfoldable pub scan_step : Scan → ℕ → Option Scan
scan_step at_start c = if is_digit c then some in_first else none
scan_step in_first c =
    if is_digit c then some in_first else if c == b'-' then some after_dash else behind_part c
scan_step after_dash c = if is_digit c then some in_second else none
scan_step in_second c = if is_digit c then some in_second else behind_part c
scan_step after_part c = behind_part c
scan_step after_comma c =
    if is_space c then some after_comma else if is_digit c then some in_first else none

abbrev pub accepting : Scan → Bool
accepting in_first = true
accepting in_second = true
accepting _ = false

unfoldable pub well_formed : Scan → List ℕ → Bool
unfolding scan_step
well_formed state [] = accepting state
well_formed state (c ∷ cs) = elim (scan_step state c) [
  | none ↦ false
  | some next ↦ well_formed next cs
]

-- `text.split(separator)`: never empty.
abbrev pub push_front : ℕ → List (List ℕ) → List (List ℕ)
push_front c [] = (c ∷ []) ∷ []
push_front c (part ∷ parts) = (c ∷ part) ∷ parts

unfoldable pub split : ℕ → List ℕ → List (List ℕ)
split separator [] = [] ∷ []
split separator (c ∷ cs) =
    let rest = split separator cs in if c == separator then [] ∷ rest else push_front c rest

-- `Number` of a text of digits.
unfoldable pub number_from : ℕ → List ℕ → ℕ
number_from acc [] = acc
number_from acc (c ∷ cs) = number_from (acc * 10 + (c - b'0')) cs

-- `const [startStr, endStr] = part.trim().split('-')` and the two numbers.
abbrev pub bounds_of_fields : List (List ℕ) → ℕ × ℕ
bounds_of_fields [] = (0, 0)
bounds_of_fields (a ∷ []) = (number_from 0 a, number_from 0 a)
bounds_of_fields (a ∷ b ∷ more) = (number_from 0 a, number_from 0 b)

unfoldable pub part_bounds : List ℕ → ℕ × ℕ
unfolding trim split number_from
part_bounds part = bounds_of_fields (split b'-' (trim part))

-- `Set.add`, in order of insertion.
unfoldable pub add_page : ℕ → List ℕ → List ℕ
add_page p pages = if includes p pages then pages else pages ++ p ∷ []

-- `for (let p = start; p <= end; p++) pages.add(p)`, with the number of rounds.
unfoldable pub add_pages : ℕ → ℕ → List ℕ → List ℕ
unfolding add_page
add_pages zero p pages = pages
add_pages (suc rounds) p pages = add_pages rounds (p + 1) (add_page p pages)

unfoldable pub collect : ℕ → List (ℕ × ℕ) → List ℕ → Result PageRangeError (List ℕ)
unfolding add_pages
collect total_pages [] pages = ok pages
collect total_pages ((start, end) ∷ parts) pages =
    let rest = collect total_pages parts (add_pages (end + 1 - start) start pages) in
    if ltb start 1 || ltb total_pages end || ltb end start then throw outside_document else rest

abbrev pub map_bounds : List (List ℕ) → List (ℕ × ℕ)
map_bounds [] = []
map_bounds (part ∷ parts) = part_bounds part ∷ map_bounds parts

unfoldable pub parse_page_range : List ℕ → ℕ → Result PageRangeError (List ℕ)
unfolding trim well_formed split part_bounds collect sort
parse_page_range range total_pages =
    let trimmed = trim range in
    if not (well_formed at_start trimmed)
    then throw bad_format
    else (collect total_pages (map_bounds (split b',' trimmed)) [] >>= λ pages. ok (sort leb pages))

-- `none` and the empty text select every page.
unfoldable pub count_selected_pages : Option (List ℕ) → ℕ → Result PageRangeError ℕ
unfolding parse_page_range
count_selected_pages none total_pages = ok total_pages
count_selected_pages (some []) total_pages = ok total_pages
count_selected_pages (some (c ∷ cs)) total_pages =
    parse_page_range (c ∷ cs) total_pages >>= λ pages. ok (length pages)
