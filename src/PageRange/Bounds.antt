-- ===== src/PageRange/Bounds.antt =====
-- What a parsed page range holds.
use print_q.Base.{
  ℕ, zero, suc, ◌+◌, ◌-◌, ◌≤◌, ◌≡◌, refl, ap, ◌∙◌, ◌⊎◌, inl, inr, Bool, true, false, Option, none,
  some, List, [], ◌∷◌, ◌++◌, map, ◌==◌, leb, ltb, ◌&&◌, ◌||◌, not, if◌then◌else◌, includes, any,
  length, All, Distinct, arith, Result, ok, throw, ◌>>=◌, Bool-cases,
}
use print_q.Base.Sorting.{sort, sort-IsSorted, IsSorted, sort-Distinct, includes-sort}
use print_q.PageRange.{
  PageRangeError, bad_format, trim, well_formed, at_start, split, map_bounds, add_page, add_pages,
  collect, parse_page_range, count_selected_pages,
}

-- The page lies in the range.
abbrev pub covers : ℕ → ℕ × ℕ → Bool
covers p (start, end) = leb start p && leb p end

includes-append_one :
    (k p : ℕ) (pages : List ℕ) → includes k (pages ++ p ∷ []) ≡ (includes k pages || k == p)
includes-append_one k p [] = ground arith
includes-append_one k p (q ∷ pages) = ground (arith, includes-append_one k p pages)

Distinct-append_one :
    (p : ℕ) (pages : List ℕ)
    → includes p pages ≡ false
    → Distinct pages
    → Distinct (pages ++ p ∷ [])
Distinct-append_one p [] h d = (refl, tt)
Distinct-append_one p (q ∷ pages) h d =
    ground (arith, includes-append_one q p pages, Distinct-append_one p pages)

includes-add_pages :
    (k rounds p : ℕ) (pages : List ℕ)
    → includes k (add_pages rounds p pages) ≡ (includes k pages || (leb p k && ltb k (p + rounds)))
unfolding add_pages
includes-add_pages k zero p pages = ground arith
includes-add_pages k (suc rounds) p pages =
    ground
      (arith, includes-add_pages k rounds (p + 1) (add_page p pages), includes-append_one k p pages)

add_pages-Distinct :
    (rounds p : ℕ) (pages : List ℕ) → Distinct pages → Distinct (add_pages rounds p pages)
unfolding add_pages
add_pages-Distinct zero p pages d = d
add_pages-Distinct (suc rounds) p pages d = elim (Bool-cases (includes p pages)) [
  | inl e ↦ rw e (add_pages-Distinct rounds (p + 1) pages d)
  | inr e ↦
      rw e (add_pages-Distinct rounds (p + 1) (pages ++ p ∷ []) (Distinct-append_one p pages e d))
]

collect_lem :
    (total_pages : ℕ) (parts : List (ℕ × ℕ)) (pages out : List ℕ) (k : ℕ)
    → Distinct pages
    → collect total_pages parts pages ≡ ok out
    → Distinct out
      × (includes k out ≡ (includes k pages || any (covers k) parts))
      × ((includes k out ≡ includes k pages) ⊎ ((1 ≤ k) × (k ≤ total_pages)))
unfolding collect
collect_lem total_pages [] pages out k d h = ground arith
collect_lem total_pages ((start, end) ∷ parts) pages out k d h = ground (
  arith,
  collect_lem total_pages parts (add_pages (end + 1 - start) start pages) out k
      (add_pages-Distinct (end + 1 - start) start pages d),
  includes-add_pages k (end + 1 - start) start pages,
)

map_self : (pages : List ℕ) → map (λ p. p) pages ≡ pages
map_self [] = refl
map_self (p ∷ pages) = ap (◌∷◌ p) (map_self pages)

leb_total : (a b : ℕ) → leb a b ≡ false → leb b a ≡ true
leb_total a b h = ground arith

leb_trans : (a b c : ℕ) → leb a b ≡ true → leb b c ≡ true → leb a c ≡ true
leb_trans a b c h k = ground arith

parse_page_range_ok :
    (range : List ℕ) (total_pages : ℕ) (pages : List ℕ)
    → parse_page_range range total_pages ≡ ok pages
    → (out : List ℕ) × (collect total_pages (map_bounds (split b',' (trim range))) [] ≡ ok out)
      × (pages ≡ sort leb out)
unfolding parse_page_range
parse_page_range_ok range total_pages pages h =
    go (well_formed at_start (trim range))
      (collect total_pages (map_bounds (split b',' (trim range))) []) h
  where
    go :
        (formed : Bool) (r : Result PageRangeError (List ℕ))
        → (if not formed then throw bad_format else (r >>= λ out. ok (sort leb out))) ≡ ok pages
        → (out : List ℕ) × (r ≡ ok out) × (pages ≡ sort leb out)
    go true (ok out) e = (out, refl, ground arith)
    go true (throw x) e = absurd (cc)
    go false r e = absurd (cc)

-- A page range that parses gives its pages in increasing order, each once; a page is selected
-- exactly when one of the parts between commas covers it, and every selected page lies in the
-- document.
pub parse_page_range-pages :
    (range : List ℕ) (total_pages : ℕ) (pages : List ℕ) (k : ℕ)
    → parse_page_range range total_pages ≡ ok pages
    → IsSorted leb pages
      × Distinct pages
      × (includes k pages ≡ any (covers k) (map_bounds (split b',' (trim range))))
      × ((includes k pages ≡ false) ⊎ ((1 ≤ k) × (k ≤ total_pages)))
parse_page_range-pages range total_pages pages k h =
    let (out, collected, sorted) = parse_page_range_ok range total_pages pages h in
    let parts = map_bounds (split b',' (trim range)) in
    let (once, chosen, inside) = collect_lem total_pages parts [] out k tt collected in
    let same : includes k (sort leb out) ≡ includes k out =
      simp map_self at (includes-sort leb (λ p. p) k out) in
    rw sorted (
      sort-IsSorted leb leb_total leb_trans out,
      simp map_self at (sort-Distinct leb (λ p. p) out (simp map_self once)),
      same ∙ chosen,
      ground arith,
    )

All-of_includes :
    (P : ℕ → Type 0) (pages : List ℕ) → ((k : ℕ) → includes k pages ≡ true → P k) → All P pages
All-of_includes P [] h = tt
All-of_includes P (p ∷ pages) h =
    (h p (ground arith), All-of_includes P pages (λ k e. h k (ground arith)))

above :
    (p n : ℕ) (pages : List ℕ)
    → includes p pages ≡ false
    → All (λ q. leb p q ≡ true) pages
    → All (λ q. q ≤ n) pages
    → All (λ q. (p + 1 ≤ q) × (q ≤ n)) pages
above p n [] h a b = tt
above p n (q ∷ pages) h (a, as') (b, bs) =
    ((ground arith, b), above p n pages (ground arith) as' bs)

upper : (lo n : ℕ) (pages : List ℕ) → All (λ q. (lo ≤ q) × (q ≤ n)) pages → All (λ q. q ≤ n) pages
upper lo n [] h = tt
upper lo n (q ∷ pages) ((_, b), hs) = (b, upper lo n pages hs)

length-le :
    (lo n : ℕ) (pages : List ℕ)
    → lo ≤ n + 1
    → IsSorted leb pages
    → Distinct pages
    → All (λ q. (lo ≤ q) × (q ≤ n)) pages
    → length pages + lo ≤ n + 1
length-le lo n [] h s d a = omega arith
length-le lo n (p ∷ pages) h (first, s) (fresh, d) ((low, high), a) = omega (
  arith,
  length-le (p + 1) n pages (omega arith) s d (above p n pages fresh first (upper lo n pages a)),
)

-- The count that the price is computed from never exceeds the document's page count, whatever the
-- range: overlapping parts are counted once.
pub count_selected_pages-le :
    (range : Option (List ℕ)) (total_pages count : ℕ)
    → count_selected_pages range total_pages ≡ ok count
    → count ≤ total_pages
unfolding count_selected_pages
count_selected_pages-le none total_pages count h = ground arith
count_selected_pages-le (some []) total_pages count h = ground arith
count_selected_pages-le (some (c ∷ cs)) total_pages count h =
    go (parse_page_range (c ∷ cs) total_pages) refl h
  where
    go :
        (r : Result PageRangeError (List ℕ))
        → parse_page_range (c ∷ cs) total_pages ≡ r
        → (r >>= λ pages. ok (length pages)) ≡ ok count
        → count ≤ total_pages
    go (throw x) e k = absurd (cc)
    go (ok pages) e k =
        let (sorted, once, _, _) = parse_page_range-pages (c ∷ cs) total_pages pages 0 e in
        let inside : (q : ℕ) → includes q pages ≡ true → (1 ≤ q) × (q ≤ total_pages) =
          λ q m. selected (parse_page_range-pages (c ∷ cs) total_pages pages q e).3 m in
        let bound =
          length-le 1 total_pages pages (omega arith) sorted once
            (All-of_includes _ pages inside) in
        let same : length pages ≡ count = ground arith in omega arith
      where
        selected : {a : Bool} {P : Type 0} → (a ≡ false) ⊎ P → a ≡ true → P
        selected (inl e) m = absurd (cc)
        selected (inr p) m = p
