-- ===== src/Quality/Ranges/Merged.antt =====
-- `merge_ranges` covers the tokens of its ranges with ranges that stand apart.
use rivet_cache.Prelude.{
  ℕ, ◌+◌, ◌-◌, ◌≤◌, ◌<◌, ◌≡◌, refl, ap, ◌∙◌, Bool, true, false, ◌&&◌, ◌||◌, List, [], ◌∷◌, ltb, leb,
  max, arith, Bool-cases, inl, inr,
}
use rivet_cache.Prelude.Lists.{All, retain}
use rivet_cache.Prelude.Retain.{All-map, retain-All}
use rivet_cache.Prelude.Sorting.{
  insert_sorted, sort_by_key, sort_by_key-All, IsSorted, sort_by_key-IsSorted,
}
use rivet_cache.Prelude.Words.{sat_add, u64_max}
use rivet_cache.Quality.{TokenRange, range_end}
use rivet_cache.Quality.Ranges.{
  is_positive, start_of, extend, merge_onto, merge_sorted, merge_ranges,
}

-- Whether the token is in the range.
abbrev pub is_in : TokenRange → ℕ → Bool
is_in range t = leb range.start t && ltb t (range.start + range.len)

unfoldable pub is_covered : List TokenRange → ℕ → Bool
is_covered [] t = false
is_covered (range ∷ ranges) t = is_in range t || is_covered ranges t

-- The end of the range is an index.
abbrev pub Ends : TokenRange → Type 0
Ends range = range.start + range.len ≤ u64_max

abbrev pub BeginsBehind : ℕ → List TokenRange → Type 0
BeginsBehind end_ [] = Unit
BeginsBehind end_ (range ∷ ranges) = end_ < range.start

-- No range is empty, and each begins behind the end of the one before it.
pub IsSeparate : List TokenRange → Type 0
IsSeparate [] = Unit
IsSeparate (range ∷ ranges) =
    (0 < range.len) × BeginsBehind (range.start + range.len) ranges × IsSeparate ranges

range_end_exact : (r : TokenRange) → Ends r → range_end r ≡ r.start + r.len
unfolding range_end sat_add
range_end_exact r h = ground arith

or_swap : (a b c : Bool) → a || (b || c) ≡ b || (a || c)
or_swap true true c = refl
or_swap true false c = refl
or_swap false true c = refl
or_swap false false c = refl

or_assoc : (a b c : Bool) → (a || b) || c ≡ a || (b || c)
or_assoc true b c = refl
or_assoc false b c = refl

is_covered-insert_sorted :
    (x : TokenRange) (xs : List TokenRange) (t : ℕ)
    → is_covered (insert_sorted start_of x xs) t ≡ is_in x t || is_covered xs t
unfolding insert_sorted is_covered
is_covered-insert_sorted x [] t = refl
is_covered-insert_sorted x (y ∷ ys) t = elim (Bool-cases (leb x.start y.start)) [
  | inl first ↦ rw (first, insert_sorted)
  | inr later ↦
      rw (later, insert_sorted)
        (ap (λ b. is_in y t || b) (is_covered-insert_sorted x ys t)
          ∙ or_swap (is_in y t) (is_in x t) (is_covered ys t))
]

is_covered-sort_by_key :
    (xs : List TokenRange) (t : ℕ) → is_covered (sort_by_key start_of xs) t ≡ is_covered xs t
unfolding sort_by_key is_covered
is_covered-sort_by_key [] t = refl
is_covered-sort_by_key (x ∷ xs) t =
    is_covered-insert_sorted x (sort_by_key start_of xs) t
    ∙ ap (λ b. is_in x t || b) (is_covered-sort_by_key xs t)

empty_covers : (a m t : ℕ) → ltb 0 m ≡ false → leb a t && ltb t (a + m) ≡ false
empty_covers a m t h = ground arith

is_covered-retain :
    (xs : List TokenRange) (t : ℕ) → is_covered (retain is_positive xs) t ≡ is_covered xs t
unfolding retain is_covered is_positive
is_covered-retain [] t = refl
is_covered-retain (x ∷ xs) t = elim (Bool-cases (ltb 0 x.len)) [
  | inl keep ↦ rw (keep, retain) (ap (λ b. is_in x t || b) (is_covered-retain xs t))
  | inr skip ↦ rw (skip, retain) (rw (empty_covers x.start x.len t skip) (is_covered-retain xs t))
]

wide_covers :
    (a m b k t : ℕ)
    → a ≤ b
    → b ≤ a + m
    → leb a t && ltb t (a + (max (a + m) (b + k) - a))
      ≡ (leb a t && ltb t (a + m)) || (leb b t && ltb t (b + k))
wide_covers a m b k t h q = ground arith

wide_ends :
    (a m b k : ℕ)
    → a + m ≤ u64_max
    → b + k ≤ u64_max
    → a ≤ b
    → b ≤ a + m
    → a + (max (a + m) (b + k) - a) ≤ u64_max
wide_ends a m b k h q le inside = ground arith

wide_positive : (a m e : ℕ) → 0 < m → 0 < max (a + m) e - a
wide_positive a m e p = ground arith

merge_onto_begins :
    (end_ : ℕ) (last : TokenRange) (ranges : List TokenRange)
    → end_ < last.start
    → BeginsBehind end_ (merge_onto last ranges)
unfolding merge_onto extend
merge_onto_begins end_ last [] h = h
merge_onto_begins end_ last (r ∷ rs) h = elim (Bool-cases (leb r.start (range_end last))) [
  | inl joins ↦ rw (joins, merge_onto) (merge_onto_begins end_ (extend last r) rs h)
  | inr apart ↦ rw (apart, merge_onto) h
]

-- What the loop knows of a range: it is not empty, and its end is an index.
abbrev IsRange : TokenRange → Type 0
IsRange range = (0 < range.len) × Ends range

above :
    (a b : ℕ) (xs : List TokenRange) → a ≤ b → All (λ y. b ≤ y.start) xs → All (λ y. a ≤ y.start) xs
above a b xs h = All-map xs (λ y q. omega arith)

extend_exact :
    (last range : TokenRange)
    → Ends last
    → Ends range
    → extend last range
      ≡ record last { len = max (last.start + last.len) (range.start + range.len) - last.start }
unfolding extend
extend_exact last range e e' = rw (range_end_exact last e, range_end_exact range e')

join_bound :
    (last r : TokenRange)
    → Ends last
    → leb r.start (range_end last) ≡ true
    → r.start ≤ last.start + last.len
unfolding range_end sat_add
join_bound last r e h = ground arith

apart_bound :
    (last r : TokenRange)
    → Ends last
    → leb r.start (range_end last) ≡ false
    → last.start + last.len < r.start
unfolding range_end sat_add
apart_bound last r e h = ground arith

extend-IsRange :
    (last r : TokenRange)
    → IsRange last
    → IsRange r
    → last.start ≤ r.start
    → r.start ≤ last.start + last.len
    → IsRange (extend last r)
extend-IsRange last r (p, e) (p', e') le joins = rw (extend_exact last r e e') (
  wide_positive last.start last.len (r.start + r.len) p,
  wide_ends last.start last.len r.start r.len e e' le joins,
)

extend_covers :
    (last r : TokenRange) (t : ℕ)
    → Ends last
    → Ends r
    → last.start ≤ r.start
    → r.start ≤ last.start + last.len
    → is_in (extend last r) t ≡ is_in last t || is_in r t
extend_covers last r t e e' le joins =
    rw (extend_exact last r e e') (wide_covers last.start last.len r.start r.len t le joins)

merge_onto_covers :
    (last : TokenRange) (ranges : List TokenRange) (t : ℕ)
    → IsRange last
    → All IsRange ranges
    → All (λ r. last.start ≤ r.start) ranges
    → IsSorted start_of ranges
    → is_covered (merge_onto last ranges) t ≡ is_in last t || is_covered ranges t
unfolding merge_onto is_covered extend
merge_onto_covers last [] t i is_ les sorted = refl
merge_onto_covers last (r ∷ rs) t i (i', is_) (le, les) (first, sorted) =
    elim (Bool-cases (leb r.start (range_end last))) [
      | inl joins ↦
          let bound = join_bound last r i.1 joins in
          rw (joins, merge_onto)
            (merge_onto_covers (extend last r) rs t (extend-IsRange last r i i' le bound) is_ les
                sorted
              ∙ ap (λ b. b || is_covered rs t) (extend_covers last r t i.1 i'.1 le bound)
              ∙ or_assoc (is_in last t) (is_in r t) (is_covered rs t))
      | inr apart ↦
          rw (apart, merge_onto)
            (ap (λ b. is_in last t || b) (merge_onto_covers r rs t i' is_ first sorted))
    ]

merge_onto-IsSeparate :
    (last : TokenRange) (ranges : List TokenRange)
    → IsRange last
    → All IsRange ranges
    → All (λ r. last.start ≤ r.start) ranges
    → IsSorted start_of ranges
    → IsSeparate (merge_onto last ranges)
unfolding merge_onto IsSeparate extend
merge_onto-IsSeparate last [] (p, e) is_ les sorted = (p, tt, tt)
merge_onto-IsSeparate last (r ∷ rs) i (i', is_) (le, les) (first, sorted) =
    elim (Bool-cases (leb r.start (range_end last))) [
      | inl joins ↦
          rw (joins, merge_onto)
            (merge_onto-IsSeparate (extend last r) rs
              (extend-IsRange last r i i' le (join_bound last r i.1 joins)) is_ les sorted)
      | inr apart ↦
          rw (apart, merge_onto)
            (
              i.0,
              merge_onto_begins (last.start + last.len) r rs (apart_bound last r i.1 apart),
              merge_onto-IsSeparate r rs i' is_ first sorted,
            )
    ]

kept-IsRange :
    (ranges : List TokenRange)
    → All Ends ranges
    → All IsRange (sort_by_key start_of (retain is_positive ranges))
unfolding is_positive
kept-IsRange ranges ends = sort_by_key-All start_of IsRange (retain is_positive ranges) (
    All-map (retain is_positive ranges) (λ r (e, p). (ground arith, e))
      (retain-All is_positive Ends ranges ends))

merge_sorted_covers :
    (ranges : List TokenRange) (t : ℕ)
    → All IsRange ranges
    → IsSorted start_of ranges
    → is_covered (merge_sorted ranges) t ≡ is_covered ranges t
unfolding merge_sorted is_covered
merge_sorted_covers [] t is_ sorted = refl
merge_sorted_covers (r ∷ rs) t (i, is_) (first, sorted) =
    merge_onto_covers r rs t i is_ first sorted

merge_sorted-IsSeparate :
    (ranges : List TokenRange)
    → All IsRange ranges
    → IsSorted start_of ranges
    → IsSeparate (merge_sorted ranges)
unfolding merge_sorted IsSeparate
merge_sorted-IsSeparate [] is_ sorted = tt
merge_sorted-IsSeparate (r ∷ rs) (i, is_) (first, sorted) =
    merge_onto-IsSeparate r rs i is_ first sorted

-- For ranges that end within the indices, the merged ranges cover the same tokens, none of them is
-- empty, and each begins behind the end of the one before it.
pub merge_ranges-IsSeparate :
    (ranges : List TokenRange)
    → All Ends ranges
    → IsSeparate (merge_ranges ranges)
      × ((t : ℕ) → is_covered (merge_ranges ranges) t ≡ is_covered ranges t)
unfolding merge_ranges
merge_ranges-IsSeparate ranges ends =
    let sorted = sort_by_key-IsSorted start_of (retain is_positive ranges) in
    let ok_ = kept-IsRange ranges ends in
    let kept = sort_by_key start_of (retain is_positive ranges) in
    (
      merge_sorted-IsSeparate kept ok_ sorted,
      λ t.
          merge_sorted_covers kept t ok_ sorted
          ∙ is_covered-sort_by_key (retain is_positive ranges) t
          ∙ is_covered-retain ranges t,
    )
