-- ===== src/Quality/Ranges.antt =====
-- src/quality.rs: `boundary_ranges` and `merge_ranges`.
pub mod Merged
use rivet_cache.Prelude.{
  ℕ, ◌-◌, Bool, true, false, List, [], ◌∷◌, ◌++◌, ltb, leb, ◌==◌, if◌then◌else◌, min, max,
}
use rivet_cache.Prelude.Lists.{retain}
use rivet_cache.Prelude.Sorting.{sort_by_key}
use rivet_cache.Prelude.Words.{sat_add}
use rivet_cache.Reuse.{ReuseSpan}
use rivet_cache.Quality.{TokenRange, range_end}

unfoldable pub is_positive : TokenRange → Bool
is_positive range = ltb 0 range.len

abbrev pub start_of : TokenRange → ℕ
start_of range = range.start

-- `last`, made longer so that it ends where `range` does, if that is later.
unfoldable pub extend : TokenRange → TokenRange → TokenRange
extend last range = record last { len = max (range_end last) (range_end range) - last.start }

-- The loop, where `last` is the last range of `merged`.
unfoldable pub merge_onto : TokenRange → List TokenRange → List TokenRange
unfolding extend
merge_onto last [] = last ∷ []
merge_onto last (range ∷ ranges) = elim (leb range.start (range_end last)) [
  | true ↦ merge_onto (extend last range) ranges
  | false ↦ last ∷ merge_onto range ranges
]

unfoldable pub merge_sorted : List TokenRange → List TokenRange
unfolding merge_onto
merge_sorted [] = []
merge_sorted (range ∷ ranges) = merge_onto range ranges

unfoldable pub merge_ranges : List TokenRange → List TokenRange
unfolding merge_sorted is_positive
merge_ranges ranges = merge_sorted (sort_by_key start_of (retain is_positive ranges))

abbrev pub one_if_positive : ℕ → ℕ → List TokenRange
one_if_positive start len = if ltb 0 len then record { start = start; len = len } ∷ [] else []

-- The ranges at both ends of a span.
unfoldable pub span_ranges : ℕ → ℕ → ReuseSpan → List TokenRange
span_ranges query_len halo span =
    let end_ = min (sat_add span.query_start span.matched_tokens) query_len in
    let left_len = min (min halo span.matched_tokens) (query_len - span.query_start) in
    let right_len = min (min halo span.matched_tokens) end_ in
    one_if_positive span.query_start left_len ++ one_if_positive (end_ - right_len) right_len

unfoldable pub all_ranges : ℕ → ℕ → List ReuseSpan → List TokenRange
unfolding span_ranges
all_ranges query_len halo [] = []
all_ranges query_len halo (span ∷ spans) =
    span_ranges query_len halo span ++ all_ranges query_len halo spans

unfoldable pub boundary_ranges : List ReuseSpan → ℕ → ℕ → List TokenRange
unfolding all_ranges merge_ranges
boundary_ranges spans query_len halo =
    if halo == 0 then [] else merge_ranges (all_ranges query_len halo spans)
