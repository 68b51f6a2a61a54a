-- ===== src/Quality/Planning.antt =====
-- src/quality.rs: `plan_quality_reuse`. The loop runs at most `max_segments` rounds, for each one adds
-- a span; that number is its fuel.
pub mod Pieces
pub mod Sound
pub mod Plan
use rivet_cache.Prelude.{
  ℕ, zero, suc, ◌+◌, ◌-◌, ◌*◌, ◌/◌, Bool, true, false, ◌||◌, ◌&&◌, List, [], ◌∷◌, ◌++◌, Option,
  none, some, ltb, leb, ◌==◌, if◌then◌else◌, min, length, take, drop,
}
use rivet_cache.Prelude.Lists.{Bytes}
use rivet_cache.Prelude.Sorting.{sort_by_key}
use rivet_cache.Prelude.Words.{sat_add, sat_mul}
use rivet_cache.Prelude.Results.{Result, ok, err}
use rivet_cache.Kv.Prefix.{is_empty}
use rivet_cache.Reuse.{ReuseSpan, SegmentIndex}
use rivet_cache.Reuse.Index.{best_segment, is_better}
use rivet_cache.Quality.{QualityReusePolicy, QualityReusePlan, validate_policy}
use rivet_cache.Quality.Ranges.{boundary_ranges}

-- `query_tokens[start..end]`.
abbrev pub slice : ℕ → ℕ → List ℕ → List ℕ
slice start end_ query = take (end_ - start) (drop start query)

abbrev pub Choice : Type 0
Choice = ℕ × (ℕ × ReuseSpan)

-- The better of the choice so far and a span of the range.
unfoldable pub choose : Option Choice → ℕ → ℕ → Option ReuseSpan → Option Choice
choose best range_index start none = best
choose none range_index start (some span) =
    let moved = record span { query_start = sat_add span.query_start start } in
    some (range_index, (start, moved))
choose (some (i, (s, current))) range_index start (some span) =
    let moved = record span { query_start = sat_add span.query_start start } in
    if is_better moved current then some (range_index, (start, moved)) else some (i, (s, current))

-- `Vec::swap_remove`: the last element takes the place of the removed one.
unfoldable pub last_of {ℓ} : {A : Type ℓ} → A → List A → A
last_of x [] = x
last_of x (y ∷ ys) = last_of y ys

unfoldable pub without_last {ℓ} : {A : Type ℓ} → A → List A → List A
without_last x [] = []
without_last x (y ∷ ys) = x ∷ without_last y ys

unfoldable pub swap_remove {ℓ} : {A : Type ℓ} → ℕ → List A → List A
unfolding last_of without_last
swap_remove i [] = []
swap_remove zero (x ∷ []) = []
swap_remove zero (x ∷ y ∷ ys) = last_of y ys ∷ without_last y ys
swap_remove (suc i) (x ∷ xs) = x ∷ swap_remove i xs

abbrev pub end_at : ℕ → List (ℕ × ℕ) → ℕ
end_at i [] = 0
end_at zero ((s, e) ∷ ranges) = e
end_at (suc i) (r ∷ ranges) = end_at i ranges

-- The ranges that are left when the span is taken out of the range.
unfoldable pub cut_range : ℕ → ℕ → ReuseSpan → List (ℕ × ℕ) → List (ℕ × ℕ)
unfolding swap_remove
cut_range range_index range_start span ranges =
    let span_end = sat_add span.query_start span.matched_tokens in
    let range_end = end_at range_index ranges in
    swap_remove range_index ranges
    ++ (if ltb range_start span.query_start then (range_start, span.query_start) ∷ [] else [])
    ++ (if ltb span_end range_end then (span_end, range_end) ∷ [] else [])

-- A sum that saturates does not depend on the order.
abbrev pub reused : List ReuseSpan → ℕ
reused [] = 0
reused (span ∷ spans) = sat_add (reused spans) span.matched_tokens

module _ (records : SegmentIndex) (model : Bytes) (query : List ℕ)
    (policy : QualityReusePolicy) where
  -- The inner loop over the ranges.
  unfoldable pub best_choice : ℕ → Option Choice → List (ℕ × ℕ) → Result (Option Choice)
  unfolding choose
  best_choice range_index best [] = ok best
  best_choice range_index best ((start, end_) ∷ ranges) =
      elim (ltb (end_ - start) policy.min_match_tokens) [
        | true ↦ best_choice (suc range_index) best ranges
        | false ↦
            elim (best_segment model (slice start end_ query) policy.min_match_tokens records) [
              | err x ↦ err x
              | ok found ↦
                  best_choice (suc range_index) (choose best range_index start found) ranges
            ]
      ]

  -- The outer loop.
  unfoldable pub take_spans : ℕ → List (ℕ × ℕ) → List ReuseSpan → Result (List ReuseSpan)
  unfolding best_choice cut_range
  take_spans zero ranges spans = ok spans
  take_spans (suc fuel) [] spans = ok spans
  take_spans (suc fuel) (r ∷ ranges) spans = elim (best_choice 0 none (r ∷ ranges)) [
    | err x ↦ err x
    | ok none ↦ ok spans
    | ok (some (range_index, (range_start, span))) ↦
        take_spans fuel (cut_range range_index range_start span (r ∷ ranges)) (spans ++ span ∷ [])
  ]

  abbrev pub coverage_of : ℕ → ℕ
  coverage_of reused_tokens = min (sat_mul reused_tokens 1000 / length query) 1000

  abbrev pub plan_of : List ReuseSpan → QualityReusePlan
  plan_of spans = record {
    spans = spans;
    recompute_ranges = boundary_ranges spans (length query) policy.boundary_recompute_tokens;
    query_tokens = length query;
    reused_tokens = reused spans;
    coverage_per_mille = coverage_of (reused spans);
  }

  -- What follows the loops.
  unfoldable pub finish_plan : List ReuseSpan → Option QualityReusePlan
  finish_plan [] = none
  finish_plan (s ∷ ss) =
      let plan = plan_of (sort_by_key (λ span. span.query_start) (s ∷ ss)) in
      if ltb plan.coverage_per_mille policy.min_coverage_per_mille then none else some plan

  unfoldable pub plan_quality_reuse : Result (Option QualityReusePlan)
  unfolding take_spans finish_plan
  plan_quality_reuse = elim (validate_policy policy) [
    | err x ↦ err x
    | ok _ ↦
        if is_empty query
        then ok none
        else elim (take_spans policy.max_segments ((0, length query) ∷ []) []) [
          | err x ↦ err x
          | ok spans ↦ ok (finish_plan spans)
        ]
  ]
