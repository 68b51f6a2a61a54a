-- ===== src/Quality/Planning/Plan.antt =====
-- What `plan_quality_reuse` promises of a plan.
use mathlib.Core.Path.{subst}
use native.Mathlib.Nat.{div-mul-le_self, mul-le-mul_right}
use mathlib.Core.List.Memᴰ
use mathlib.Core.List.{Memᴰ}
use rivet_cache.Prelude.{
  ℕ, ◌+◌, ◌-◌, ◌*◌, ◌/◌, ◌≤◌, ◌<◌, ◌≡◌, refl, ap, ◌∙◌, false, List, [], ◌∷◌, Option, some, arith,
  ltb, leb, length, Bool-cases, inl, inr,
}
use rivet_cache.Prelude.Lists.{Bytes, All}
use rivet_cache.Prelude.Retain.{All-map, All-mem, All-and}
use rivet_cache.Prelude.Sorting.{
  insert_sorted, sort_by_key, sort_by_key-All, IsSorted, sort_by_key-IsSorted,
}
use rivet_cache.Prelude.Words.{sat_add, sat_mul, u64_max}
use rivet_cache.Prelude.Results.{ok, Result-cases, err≢ok, ok-injective}
use rivet_cache.Kv.Prefix.{is_empty}
use rivet_cache.Reuse.{ReuseSpan, SegmentIndex}
use rivet_cache.Reuse.Index.Best.{IsExact}
use rivet_cache.Quality.{QualityReusePolicy, QualityReusePlan, validate_policy}
use rivet_cache.Quality.Planning.{take_spans, reused, plan_of, finish_plan, plan_quality_reuse}
use rivet_cache.Quality.Planning.Pieces.{count, span_count, inside}
use rivet_cache.Quality.Planning.Sound.{take_spans_sound}

abbrev start_of : ReuseSpan → ℕ
start_of span = span.query_start

-- How many tokens the spans reuse.
abbrev pub total_matched : List ReuseSpan → ℕ
total_matched [] = 0
total_matched (span ∷ spans) = span.matched_tokens + total_matched spans

-- The spans stand one behind the other between the two indices.
pub IsLaidOut : ℕ → List ReuseSpan → ℕ → Type 0
IsLaidOut from [] to = from ≤ to
IsLaidOut from (span ∷ spans) to =
    (from ≤ span.query_start) × IsLaidOut (span.query_start + span.matched_tokens) spans to

span_count-insert :
    (t : ℕ) (x : ReuseSpan) (xs : List ReuseSpan)
    → span_count t (insert_sorted start_of x xs) ≡ span_count t (x ∷ xs)
unfolding insert_sorted span_count
span_count-insert t x [] = refl
span_count-insert t x (y ∷ ys) = elim (Bool-cases (leb x.query_start y.query_start)) [
  | inl first ↦ rw (first, insert_sorted)
  | inr later ↦ rw (later, insert_sorted) (omega (arith, span_count-insert t x ys))
]

span_count-sort :
    (t : ℕ) (xs : List ReuseSpan) → span_count t (sort_by_key start_of xs) ≡ span_count t xs
unfolding sort_by_key span_count
span_count-sort t [] = refl
span_count-sort t (x ∷ xs) =
    span_count-insert t x (sort_by_key start_of xs)
    ∙ ap (λ c. inside x.query_start (x.query_start + x.matched_tokens) t + c) (span_count-sort t xs)

span_count-mem :
    (t : ℕ) (y : ReuseSpan) (xs : List ReuseSpan)
    → Memᴰ y xs
    → inside y.query_start (y.query_start + y.matched_tokens) t ≤ span_count t xs
unfolding span_count
span_count-mem t y [] m = elim m [ ]
span_count-mem t y (x ∷ xs) m = elim (Memᴰ.cases_cons m) [
  | inl e ↦ rw e (omega arith)
  | inr m' ↦ omega (arith, span_count-mem t y xs m')
]

-- A range that begins no earlier than another, and shares no token with it, begins behind it.
apart :
    (a m b k n c : ℕ)
    → a ≤ b
    → 0 < k
    → inside b (b + k) b ≤ c
    → inside a (a + m) b + c ≤ inside 0 n b
    → a + m ≤ b
apart a m b k n c h q here once = ground arith

ends_inside :
    (a m n c : ℕ) → 0 < m → inside a (a + m) (a + m - 1) + c ≤ inside 0 n (a + m - 1) → a + m ≤ n
ends_inside a m n c p once = ground arith

laid_out :
    (n from : ℕ) (spans : List ReuseSpan)
    → IsSorted start_of spans
    → All (λ s. 0 < s.matched_tokens) spans
    → ((t : ℕ) → span_count t spans ≤ inside 0 n t)
    → All (λ s. from ≤ s.query_start) spans
    → from ≤ n
    → IsLaidOut from spans n
unfolding IsLaidOut span_count
laid_out n from [] sorted pos once above h = h
laid_out n from (s ∷ ss) (first, sorted) (p, pos) once (a, above) h =
    let end_ = s.query_start + s.matched_tokens in
    (
      a,
      laid_out n end_ ss sorted pos (λ t. omega (arith, once t))
          (All-map ss
            (λ y ((m, q), le).
              apart s.query_start s.matched_tokens y.query_start y.matched_tokens n
                (span_count y.query_start ss) le q (span_count-mem y.query_start y ss m)
                (once y.query_start))
            (All-and (λ y. Memᴰ y ss × (0 < y.matched_tokens)) (λ y. s.query_start ≤ y.query_start)
              ss (All-and (λ y. Memᴰ y ss) (λ y. 0 < y.matched_tokens) ss (All-mem ss) pos) first))
          (ends_inside s.query_start s.matched_tokens n (span_count (end_ - 1) ss) p
            (once (end_ - 1))),
    )

total_matched-le :
    (from to : ℕ) (spans : List ReuseSpan)
    → IsLaidOut from spans to
    → from + total_matched spans ≤ to
unfolding IsLaidOut
total_matched-le from to [] l = omega arith
total_matched-le from to (s ∷ ss) (a, l) =
    omega (arith, total_matched-le (s.query_start + s.matched_tokens) to ss l)

-- The saturating sum is exact.
reused-total_matched :
    (spans : List ReuseSpan) → total_matched spans ≤ u64_max → reused spans ≡ total_matched spans
unfolding sat_add
reused-total_matched [] h = refl
reused-total_matched (s ∷ ss) h = let rest = reused-total_matched ss (omega arith) in ground arith

-- The reported share is not above the one that is reached.
coverage-le : (r n c : ℕ) → c ≤ sat_mul r 1000 / n → c * n ≤ 1000 * r
unfolding sat_mul
coverage-le r n c h =
    let share = div-mul-le_self (sat_mul r 1000) n in
    let scaled : c * n ≤ sat_mul r 1000 / n * n = mul-le-mul_right n h in omega (arith)

validate_policy-positive :
    (policy p : QualityReusePolicy) → validate_policy policy ≡ ok p → 0 < policy.min_match_tokens
unfolding validate_policy
validate_policy-positive policy p h = ground arith

long_positive : (m n : ℕ) → 0 < m → m ≤ n → 0 < n
long_positive m n p h = omega arith

start_shared : (t n : ℕ) → count t ((0, n) ∷ []) + span_count t [] ≡ inside 0 n t
unfolding count span_count
start_shared t n = omega arith

le_of_zero : (a b : ℕ) → 0 + a ≤ b → a ≤ b
le_of_zero a b h = omega arith

enough_covered : (a b : ℕ) → ltb a b ≡ false → b ≤ a
enough_covered a b h = ground arith

module _ (records : SegmentIndex) (model : Bytes) (query : List ℕ) (policy : QualityReusePolicy)
    (positive : 0 < policy.min_match_tokens) (fits : length query ≤ u64_max) where
  Sound : QualityReusePlan → Type 0
  Sound plan =
      All (IsExact model query policy.min_match_tokens records) plan.spans
      × IsLaidOut 0 plan.spans (length query)
      × (plan.reused_tokens ≡ total_matched plan.spans)
      × (total_matched plan.spans ≤ length query)
      × (policy.min_coverage_per_mille ≤ plan.coverage_per_mille)
      × (plan.coverage_per_mille * length query ≤ 1000 * total_matched plan.spans)

  finish_plan-Sound :
      (spans : List ReuseSpan) (plan : QualityReusePlan)
      → All (IsExact model query policy.min_match_tokens records) spans
      → ((t : ℕ) → span_count t spans ≤ inside 0 (length query) t)
      → finish_plan records model query policy spans ≡ some plan
      → Sound plan
  unfolding finish_plan Sound
  finish_plan-Sound [] plan exact once h = absurd (ground arith)
  finish_plan-Sound (x ∷ xs) plan exact once h =
      let sorted = sort_by_key start_of (x ∷ xs) in
      let exact' =
        sort_by_key-All start_of (IsExact model query policy.min_match_tokens records) (x ∷ xs)
          exact in
      let laid =
        laid_out (length query) 0 sorted (sort_by_key-IsSorted start_of (x ∷ xs))
          (All-map sorted
            (λ s (ex : IsExact model query policy.min_match_tokens records s).
              long_positive policy.min_match_tokens s.matched_tokens positive ex.long)
            exact')
          (λ t. omega (arith, once t, span_count-sort t (x ∷ xs)))
          (All-map sorted (λ s ex. omega arith) exact') (omega arith) in
      let matched =
        le_of_zero (total_matched sorted) (length query)
          (total_matched-le 0 (length query) sorted laid) in
      let exact_sum = reused-total_matched sorted (omega arith) in
      let plan' = plan_of records model query policy sorted in
      elim (Bool-cases (ltb plan'.coverage_per_mille policy.min_coverage_per_mille)) [
        | inl little ↦ absurd (ground arith)
        | inr enough ↦
            let found : ◌≡◌ {A = Option QualityReusePlan} (some plan') (some plan) =
              rw (enough, finish_plan) at h in
            let same : plan' ≡ plan = cc in
            subst Sound same (
              exact',
              laid,
              exact_sum,
              matched,
              enough_covered plan'.coverage_per_mille policy.min_coverage_per_mille enough,
              subst (λ r. plan'.coverage_per_mille * length query ≤ 1000 * r) exact_sum
                  (coverage-le (reused sorted) (length query) plan'.coverage_per_mille
                    (omega arith)),
            )
      ]

-- The spans of a plan repeat tokens of the index and stand one behind the other inside the query. The
-- plan reports the number of their tokens, and a share that is not above the one they have in the
-- query, per mille, nor below the least one that the policy asks for. The texts fit in the address
-- space.
pub plan_quality_reuse-IsSound :
    (records : SegmentIndex) (model : Bytes) (query : List ℕ) (policy : QualityReusePolicy)
    (plan : QualityReusePlan)
    → length query ≤ u64_max
    → All (λ r. length r.tokens < u64_max) records
    → plan_quality_reuse records model query policy ≡ ok (some plan)
    → All (IsExact model query policy.min_match_tokens records) plan.spans
      × IsLaidOut 0 plan.spans (length query)
      × (plan.reused_tokens ≡ total_matched plan.spans)
      × (total_matched plan.spans ≤ length query)
      × (policy.min_coverage_per_mille ≤ plan.coverage_per_mille)
      × (plan.coverage_per_mille * length query ≤ 1000 * total_matched plan.spans)
unfolding plan_quality_reuse Sound
plan_quality_reuse-IsSound records model query policy plan fits short h =
    elim (Result-cases (validate_policy policy)) [
      | inr (x, q) ↦ absurd (err≢ok (rw (q, plan_quality_reuse) at h))
      | inl (p, q) ↦ elim (Bool-cases (is_empty query)) [
        | inl empty ↦ absurd (ground arith)
        | inr full ↦
            elim (Result-cases (
              take_spans records model query policy policy.max_segments ((0, length query) ∷ [])
                [])) [
                  | inr (x, q') ↦ absurd (err≢ok (rw (q, full, q', plan_quality_reuse) at h))
                  | inl (spans, q') ↦
                      let positive = validate_policy-positive policy p q in
                      let (exact, once) =
                        take_spans_sound records model query policy fits short positive
                          policy.max_segments ((0, length query) ∷ []) [] spans (omega arith, tt) tt
                          (λ t. start_shared t (length query)) q' in
                      finish_plan-Sound records model query policy positive fits spans plan exact
                        once (ok-injective (rw (q, full, q', plan_quality_reuse) at h))
                ]
      ]
    ]
