-- ===== src/Quality/Planning/Sound.antt =====
-- A plan reuses exact spans, one behind the other.
use mathlib.Core.Path.{subst}
use mathlib.Core.List.{append_assoc}
use rivet_cache.Prelude.{
  min, ℕ, zero, suc, ◌+◌, ◌-◌, ◌≤◌, ◌<◌, ◌≡◌, refl, sym, ap, ◌∙◌, List, [], ◌∷◌, ◌++◌, Option, none,
  some, arith, ltb, length, get_elem?, take, drop, Bool-cases, inl, inr,
}
use rivet_cache.Prelude.Lists.{
  Bytes, All, length-append, length-take, length-drop, take-append-drop,
}
use rivet_cache.Prelude.Retain.{All-append}
use rivet_cache.Prelude.Words.{u64_max, sat_add, sat_add-le}
use rivet_cache.Prelude.Results.{Result, ok, Result-cases, err≢ok, ok-injective}
use rivet_cache.Reuse.{ReuseSpan, SegmentIndex}
use rivet_cache.Reuse.Matching.Prefixes.{OccursAt}
use rivet_cache.Reuse.Index.{best_segment, is_better}
use rivet_cache.Reuse.Index.Best.{IsExact, best_segment-IsExact, OccursAt-end}
use rivet_cache.Quality.{QualityReusePolicy}
use rivet_cache.Quality.Planning.{slice, Choice, choose, cut_range, best_choice, take_spans}
use rivet_cache.Quality.Planning.Pieces.{
  count, span_count, span_count-append, count-cut_range, All-cut_range, get-All, inside, EndsBy,
}

-- A piece of a slice is a piece of the text.
OccursAt-slice :
    (m query : List ℕ) (s e i : ℕ)
    → OccursAt m i (slice s e query)
    → s ≤ length query
    → OccursAt m (i + s) query
OccursAt-slice m query s e i (before, after, eq, at) h = (
  take s query ++ before,
  after ++ drop (e - s) (drop s query),
  sym (take-append-drop s query)
      ∙ ap (λ z. take s query ++ z)
          (sym (take-append-drop (e - s) (drop s query))
            ∙ ap (λ z. z ++ drop (e - s) (drop s query)) eq)
      ∙ simp append_assoc,
  omega (arith, length-append (take s query) before, length-take s query),
)

slice-short : (s e : ℕ) (query : List ℕ) → length (slice s e query) ≤ length query
slice-short s e query = omega (arith, length-take (e - s) (drop s query), length-drop s query)

-- `rest` is what stands in `ranges` from the index on.
abbrev StandsAt : List (ℕ × ℕ) → ℕ → List (ℕ × ℕ) → Type 0
StandsAt ranges i rest =
    (k : ℕ) (r : ℕ × ℕ) → get_elem? rest k ≡ some r → get_elem? ranges (i + k) ≡ some r

stands_next :
    (ranges : List (ℕ × ℕ)) (i : ℕ) (rest : List (ℕ × ℕ)) (x : ℕ × ℕ)
    → StandsAt ranges i (x ∷ rest)
    → StandsAt ranges (suc i) rest
stands_next ranges i rest x at k r h =
    let same : suc i + k ≡ i + suc k = omega arith in ap (get_elem? ranges) same ∙ at (suc k) r h

stands_here :
    (ranges : List (ℕ × ℕ)) (i : ℕ) (rest : List (ℕ × ℕ)) (x : ℕ × ℕ)
    → StandsAt ranges i (x ∷ rest)
    → get_elem? ranges i ≡ some x
stands_here ranges i rest x at =
    let same : i ≡ i + 0 = omega arith in ap (get_elem? ranges) same ∙ at 0 x refl

stands_start : (ranges : List (ℕ × ℕ)) → StandsAt ranges 0 ranges
stands_start ranges k r h = let same : 0 + k ≡ k = omega arith in ap (get_elem? ranges) same ∙ h

one_span :
    (t : ℕ) (span : ReuseSpan)
    → span_count t (span ∷ []) ≡ inside span.query_start (span.query_start + span.matched_tokens) t
unfolding span_count
one_span t span = omega arith

module _ (records : SegmentIndex) (model : Bytes) (query : List ℕ) (policy : QualityReusePolicy)
    (fits : length query ≤ u64_max) (short : All (λ r. length r.tokens < u64_max) records)
    (positive : 0 < policy.min_match_tokens) where
  abbrev pub Exact : ReuseSpan → Type 0
  Exact = IsExact model query policy.min_match_tokens records

  -- A choice is an exact span inside its range.
  IsChoice : List (ℕ × ℕ) → Choice → Type 0
  IsChoice ranges (i, (s, span)) =
      (e : ℕ) × (get_elem? ranges i ≡ some (s, e))
      × (s ≤ span.query_start)
      × (span.query_start + span.matched_tokens ≤ e)
      × Exact span

  ChoiceIf : List (ℕ × ℕ) → Option Choice → Type 0
  ChoiceIf ranges none = Unit
  ChoiceIf ranges (some c) = IsChoice ranges c

  moved-IsChoice :
      (ranges : List (ℕ × ℕ)) (i s e : ℕ) (span : ReuseSpan)
      → get_elem? ranges i ≡ some (s, e)
      → e ≤ length query
      → best_segment model (slice s e query) policy.min_match_tokens records ≡ ok (some span)
      → IsChoice ranges (i, (s, record span { query_start = sat_add span.query_start s }))
  unfolding IsChoice
  moved-IsChoice ranges i s e span at inside_ h =
      let exact =
        best_segment-IsExact model (slice s e query) policy.min_match_tokens records span
          (omega (arith, slice-short s e query)) short h in
      let last = OccursAt-end exact.piece (slice s e query) span.query_start exact.in_query in
      let sized = exact.length-piece in
      let long = exact.long in
      let n : length (slice s e query) ≡ min (e - s) (length query - s) =
        length-take (e - s) (drop s query) ∙ ap (min (e - s)) (length-drop s query) in
      let plain : sat_add span.query_start s ≡ span.query_start + s =
        sat_add-le span.query_start s (omega arith) in
      (
        e,
        at,
        omega arith,
        omega arith,
        record {
          segment = exact.segment;
          stored = exact.stored;
          of_model = exact.of_model;
          piece = exact.piece;
          length-piece = exact.length-piece;
          in_query =
              subst (λ i. OccursAt exact.piece i query) (sym plain)
                (OccursAt-slice exact.piece query s e span.query_start exact.in_query
                  (omega arith));
          in_segment = exact.in_segment;
          tiles = exact.tiles;
          of_record = exact.of_record;
          long = exact.long;
        },
      )

  choose-ChoiceIf :
      (ranges : List (ℕ × ℕ)) (best : Option Choice) (i s e : ℕ) (found : Option ReuseSpan)
      → get_elem? ranges i ≡ some (s, e)
      → e ≤ length query
      → best_segment model (slice s e query) policy.min_match_tokens records ≡ ok found
      → ChoiceIf ranges best
      → ChoiceIf ranges (choose best i s found)
  unfolding choose ChoiceIf
  choose-ChoiceIf ranges best i s e none at inside_ h b = b
  choose-ChoiceIf ranges none i s e (some span) at inside_ h b =
      moved-IsChoice ranges i s e span at inside_ h
  choose-ChoiceIf ranges (some (j, (s', current))) i s e (some span) at inside_ h b =
      elim (Bool-cases
        (is_better (record span { query_start = sat_add span.query_start s }) current)) [
          | inl better ↦ rw better (moved-IsChoice ranges i s e span at inside_ h)
          | inr worse ↦ rw worse b
        ]

  best_choice-ChoiceIf :
      (ranges : List (ℕ × ℕ)) (i : ℕ) (rest : List (ℕ × ℕ)) (best found : Option Choice)
      → StandsAt ranges i rest
      → All (EndsBy (length query)) rest
      → ChoiceIf ranges best
      → best_choice records model query policy i best rest ≡ ok found
      → ChoiceIf ranges found
  unfolding best_choice
  best_choice-ChoiceIf ranges i [] best found at ends b h =
      subst (ChoiceIf ranges) (ok-injective h) b
  best_choice-ChoiceIf ranges i ((s, e) ∷ rest) best found at (end_, ends) b h =
      elim (Bool-cases (ltb (e - s) policy.min_match_tokens)) [
        | inl small ↦
            best_choice-ChoiceIf ranges (suc i) rest best found
              (stands_next ranges i rest (s, e) at) ends b (rw (small, best_choice) at h)
        | inr large ↦
            elim (Result-cases
              (best_segment model (slice s e query) policy.min_match_tokens records)) [
                | inr (x, q) ↦ absurd (err≢ok (rw (large, q, best_choice) at h))
                | inl (got, q) ↦
                    best_choice-ChoiceIf ranges (suc i) rest (choose best i s got) found
                      (stands_next ranges i rest (s, e) at) ends
                      (choose-ChoiceIf ranges best i s e got (stands_here ranges i rest (s, e) at)
                        end_ q b)
                      (rw (large, q, best_choice) at h)
              ]
      ]

  -- The ranges and the spans share out the tokens of the query.
  abbrev Shared : List (ℕ × ℕ) → List ReuseSpan → Type 0
  Shared ranges spans = (t : ℕ) → count t ranges + span_count t spans ≡ inside 0 (length query) t

  abbrev pub AtMostOnce : List ReuseSpan → Type 0
  AtMostOnce spans = (t : ℕ) → span_count t spans ≤ inside 0 (length query) t

  stopped :
      (spans result : List ReuseSpan)
      → All Exact spans
      → AtMostOnce spans
      → ◌≡◌ {A = Result (List ReuseSpan)} (ok spans) (ok result)
      → All Exact result × AtMostOnce result
  stopped spans result exact once h =
      subst (λ ss. All Exact ss × AtMostOnce ss) (ok-injective h) (exact, once)

  pub take_spans_sound :
      (fuel : ℕ) (ranges : List (ℕ × ℕ)) (spans result : List ReuseSpan)
      → All (EndsBy (length query)) ranges
      → All Exact spans
      → Shared ranges spans
      → take_spans records model query policy fuel ranges spans ≡ ok result
      → All Exact result × AtMostOnce result
  unfolding take_spans ChoiceIf IsChoice
  take_spans_sound zero ranges spans result ends exact shared h =
      stopped spans result exact (λ t. omega (arith, shared t)) h
  take_spans_sound (suc fuel) [] spans result ends exact shared h =
      stopped spans result exact (λ t. omega (arith, shared t)) h
  take_spans_sound (suc fuel) (r ∷ ranges) spans result ends exact shared h =
      elim (Result-cases (best_choice records model query policy 0 none (r ∷ ranges))) [
        | inr (x, q) ↦ absurd (err≢ok (rw (q, take_spans) at h))
        | inl (none, q) ↦
            stopped spans result exact (λ t. omega (arith, shared t)) (rw (q, take_spans) at h)
        | inl (some (i, (s, span)), q) ↦
            let (e, at, from, to, exactly) =
              best_choice-ChoiceIf (r ∷ ranges) 0 (r ∷ ranges) none _ (stands_start (r ∷ ranges))
                ends tt q in
            let below = get-All (EndsBy (length query)) i (s, e) (r ∷ ranges) at ends in
            take_spans_sound fuel (cut_range i s span (r ∷ ranges)) (spans ++ span ∷ []) result
              (All-cut_range (length query) i s e span (r ∷ ranges) at (omega arith) below ends)
              (All-append Exact spans (span ∷ []) exact (exactly, tt))
              (λ t. omega (
                arith,
                shared t,
                span_count-append t spans (span ∷ []),
                count-cut_range t i s e span (r ∷ ranges) at from to (omega arith),
                one_span t span,
              ))
              (rw (q, take_spans) at h)
      ]
