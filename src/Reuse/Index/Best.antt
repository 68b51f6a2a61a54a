-- ===== src/Reuse/Index/Best.antt =====
-- A span of `best_segment` repeats tokens of a record: reuse is exact.
use mathlib.Core.Path.{subst}
use mathlib.Core.List.{Memᴰ, append_assoc}
use rivet_cache.Prelude.{
  ◌⊎◌, ℕ, ◌+◌, ◌-◌, ◌≤◌, ◌<◌, ◌≡◌, sym, ap, ◌∙◌, List, [], ◌∷◌, ◌++◌, Option, none, some, ltb, ◌==◌,
  arith, Bool-cases, Option-cases, inl, inr, length, take, drop,
}
use rivet_cache.Prelude.Lists.{
  Bytes, All, length-append, length-take, length-drop, take-append-drop,
}
use rivet_cache.Prelude.Words.{u64_max}
use rivet_cache.Prelude.Retain.{All-and, All-mem}
use rivet_cache.Prelude.Results.{ok, ok-injective}
use rivet_cache.Kv.Prefix.{same, is_empty}
use rivet_cache.Kv.Prefix.Longest.{same→eq}
use rivet_cache.Reuse.{RawMatch, ReuseSpan, SegmentRecord, SegmentIndex}
use rivet_cache.Reuse.Matching.{longest_common_substring}
use rivet_cache.Reuse.Matching.Prefixes.{OccursAt}
use rivet_cache.Reuse.Matching.Longest.{longest_common_substring-OccursAt}
use rivet_cache.Reuse.Align.{align_to_blocks}
use rivet_cache.Reuse.Align.Exact.{Tiles, align_to_blocks-IsAligned}
use rivet_cache.Reuse.Index.{aligned_span, replace, is_better, scan_records, best_segment}

-- The tokens of the span stand in the query and in a record of the model, at the indices of the
-- span, and blocks of that record tile them.
pub record IsExact (model : Bytes) (query : List ℕ) (min_match : ℕ) (records : SegmentIndex)
    (span : ReuseSpan) : Type 0 where
  pub segment : SegmentRecord
  pub stored : Memᴰ segment records
  pub of_model : segment.model_fingerprint ≡ model
  pub piece : List ℕ
  pub length-piece : length piece ≡ span.matched_tokens
  pub in_query : OccursAt piece span.query_start query
  pub in_segment : OccursAt piece span.source_start segment.tokens
  pub tiles : Tiles span.source_start span.source_keys (span.source_start + span.matched_tokens)
  pub of_record : All (λ key. Memᴰ key segment.block_keys) span.source_keys
  pub long : min_match ≤ span.matched_tokens

-- A part of a piece.
OccursAt-part :
    (m text : List ℕ) (i d n : ℕ)
    → OccursAt m i text
    → d + n ≤ length m
    → OccursAt (take n (drop d m)) (i + d) text
OccursAt-part m text i d n (before, after, e, at) h = (
  before ++ take d m,
  drop n (drop d m) ++ after,
  e
      ∙ ap (λ z. before ++ (z ++ after)) (sym (take-append-drop d m))
      ∙ ap (λ z. before ++ (take d m ++ z ++ after)) (sym (take-append-drop n (drop d m)))
      ∙ simp append_assoc,
  omega (arith, length-append before (take d m), length-take d m),
)

pub OccursAt-end : (m text : List ℕ) (i : ℕ) → OccursAt m i text → i + length m ≤ length text
OccursAt-end m text i (before, after, e, at) =
    rw e (omega (arith, length-append before (m ++ after), length-append m after))

module _ (model : Bytes) (query : List ℕ) (min_match : ℕ) (records : SegmentIndex)
    (fits : length query ≤ u64_max) where
  aligned_span-inversion :
      (r : SegmentRecord) (span : ReuseSpan)
      → aligned_span query min_match r ≡ some span
      → (raw : RawMatch) × (longest_common_substring query r.tokens ≡ some raw)
        × (align_to_blocks r raw ≡ some span)
        × (min_match ≤ span.matched_tokens)
  unfolding aligned_span
  aligned_span-inversion r span h = elim (Option-cases (longest_common_substring query r.tokens)) [
    | inl nothing ↦ absurd (ground arith)
    | inr (raw, q) ↦ elim (Bool-cases (ltb raw.len min_match)) [
      | inl short ↦ absurd (ground arith)
      | inr long ↦ elim (Option-cases (align_to_blocks r raw)) [
        | inl nothing ↦ absurd (ground arith)
        | inr (aligned, q') ↦ elim (Bool-cases (ltb aligned.matched_tokens min_match)) [
          | inl small ↦ absurd (ground arith)
          | inr big ↦
              let found : ◌≡◌ {A = Option ReuseSpan} (some aligned) (some span) =
                rw (q, long, q', big, aligned_span) at h in
              let same_span : aligned ≡ span = cc in
              (
                raw,
                q,
                q' ∙ found,
                subst (λ a. min_match ≤ a.matched_tokens) same_span (ground arith),
              )
        ]
      ]
    ]
  ]

  aligned_span-IsExact :
      (r : SegmentRecord) (span : ReuseSpan)
      → Memᴰ r records
      → r.model_fingerprint ≡ model
      → length r.tokens < u64_max
      → aligned_span query min_match r ≡ some span
      → IsExact model query min_match records span
  aligned_span-IsExact r span m e short h =
      let (raw, q, q', long) = aligned_span-inversion r span h in
      let (piece, n, in_query, in_source) =
        longest_common_substring-OccursAt query r.tokens raw fits q in
      let query_end = OccursAt-end piece query raw.query_start in_query in
      let source_end = OccursAt-end piece r.tokens raw.source_start in_source in
      let aligned = align_to_blocks-IsAligned r raw (omega arith) (omega arith) span q' in
      let d = span.source_start - raw.source_start in
      let from = aligned.from_start in
      let to = aligned.to_end in
      record {
        segment = r;
        stored = m;
        of_model = e;
        piece = take span.matched_tokens (drop d piece);
        length-piece =
            omega (arith, length-take span.matched_tokens (drop d piece), length-drop d piece);
        in_query =
            subst (λ i. OccursAt (take span.matched_tokens (drop d piece)) i query)
              (sym aligned.same_offset)
              (OccursAt-part piece query raw.query_start d span.matched_tokens in_query
                (omega arith));
        in_segment =
            subst (λ i. OccursAt (take span.matched_tokens (drop d piece)) i r.tokens) (omega arith)
              (OccursAt-part piece r.tokens raw.source_start d span.matched_tokens in_source
                (omega arith));
        tiles = aligned.tiles;
        of_record = aligned.of_record;
        long = long;
      }

  -- What `best` holds is exact.
  ExactIf : Option ReuseSpan → Type 0
  ExactIf none = Unit
  ExactIf (some span) = IsExact model query min_match records span

  replace-ExactIf :
      (best found : Option ReuseSpan) → ExactIf best → ExactIf found → ExactIf (replace best found)
  unfolding replace ExactIf
  replace-ExactIf best none b f = b
  replace-ExactIf none (some aligned) b f = f
  replace-ExactIf (some current) (some aligned) b f =
      elim (Bool-cases (is_better aligned current)) [
        | inl better ↦ rw better f
        | inr worse ↦ rw worse b
      ]

  aligned_span-ExactIf :
      (r : SegmentRecord)
      → Memᴰ r records
      → r.model_fingerprint ≡ model
      → length r.tokens < u64_max
      → ExactIf (aligned_span query min_match r)
  unfolding ExactIf
  aligned_span-ExactIf r m e short = elim (Option-cases (aligned_span query min_match r)) [
    | inl nothing ↦ rw nothing tt
    | inr (span, q) ↦ rw q (aligned_span-IsExact r span m e short q)
  ]

  scan_records-ExactIf :
      (best : Option ReuseSpan) (rs : SegmentIndex)
      → All (λ r. Memᴰ r records × (length r.tokens < u64_max)) rs
      → ExactIf best
      → ExactIf (scan_records model query min_match best rs)
  unfolding scan_records
  scan_records-ExactIf best [] ps b = b
  scan_records-ExactIf best (r ∷ rs) ((m, short), ps) b =
      elim (Bool-cases (same r.model_fingerprint model)) [
        | inl ours ↦
            rw (ours, scan_records)
              (scan_records-ExactIf (replace best (aligned_span query min_match r)) rs ps (
                replace-ExactIf best (aligned_span query min_match r) b
                  (aligned_span-ExactIf r m (same→eq ours) short)))
        | inr other ↦ rw (other, scan_records) (scan_records-ExactIf best rs ps b)
      ]

scanned :
    (model : Bytes) (query : List ℕ) (min_match : ℕ) (records : SegmentIndex)
    (found : Option ReuseSpan)
    → best_segment model query min_match records ≡ ok found
    → (found ≡ none) ⊎ (scan_records model query min_match none records ≡ found)
unfolding best_segment
scanned model query min_match records found h = elim (Bool-cases (min_match == 0)) [
  | inl zero_ ↦ absurd (ground arith)
  | inr pos ↦ elim (Bool-cases (is_empty query)) [
    | inl empty ↦ inl (ok-injective (sym h ∙ rw (pos, empty, best_segment)))
    | inr full ↦ inr (ok-injective (sym (rw (pos, full, best_segment)) ∙ h))
  ]
]

-- A span that `best_segment` returns repeats tokens of a record of the model, block by block, and
-- has the least length or more. The texts fit in the address space.
pub best_segment-IsExact :
    (model : Bytes) (query : List ℕ) (min_match : ℕ) (records : SegmentIndex) (span : ReuseSpan)
    → length query ≤ u64_max
    → All (λ r. length r.tokens < u64_max) records
    → best_segment model query min_match records ≡ ok (some span)
    → IsExact model query min_match records span
unfolding ExactIf
best_segment-IsExact model query min_match records span fits short h =
    elim (scanned model query min_match records (some span) h) [
      | inl nothing ↦ absurd (ground arith)
      | inr found ↦ subst (ExactIf model query min_match records fits) found (
          scan_records-ExactIf model query min_match records fits none records
            (All-and (λ r. Memᴰ r records) (λ r. length r.tokens < u64_max) records
              (All-mem records) short)
            tt)
    ]
