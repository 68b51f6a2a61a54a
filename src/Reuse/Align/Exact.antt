-- ===== src/Reuse/Align/Exact.antt =====
-- The span of `align_to_blocks` lies inside the match, and its blocks tile it.
use mathlib.Core.Path.{subst}
use mathlib.Core.List.{Memᴰ}
use rivet_cache.Prelude.{
  ℕ, ◌+◌, ◌-◌, ◌≤◌, ◌<◌, ◌≡◌, sym, ◌∙◌, true, false, List, [], ◌∷◌, some, ltb, ◌==◌, arith,
  Bool-cases, inl, inr,
}
use rivet_cache.Prelude.Lists.{retain, All}
use rivet_cache.Prelude.Retain.{All-map, retain-All, All-mem}
use rivet_cache.Prelude.Sorting.{sort_by_key, sort_by_key-All}
use rivet_cache.Prelude.Words.{sat_add, u64_max, sat_add-le}
use rivet_cache.Kv.{KvBlockKey}
use rivet_cache.Reuse.{RawMatch, ReuseSpan, SegmentRecord}
use rivet_cache.Reuse.Align.{
  start_of, is_within, contiguous, last_end, span_of, from_first, align_to_blocks,
}

-- The blocks stand one behind the other from `start` to `end`.
unfoldable pub Tiles : ℕ → List KvBlockKey → ℕ → Type 0
Tiles start [] end_ = start ≡ end_
Tiles start (key ∷ keys) end_ =
    (key.token_start ≡ start) × Tiles (start + key.token_count) keys end_

-- The span lies inside the match, at the same offset in both texts, and is tiled by blocks of the
-- record.
pub record IsAligned (segment : SegmentRecord) (raw : RawMatch) (span : ReuseSpan) : Type 0 where
  pub from_start : raw.source_start ≤ span.source_start
  pub to_end : span.source_start + span.matched_tokens ≤ raw.source_start + raw.len
  pub same_offset : span.query_start ≡ raw.query_start + (span.source_start - raw.source_start)
  pub tiles : Tiles span.source_start span.source_keys (span.source_start + span.matched_tokens)
  pub of_record : All (λ key. Memᴰ key segment.block_keys) span.source_keys

module _ (segment : SegmentRecord) (raw : RawMatch) (ends : raw.source_start + raw.len < u64_max)
    (fits : raw.query_start + raw.len ≤ u64_max) where
  Within : KvBlockKey → Type 0
  Within key =
      Memᴰ key segment.block_keys
      × (raw.source_start ≤ key.token_start)
      × (key.token_start + key.token_count ≤ raw.source_start + raw.len)

  is_within-Within :
      (key : KvBlockKey) → Memᴰ key segment.block_keys × (is_within raw key ≡ true) → Within key
  unfolding is_within Within sat_add
  is_within-Within key (m, h) = (m, ground arith, ground arith)

  -- Blocks inside the match, one behind the other from `start`.
  Chain : ℕ → List KvBlockKey → Type 0
  Chain start [] = Unit
  Chain start (key ∷ keys) =
      Within key × (key.token_start ≡ start) × Chain (start + key.token_count) keys

  contiguous-Chain :
      (start : ℕ) (keys : List KvBlockKey) → All Within keys → Chain start (contiguous start keys)
  unfolding contiguous Chain Within
  contiguous-Chain start [] ps = tt
  contiguous-Chain start (key ∷ keys) ((m, from, to), ps) =
      elim (Bool-cases (key.token_start == start)) [
        | inr gap ↦ rw (gap, contiguous) tt
        | inl next ↦
            rw (next, contiguous)
              (
                (m, from, to),
                ground arith,
                rw (sat_add-le start key.token_count (ground arith))
                    (contiguous-Chain (start + key.token_count) keys ps),
              )
      ]

  Chain-Tiles :
      (start : ℕ) (key : KvBlockKey) (keys : List KvBlockKey)
      → Chain start (key ∷ keys)
      → Tiles start (key ∷ keys) (last_end key keys)
        × (start ≤ last_end key keys)
        × (last_end key keys ≤ raw.source_start + raw.len)
        × All (λ k. Memᴰ k segment.block_keys) (key ∷ keys)
  unfolding Chain Tiles Within last_end
  Chain-Tiles start key [] ((m, from, to), e, _) = ((e, omega arith), omega arith, to, (m, tt))
  Chain-Tiles start key (next ∷ keys) ((m, from, to), e, c) =
      let (tiles, above, below, all) = Chain-Tiles (start + key.token_count) next keys c in
      ((e, tiles), omega arith, below, (m, all))

  -- The span that `span_of` builds.
  span_at : KvBlockKey → List KvBlockKey → ReuseSpan
  span_at first keys = record {
    query_start = sat_add raw.query_start (first.token_start - raw.source_start);
    source_start = first.token_start;
    matched_tokens = last_end first keys - first.token_start;
    source_keys = first ∷ keys;
  }

  span_of-IsAligned :
      (start : ℕ) (keys : List KvBlockKey) (span : ReuseSpan)
      → Chain start keys
      → span_of raw keys ≡ some span
      → IsAligned segment raw span
  unfolding span_of span_at Chain Within
  span_of-IsAligned start [] span c h = absurd (ground arith)
  span_of-IsAligned start (key ∷ keys) span (w, e, c) h =
      let (tiles, above, below, all) = Chain-Tiles start key keys (w, e, c) in
      let (m, from, to) = w in
      let same : span_at key keys ≡ span = cc in
      let reached : last_end key keys ≡ key.token_start + (last_end key keys - key.token_start) =
        omega arith in
      subst (IsAligned segment raw) same (record {
        from_start = from;
        to_end = omega arith;
        same_offset = sat_add-le raw.query_start (key.token_start - raw.source_start) (omega arith);
        tiles =
            subst (Tiles key.token_start (key ∷ keys)) reached
              (subst (λ a. Tiles a (key ∷ keys) (last_end key keys)) (sym e) tiles);
        of_record = all;
      })

  from_first-IsAligned :
      (keys : List KvBlockKey) (span : ReuseSpan)
      → All Within keys
      → from_first raw keys ≡ some span
      → IsAligned segment raw span
  unfolding from_first
  from_first-IsAligned [] span ps h = absurd (ground arith)
  from_first-IsAligned (first ∷ keys) span ps h =
      span_of-IsAligned first.token_start (contiguous first.token_start (first ∷ keys)) span
        (contiguous-Chain first.token_start (first ∷ keys) ps) h

  no_overflow : ltb u64_max (raw.source_start + raw.len) ≡ false
  no_overflow = ground arith

  pub align_to_blocks-IsAligned :
      (span : ReuseSpan) → align_to_blocks segment raw ≡ some span → IsAligned segment raw span
  unfolding align_to_blocks
  align_to_blocks-IsAligned span h =
      let within = All-map (retain (is_within raw) segment.block_keys) is_within-Within (
        retain-All (is_within raw) (λ k. Memᴰ k segment.block_keys) segment.block_keys
          (All-mem segment.block_keys)) in
      from_first-IsAligned (sort_by_key start_of (retain (is_within raw) segment.block_keys)) span
        (sort_by_key-All start_of Within (retain (is_within raw) segment.block_keys) within)
        (sym (rw (no_overflow, align_to_blocks)) ∙ h)
