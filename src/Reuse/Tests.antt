-- ===== src/Reuse/Tests.antt =====
-- Runs of src/reuse.rs, and its theorems at concrete inputs.
use rivet_cache.Prelude.{ℕ, ◌≤◌, ◌≡◌, refl, List, [], ◌∷◌, some, arith, replicate}
use rivet_cache.Prelude.Lists.{codes, All, Bytes, Bytes-discrete, retain}
use rivet_cache.Prelude.Sorting.{sort_by_key}
use rivet_cache.Prelude.Text.{is_blank}
use rivet_cache.Prelude.{◌*◌}
use rivet_cache.Reuse.Align.{align_to_blocks}
use rivet_cache.Prelude.Words.{sat_add}
use rivet_cache.Prelude.Results.{ok, err, invalid_input}
use rivet_cache.Kv.{KvBlockKey}
use rivet_cache.Reuse.{ReuseSpan, RawMatch, SegmentRecord}
use rivet_cache.Reuse.Matching.{longest_common_substring}
use rivet_cache.Reuse.Matching.Longest.{longest_common_substring-IsLongest}
use rivet_cache.Reuse.Index.{best_segment, register}
use rivet_cache.Reuse.Index.Best.{IsExact, best_segment-IsExact}
use rivet_cache.Reuse.Index.Registered.{IsCut, register-IsCut}

abbrev model : Bytes
model = codes "m"

-- The block of two tokens with the index.
abbrev key : ℕ → KvBlockKey
key index = record {
  model_fingerprint = model;
  sequence_hash = replicate 32 7;
  block_index = index;
  token_start = 2 * index;
  token_count = 2;
  layer_start = 0;
  layer_count = 4;
  layout_version = 1;
}

abbrev segment : SegmentRecord
segment = record {
  model_fingerprint = model;
  tokens = 1 ∷ 2 ∷ 3 ∷ 4 ∷ 5 ∷ 6 ∷ [];
  block_keys = key 0 ∷ key 1 ∷ key 2 ∷ [];
}

abbrev query : List ℕ
query = 9 ∷ 2 ∷ 3 ∷ 4 ∷ 5 ∷ 8 ∷ []

abbrev raw : RawMatch
raw = record { query_start = 1; source_start = 1; len = 4 }

raw_runs : longest_common_substring query segment.tokens ≡ some raw
unfolding longest_common_substring sat_add
raw_runs = refl

longest_common_substring-IsLongest_example :
    (r : RawMatch) × (longest_common_substring (9 ∷ 3 ∷ 4 ∷ 8 ∷ []) (2 ∷ 3 ∷ 4 ∷ 5 ∷ []) ≡ some r)
    × (2 ≤ r.len)
longest_common_substring-IsLongest_example =
    longest_common_substring-IsLongest (3 ∷ 4 ∷ []) (9 ∷ []) (8 ∷ []) (2 ∷ []) (5 ∷ [])
      (omega arith) (omega arith)

-- Only the middle block lies inside the match.
abbrev span : ReuseSpan
span = record { query_start = 2; source_start = 2; matched_tokens = 2; source_keys = key 1 ∷ [] }

span_runs : best_segment model query 2 (segment ∷ []) ≡ ok (some span)
unfolding best_segment Bytes-discrete longest_common_substring sat_add align_to_blocks sort_by_key
    retain
span_runs = refl

best_segment-IsExact_example : IsExact model query 2 (segment ∷ []) span
best_segment-IsExact_example =
    best_segment-IsExact model query 2 (segment ∷ []) span (omega arith) (omega arith, tt) span_runs

register-IsCut_example : All IsCut (register model segment.tokens segment.block_keys []).1
register-IsCut_example = register-IsCut model segment.tokens segment.block_keys [] (omega arith) tt

register_gap : (register model segment.tokens (key 0 ∷ key 2 ∷ []) []).0 ≡ err invalid_input
unfolding register is_blank Bytes-discrete sat_add
register_gap = refl
