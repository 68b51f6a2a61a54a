-- ===== src/Quality/Tests.antt =====
-- Runs of src/quality.rs, and its theorems at concrete inputs.
use rivet_cache.Prelude.{
  ℕ, ◌≤◌, ◌≡◌, refl, true, false, List, [], ◌∷◌, none, some, arith, length, replicate,
}
use rivet_cache.Prelude.Lists.{codes, All, Bytes, Bytes-discrete, retain}
use rivet_cache.Prelude.Sorting.{sort_by_key}
use rivet_cache.Prelude.{◌*◌}
use rivet_cache.Reuse.Align.{align_to_blocks}
use rivet_cache.Quality.{validate_policy, range_end}
use rivet_cache.Quality.Ranges.{boundary_ranges}
use rivet_cache.Prelude.Words.{sat_add, sat_mul}
use rivet_cache.Reuse.Matching.{longest_common_substring}
use rivet_cache.Reuse.Index.{best_segment}
use rivet_cache.Prelude.Results.{ok}
use rivet_cache.Kv.{KvBlockKey}
use rivet_cache.Kv.Engine.{KvTier, KvEngine, KvEngineInner, KvEngineStats, primary}
use rivet_cache.Reuse.{SegmentIndex}
use rivet_cache.Kv.Engine.Get.{get}
use rivet_cache.Kv.Engine.Runtime.{load_blocks}
use rivet_cache.Reuse.Restore.{Relocate}
use rivet_cache.Reuse.Index.Best.{IsExact}
use rivet_cache.Quality.{TokenRange, QualityReusePolicy, QualityReusePlan}
use rivet_cache.Quality.Ranges.{merge_ranges}
use rivet_cache.Quality.Ranges.Merged.{is_covered, IsSeparate, merge_ranges-IsSeparate}
use rivet_cache.Quality.Planning.{plan_quality_reuse}
use rivet_cache.Quality.Planning.Plan.{IsLaidOut, total_matched, plan_quality_reuse-IsSound}
use rivet_cache.Quality.Apply.{Recompute, apply_quality_reuse}
use rivet_cache.Quality.Apply.Miss.{apply_quality_reuse-miss}

abbrev model : Bytes
model = codes "m"

-- The block of two tokens with the index.
abbrev key : ℕ → KvBlockKey
key index = record {
  model_fingerprint = model;
  sequence_hash = replicate 32 7;
  block_index = index;
  token_start = 2 * index;
  token_count = 2;
  layer_start = 0;
  layer_count = 4;
  layout_version = 1;
}

abbrev records : SegmentIndex
records =
    record {
      model_fingerprint = model;
      tokens = 1 ∷ 2 ∷ 3 ∷ 4 ∷ [];
      block_keys = key 0 ∷ key 1 ∷ [];
    }
    ∷ []

-- Both blocks occur, the second before the first.
abbrev query : List ℕ
query = 3 ∷ 4 ∷ 9 ∷ 1 ∷ 2 ∷ []

abbrev policy : QualityReusePolicy
policy = record {
  min_match_tokens = 2;
  boundary_recompute_tokens = 1;
  max_segments = 2;
  min_coverage_per_mille = 500;
}

abbrev plan : QualityReusePlan
plan = record {
  spans =
      record { query_start = 0; source_start = 2; matched_tokens = 2; source_keys = key 1 ∷ [] }
      ∷ record { query_start = 3; source_start = 0; matched_tokens = 2; source_keys = key 0 ∷ [] }
      ∷ [];
  recompute_ranges = record { start = 0; len = 2 } ∷ record { start = 3; len = 2 } ∷ [];
  query_tokens = 5;
  reused_tokens = 4;
  coverage_per_mille = 800;
}

plan_runs : plan_quality_reuse records model query policy ≡ ok (some plan)
unfolding plan_quality_reuse validate_policy best_segment Bytes-discrete longest_common_substring
    sat_add sat_mul align_to_blocks sort_by_key retain boundary_ranges range_end
plan_runs = refl

plan_quality_reuse-IsSound_example :
    All (IsExact model query 2 records) plan.spans
    × IsLaidOut 0 plan.spans (length query)
    × (plan.reused_tokens ≡ total_matched plan.spans)
    × (total_matched plan.spans ≤ length query)
    × (500 ≤ plan.coverage_per_mille)
    × (plan.coverage_per_mille * length query ≤ 1000 * total_matched plan.spans)
plan_quality_reuse-IsSound_example =
    plan_quality_reuse-IsSound records model query policy plan (omega arith) (omega arith, tt)
      plan_runs

abbrev ranges : List TokenRange
ranges =
    record { start = 5; len = 2 }
    ∷ record { start = 0; len = 3 }
    ∷ record { start = 2; len = 3 }
    ∷ []

-- They touch one another.
merge_runs : merge_ranges ranges ≡ record { start = 0; len = 7 } ∷ []
unfolding merge_ranges sort_by_key retain range_end sat_add
merge_runs = refl

merge_ranges-IsSeparate_example :
    IsSeparate (merge_ranges ranges)
    × ((t : ℕ) → is_covered (merge_ranges ranges) t ≡ is_covered ranges t)
merge_ranges-IsSeparate_example =
    merge_ranges-IsSeparate ranges (omega arith, (omega arith, (omega arith, tt)))

-- A tier that holds no block.
abbrev empty_tier : KvTier (Unit {0})
empty_tier = record {
  name = λ s. codes "empty";
  get = λ k s. (ok none, s);
  put = λ entry s. (ok tt, s);
  remove = λ k s. (ok tt, s);
  clear = λ s. (ok tt, s);
}

abbrev engine : KvEngine (Unit {0})
engine = record {
  tier = empty_tier;
  transport = λ k bytes source destination. ok bytes;
  allocator = ok;
  promote_on_read = true;
  write_policy = primary;
}

abbrev restore : Relocate (List ℕ)
restore blocks target log = (ok tt, target ∷ log)

abbrev recompute : Recompute (List ℕ)
recompute tokens these log = (ok tt, log)

abbrev zero_stats : KvEngineStats
zero_stats = record {
  hits = 0;
  misses = 0;
  writes = 0;
  promotions = 0;
  transfers = 0;
  bytes_transferred = 0;
  invalidations = 0;
  expirations = 0;
  prefetches = 0;
}

abbrev inner : KvEngineInner (Unit {0})
inner = record { tiers = tt ∷ []; stats = zero_stats }

missing_runs :
    (apply_quality_reuse engine restore recompute (λ i. 100) query plan (inner, [])).0 ≡ ok false
unfolding apply_quality_reuse load_blocks get
missing_runs = refl

apply_quality_reuse-miss_example :
    (apply_quality_reuse engine restore recompute (λ i. 100) query plan (inner, [])).1.1 ≡ []
apply_quality_reuse-miss_example =
    apply_quality_reuse-miss engine restore recompute (λ i. 100) query plan inner [] missing_runs
