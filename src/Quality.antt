-- ===== src/Quality.antt =====
-- src/quality.rs: token ranges and the policy of a reuse plan.
pub mod Ranges
pub mod Planning
pub mod Apply
mod Tests
use rivet_cache.Prelude.{
  ℕ, ◌+◌, ◌-◌, Bool, true, false, ◌||◌, List, [], ◌∷◌, ◌++◌, ltb, leb, ◌==◌, if◌then◌else◌, min,
  max,
}
use rivet_cache.Prelude.Words.{sat_add}
use rivet_cache.Prelude.Results.{Result, ok, err, invalid_input}
use rivet_cache.Reuse.{ReuseSpan}

pub record TokenRange : Type 0 where
  pub start : ℕ
  pub len : ℕ

-- `TokenRange::end`.
unfoldable pub range_end : TokenRange → ℕ
range_end range = sat_add range.start range.len

pub record QualityReusePolicy : Type 0 where
  pub min_match_tokens : ℕ
  pub boundary_recompute_tokens : ℕ
  pub max_segments : ℕ
  pub min_coverage_per_mille : ℕ

unfoldable pub validate_policy : QualityReusePolicy → Result QualityReusePolicy
validate_policy policy =
    if policy.min_match_tokens == 0
      || policy.max_segments == 0
      || ltb 1024 policy.max_segments
      || ltb 1000 policy.min_coverage_per_mille
    then err invalid_input
    else ok policy

pub record QualityReusePlan : Type 0 where
  pub spans : List ReuseSpan
  pub recompute_ranges : List TokenRange
  pub query_tokens : ℕ
  pub reused_tokens : ℕ
  pub coverage_per_mille : ℕ
