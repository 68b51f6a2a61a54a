-- ===== src/Quality/Apply/Miss.antt =====
-- What a miss of `apply_quality_reuse` leaves of the runtime.
use rivet_cache.Prelude.{
  arith, ℕ, ◌≡◌, ◌≢◌, false, not, ◌||◌, List, Option-cases, Bool-cases, inl, inr, length, ◌==◌,
}
use rivet_cache.Prelude.Results.{ok, Result-cases, err≢ok}
use rivet_cache.Kv.{KvBlock}
use rivet_cache.Kv.Prefix.{is_empty}
use rivet_cache.Kv.Engine.{KvEngine, KvEngineInner}
use rivet_cache.Reuse.Restore.{Relocate}
use rivet_cache.Quality.{QualityReusePlan}
use rivet_cache.Quality.Apply.{
  Recompute, load_spans, restore_spans, restore_loaded, apply_quality_reuse,
}

-- What was loaded is restored, or the restore fails.
restore_loaded-hits :
    {R : Type 0} (restore : Relocate R) (recompute : Recompute R) (query : List ℕ)
    (plan : QualityReusePlan) (loaded : List (ℕ × List KvBlock)) (runtime : R)
    → (restore_loaded restore recompute query plan loaded runtime).0 ≢ ok false
unfolding restore_loaded
restore_loaded-hits restore recompute query plan loaded runtime h =
    let restored = restore_spans restore loaded runtime in
    elim (Result-cases restored.0) [
      | inr (x, q) ↦ err≢ok (rw (q, restore_loaded) at h)
      | inl (_, q) ↦ elim (Bool-cases (is_empty plan.recompute_ranges)) [
        | inl none_left ↦ absurd (ground arith)
        | inr some_left ↦ elim (Result-cases (recompute query plan.recompute_ranges restored.1).0) [
          | inr (x, q') ↦ err≢ok (rw (q, some_left, q', restore_loaded) at h)
          | inl (_, q') ↦ absurd (ground arith)
        ]
      ]
    ]

-- A plan that cannot be applied because a block is missing leaves the runtime untouched.
pub apply_quality_reuse-miss :
    {T R : Type 0} (e : KvEngine T) (restore : Relocate R) (recompute : Recompute R) (clock : ℕ → ℕ)
    (query : List ℕ) (plan : QualityReusePlan) (inner : KvEngineInner T) (runtime : R)
    → (apply_quality_reuse e restore recompute clock query plan (inner, runtime)).0 ≡ ok false
    → (apply_quality_reuse e restore recompute clock query plan (inner, runtime)).1.1 ≡ runtime
unfolding apply_quality_reuse
apply_quality_reuse-miss e restore recompute clock query plan inner runtime h =
    elim (Bool-cases (not (length query == plan.query_tokens) || is_empty plan.spans)) [
      | inl bad ↦ absurd (err≢ok (rw (bad, apply_quality_reuse) at h))
      | inr fits ↦
          let loads = load_spans e clock 0 plan.spans inner in
          elim (Result-cases loads.0) [
            | inr (x, q) ↦ absurd (err≢ok (rw (fits, q, apply_quality_reuse) at h))
            | inl (o, q) ↦ elim (Option-cases o) [
              | inl nothing ↦ rw (fits, q, nothing, apply_quality_reuse)
              | inr (loaded, some_) ↦ absurd (
                  restore_loaded-hits restore recompute query plan loaded runtime
                    (rw (fits, q, some_, apply_quality_reuse) at h))
            ]
          ]
    ]
