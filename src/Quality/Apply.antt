-- ===== src/Quality/Apply.antt =====
-- src/quality.rs: `apply_quality_reuse`. The runtime adapter is a parameter, over a state of its
-- own.
pub mod Miss
use rivet_cache.Prelude.{
  ℕ, ◌+◌, true, false, Bool, ◌||◌, not, List, [], ◌∷◌, Option, none, some, ltb, ◌==◌, if◌then◌else◌,
  length,
}
use rivet_cache.Prelude.Words.{u32_max}
use rivet_cache.Prelude.Results.{Result, ok, err, invalid_input}
use rivet_cache.Prelude.States.{Op}
use rivet_cache.Kv.{KvBlock}
use rivet_cache.Kv.Prefix.{is_empty}
use rivet_cache.Kv.Engine.{KvEngine, KvEngineInner}
use rivet_cache.Reuse.{ReuseSpan}
use rivet_cache.Kv.Engine.Runtime.{load_blocks}
use rivet_cache.Reuse.Restore.{Relocate}
use rivet_cache.Quality.{TokenRange, QualityReusePlan}

-- `QualityAwareRuntimeKvAdapter::recompute_ranges`.
abbrev pub Recompute : Type 0 → Type 0
Recompute R = List ℕ → List TokenRange → Op R (Unit {0})

module _ {T : Type 0} (e : KvEngine T) where
  -- `i` is the number of blocks that were read before. The blocks of every span with the span's place in the query, or nothing at the first miss.
  unfoldable pub load_spans :
      (ℕ → ℕ) → ℕ → List ReuseSpan → Op (KvEngineInner T) (Option (List (ℕ × List KvBlock)))
  load_spans clock i [] inner = (ok (some []), inner)
  load_spans clock i (span ∷ spans) inner =
      let (r, inner') = load_blocks e clock i span.source_keys inner in
      elim r [
        | err x ↦ (err x, inner')
        | ok none ↦ (ok none, inner')
        | ok (some blocks) ↦
            let (r', later) = load_spans clock (i + length span.source_keys) spans inner' in
            elim r' [
              | err x ↦ (err x, later)
              | ok none ↦ (ok none, later)
              | ok (some loaded) ↦ (ok (some ((span.query_start, blocks) ∷ loaded)), later)
            ]
      ]

-- The loop over what was loaded.
unfoldable pub restore_spans : {R : Type 0} → Relocate R → List (ℕ × List KvBlock) → Op R (Unit {0})
restore_spans restore [] runtime = (ok tt, runtime)
restore_spans restore ((target, blocks) ∷ loaded) runtime =
    if ltb u32_max target
    then (err invalid_input, runtime)
    else (let (r, runtime') = restore blocks target runtime in
        elim r [ err x ↦ (err x, runtime') | ok _ ↦ restore_spans restore loaded runtime' ])

-- What follows the loads.
unfoldable pub restore_loaded :
    {R : Type 0}
    → Relocate R
    → Recompute R
    → List ℕ
    → QualityReusePlan
    → List (ℕ × List KvBlock)
    → Op R Bool
unfolding restore_spans
restore_loaded restore recompute query plan loaded runtime =
    let (r, runtime') = restore_spans restore loaded runtime in
    elim r [
      | err x ↦ (err x, runtime')
      | ok _ ↦
          if is_empty plan.recompute_ranges
          then (ok true, runtime')
          else (let (r', runtime'') = recompute query plan.recompute_ranges runtime' in
              elim r' [ err x ↦ (err x, runtime'') | ok _ ↦ (ok true, runtime'') ])
    ]

unfoldable pub apply_quality_reuse :
    {T R : Type 0}
    → KvEngine T
    → Relocate R
    → Recompute R
    → (ℕ → ℕ)
    → List ℕ
    → QualityReusePlan
    → Op (KvEngineInner T × R) Bool
unfolding load_spans restore_loaded
apply_quality_reuse e restore recompute clock query plan (inner, runtime) =
    if not (length query == plan.query_tokens) || is_empty plan.spans
    then (err invalid_input, (inner, runtime))
    else (let (r, inner') = load_spans e clock 0 plan.spans inner in
        elim r [
          | err x ↦ (err x, (inner', runtime))
          | ok none ↦ (ok false, (inner', runtime))
          | ok (some loaded) ↦
              let (r', runtime') = restore_loaded restore recompute query plan loaded runtime in
              (r', (inner', runtime'))
        ])
