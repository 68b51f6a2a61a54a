-- ===== src/Reuse/Restore.antt =====
-- src/reuse.rs: `restore_reuse`. The runtime adapter is a parameter, over a state `R` of its own.
use rivet_cache.Prelude.{ℕ, true, false, Bool, ◌||◌, List, none, some, ltb, ◌==◌, if◌then◌else◌}
use rivet_cache.Prelude.Words.{u32_max}
use rivet_cache.Prelude.Results.{ok, err, invalid_input}
use rivet_cache.Prelude.States.{Op}
use rivet_cache.Kv.{KvBlock}
use rivet_cache.Kv.Prefix.{is_empty}
use rivet_cache.Kv.Engine.{KvEngine, KvEngineInner}
use rivet_cache.Kv.Engine.Runtime.{load_blocks}
use rivet_cache.Reuse.{ReuseSpan}

-- `RelocatableRuntimeKvAdapter::restore_relocated`, with the target as an index.
abbrev pub Relocate : Type 0 → Type 0
Relocate R = List KvBlock → ℕ → Op R (Unit {0})

module _ {T : Type 0} (e : KvEngine T) where
  unfoldable pub restore_reuse :
      {R : Type 0} → Relocate R → (ℕ → ℕ) → ReuseSpan → Op (KvEngineInner T × R) Bool
  restore_reuse restore clock span (inner, runtime) =
      if is_empty span.source_keys || span.matched_tokens == 0
      then (err invalid_input, (inner, runtime))
      else if ltb u32_max span.query_start
      then (err invalid_input, (inner, runtime))
      else (let (r, inner') = load_blocks e clock 0 span.source_keys inner in
          elim r [
            | err x ↦ (err x, (inner', runtime))
            | ok none ↦ (ok false, (inner', runtime))
            | ok (some blocks) ↦
                let (r', runtime') = restore blocks span.query_start runtime in
                elim r' [
                  | err x ↦ (err x, (inner', runtime'))
                  | ok _ ↦ (ok true, (inner', runtime'))
                ]
          ])
