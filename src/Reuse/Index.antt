-- ===== src/Reuse/Index.antt =====
-- src/reuse.rs: `SegmentIndex` and `validate_record`. The mutex is not modelled: nothing panics while
-- it is held.
pub mod Best
pub mod Registered
use rivet_cache.Prelude.{
  ◌+◌, min, ℕ, ◌-◌, Bool, true, false, not, ◌&&◌, ◌||◌, List, [], ◌∷◌, ◌++◌, Option, none, some,
  ltb, ◌==◌, if◌then◌else◌, length,
}
use rivet_cache.Prelude.Lists.{Bytes, retain}
use rivet_cache.Prelude.Text.{is_blank}
use rivet_cache.Prelude.Words.{sat_add, u32_max}
use rivet_cache.Prelude.Results.{Result, ok, err, invalid_input}
use rivet_cache.Prelude.States.{Op}
use rivet_cache.Kv.{KvBlockKey}
use rivet_cache.Kv.Prefix.{same, is_empty}
use rivet_cache.Reuse.{RawMatch, ReuseSpan, SegmentRecord, SegmentIndex}
use rivet_cache.Reuse.Matching.{longest_common_substring}
use rivet_cache.Reuse.Align.{align_to_blocks}

-- `u32::saturating_add`.
abbrev pub sat_add_u32 : ℕ → ℕ → ℕ
sat_add_u32 a b = min (a + b) u32_max

-- The test of one key against the first one and the end of the key before it.
unfoldable pub is_misfit : Bytes → KvBlockKey → ℕ → KvBlockKey → Bool
is_misfit model first expected_start key =
    not (same key.model_fingerprint model)
    || key.token_count == 0
    || key.layer_count == 0
    || not (key.layer_start == first.layer_start)
    || not (key.layer_count == first.layer_count)
    || not (key.layout_version == first.layout_version)
    || not (key.token_start == expected_start)

unfoldable pub validate_keys : Bytes → List ℕ → KvBlockKey → ℕ → List KvBlockKey → Result (Unit {0})
unfolding is_misfit
validate_keys model tokens first expected_start [] = ok tt
validate_keys model tokens first expected_start (key ∷ keys) =
    let rest =
      validate_keys model tokens first (sat_add_u32 key.token_start key.token_count) keys in
    if is_misfit model first expected_start key
    then err invalid_input
    else if ltb (length tokens) (sat_add key.token_start key.token_count)
    then err invalid_input
    else rest

unfoldable pub validate_record : Bytes → List ℕ → List KvBlockKey → Result (Unit {0})
unfolding validate_keys
validate_record model tokens [] = err invalid_input
validate_record model tokens (first ∷ keys) =
    if is_blank model || is_empty tokens
    then err invalid_input
    else validate_keys model tokens first first.token_start (first ∷ keys)

unfoldable pub other_segment : Bytes → List ℕ → SegmentRecord → Bool
other_segment model tokens r = not (same r.model_fingerprint model) || not (same r.tokens tokens)

unfoldable pub register : Bytes → List ℕ → List KvBlockKey → Op SegmentIndex (Unit {0})
unfolding validate_record
register model tokens block_keys records = elim (validate_record model tokens block_keys) [
  | err x ↦ (err x, records)
  | ok _ ↦ (
    ok tt,
    retain (other_segment model tokens) records
        ++ record { model_fingerprint = model; tokens = tokens; block_keys = block_keys } ∷ [],
  )
]

-- The span that a record offers, if it is long enough before and behind the alignment.
unfoldable pub aligned_span : List ℕ → ℕ → SegmentRecord → Option ReuseSpan
aligned_span query_tokens min_match_tokens r =
    elim (longest_common_substring query_tokens r.tokens) [
      | none ↦ none
      | some raw ↦ if ltb raw.len min_match_tokens then none else elim (align_to_blocks r raw) [
        | none ↦ none
        | some aligned ↦ if ltb aligned.matched_tokens min_match_tokens then none else some aligned
      ]
    ]

-- A longer span is better, and of equally long ones the one that begins first.
unfoldable pub is_better : ReuseSpan → ReuseSpan → Bool
is_better aligned current =
    ltb current.matched_tokens aligned.matched_tokens
    || (aligned.matched_tokens == current.matched_tokens
        && ltb aligned.query_start current.query_start)

unfoldable pub replace : Option ReuseSpan → Option ReuseSpan → Option ReuseSpan
replace best none = best
replace none (some aligned) = some aligned
replace (some current) (some aligned) =
    if is_better aligned current then some aligned else some current

unfoldable pub scan_records :
    Bytes → List ℕ → ℕ → Option ReuseSpan → SegmentIndex → Option ReuseSpan
unfolding aligned_span replace
scan_records model query_tokens min_match_tokens best [] = best
scan_records model query_tokens min_match_tokens best (r ∷ records) =
    scan_records model query_tokens min_match_tokens
      (if same r.model_fingerprint model
        then replace best (aligned_span query_tokens min_match_tokens r)
        else best)
      records

unfoldable pub best_segment : Bytes → List ℕ → ℕ → SegmentIndex → Result (Option ReuseSpan)
unfolding scan_records
best_segment model query_tokens min_match_tokens records =
    if min_match_tokens == 0
    then err invalid_input
    else if is_empty query_tokens
    then ok none
    else ok (scan_records model query_tokens min_match_tokens none records)

unfoldable pub other_model : Bytes → SegmentRecord → Bool
other_model model r = not (same r.model_fingerprint model)

unfoldable pub remove_model : Bytes → Op SegmentIndex ℕ
unfolding other_model
remove_model model records =
    let kept = retain (other_model model) records in (ok (length records - length kept), kept)
