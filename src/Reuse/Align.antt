-- ===== src/Reuse/Align.antt =====
-- src/reuse.rs: `align_to_blocks`, the whole blocks inside a match.
pub mod Exact
use rivet_cache.Prelude.{
  ℕ, ◌+◌, ◌-◌, Bool, ◌&&◌, List, [], ◌∷◌, Option, none, some, leb, ltb, ◌==◌, if◌then◌else◌,
}
use rivet_cache.Prelude.Lists.{retain}
use rivet_cache.Prelude.Sorting.{sort_by_key}
use rivet_cache.Prelude.Words.{sat_add, u64_max}
use rivet_cache.Kv.{KvBlockKey}
use rivet_cache.Reuse.{RawMatch, ReuseSpan, SegmentRecord}

abbrev pub start_of : KvBlockKey → ℕ
start_of key = key.token_start

unfoldable pub is_within : RawMatch → KvBlockKey → Bool
is_within raw key =
    leb raw.source_start key.token_start
    && leb (sat_add key.token_start key.token_count) (raw.source_start + raw.len)

-- The keys up to the first gap.
unfoldable pub contiguous : ℕ → List KvBlockKey → List KvBlockKey
contiguous expected [] = []
contiguous expected (key ∷ keys) =
    let rest = contiguous (sat_add expected key.token_count) keys in
    if key.token_start == expected then key ∷ rest else []

-- The end of the last key.
unfoldable pub last_end : KvBlockKey → List KvBlockKey → ℕ
last_end key [] = key.token_start + key.token_count
last_end key (next ∷ keys) = last_end next keys

unfoldable pub span_of : RawMatch → List KvBlockKey → Option ReuseSpan
unfolding last_end
span_of raw [] = none
span_of raw (first ∷ keys) = some (record {
  query_start = sat_add raw.query_start (first.token_start - raw.source_start);
  source_start = first.token_start;
  matched_tokens = last_end first keys - first.token_start;
  source_keys = first ∷ keys;
})

unfoldable pub from_first : RawMatch → List KvBlockKey → Option ReuseSpan
unfolding contiguous span_of
from_first raw [] = none
from_first raw (first ∷ keys) = span_of raw (contiguous first.token_start (first ∷ keys))

-- An end that does not fit in a word gives no span.
unfoldable pub align_to_blocks : SegmentRecord → RawMatch → Option ReuseSpan
unfolding from_first is_within
align_to_blocks segment raw =
    if ltb u64_max (raw.source_start + raw.len)
    then none
    else from_first raw (sort_by_key start_of (retain (is_within raw) segment.block_keys))
