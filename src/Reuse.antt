-- ===== src/Reuse.antt =====
-- src/reuse.rs: the records of the segment index. A `usize` has 64 bits.
pub mod Matching
pub mod Align
pub mod Index
pub mod Restore
mod Tests
use rivet_cache.Prelude.{ℕ, List}
use rivet_cache.Prelude.Lists.{Bytes}
use rivet_cache.Kv.{KvBlockKey}

pub record ReuseSpan : Type 0 where
  pub query_start : ℕ
  pub source_start : ℕ
  pub matched_tokens : ℕ
  pub source_keys : List KvBlockKey

pub record SegmentRecord : Type 0 where
  pub model_fingerprint : Bytes
  pub tokens : List ℕ
  pub block_keys : List KvBlockKey

abbrev pub SegmentIndex : Type 0
SegmentIndex = List SegmentRecord

pub record RawMatch : Type 0 where
  pub query_start : ℕ
  pub source_start : ℕ
  pub len : ℕ
