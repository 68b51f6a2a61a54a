-- ===== src/Reuse/Matching.antt =====
-- src/reuse.rs: `longest_common_substring`, row by row. A row is a list that is one longer than the
-- source, and the index into the row above is what is left of it.
pub mod Prefixes
pub mod Rows
pub mod Longest
use rivet_cache.Prelude.{
  ℕ, suc, ◌+◌, ◌-◌, Bool, true, false, List, [], ◌∷◌, Option, none, some, ltb, ◌==◌, if◌then◌else◌,
  length, replicate,
}
use rivet_cache.Prelude.Words.{sat_add}
use rivet_cache.Reuse.{RawMatch}

-- `best` after a run of `len` tokens that ends at both indices.
unfoldable pub improve : ℕ → ℕ → ℕ → RawMatch → RawMatch
improve query_index source_index len best =
    if ltb best.len len
    then record {
      query_start = query_index + 1 - len;
      source_start = source_index + 1 - len;
      len = len;
    }
    else best

-- The length of the run that ends at both tokens, where `d` is that of the run before them.
unfoldable pub run_len : ℕ → ℕ → ℕ → ℕ
run_len query_token source_token d = if query_token == source_token then sat_add d 1 else 0

-- The inner loop from `source_index` on: what it writes behind the first entry of the row, and
-- `best`. Where the tokens differ, the entry is left at 0, and 0 does not improve `best`.
unfoldable pub fill_row : ℕ → ℕ → ℕ → List ℕ → List ℕ → RawMatch → List ℕ × RawMatch
unfolding improve run_len
fill_row query_token query_index source_index previous [] best = ([], best)
fill_row query_token query_index source_index [] (s ∷ source) best = ([], best)
fill_row query_token query_index source_index (d ∷ previous) (s ∷ source) best =
    let len = run_len query_token s d in
    let (row, best') =
      fill_row query_token query_index (suc source_index) previous source
        (improve query_index source_index len best) in
    (len ∷ row, best')

-- The outer loop from `query_index` on.
unfoldable pub fill_rows : List ℕ → ℕ → List ℕ → List ℕ → RawMatch → RawMatch
unfolding fill_row
fill_rows source query_index previous [] best = best
fill_rows source query_index previous (q ∷ query) best =
    let (row, best') = fill_row q query_index 0 previous source best in
    fill_rows source (suc query_index) (0 ∷ row) query best'

abbrev pub no_match : RawMatch
no_match = record { query_start = 0; source_start = 0; len = 0 }

abbrev pub then_some : RawMatch → Option RawMatch
then_some best = if ltb 0 best.len then some best else none

unfoldable pub longest_common_substring : List ℕ → List ℕ → Option RawMatch
unfolding fill_rows
longest_common_substring [] source = none
longest_common_substring (q ∷ query) [] = none
longest_common_substring (q ∷ query) (s ∷ source) =
    then_some
      (fill_rows (s ∷ source) 0 (replicate (length (s ∷ source) + 1) 0) (q ∷ query) no_match)
