-- ===== src/Reuse/Matching/Longest.antt =====
-- `longest_common_substring` returns a common run of tokens, and no common run is longer.
use mathlib.Core.Path.{subst}
use mathlib.Core.List.{reverse_aux, append_assoc}
use rivet_cache.Prelude.{
  lt→ltb, ℕ, suc, ◌+◌, ◌-◌, ◌≤◌, ◌<◌, ◌≡◌, refl, sym, ap, ◌∙◌, List, [], ◌∷◌, ◌++◌, ltb, length,
  arith, Bool-cases, inl, inr, Option, some, replicate, take,
}
use rivet_cache.Prelude.Lists.{All, length-append, length-take}
use rivet_cache.Prelude.Words.{u64_max}
use rivet_cache.Reuse.{RawMatch}
use rivet_cache.Reuse.Matching.{fill_row, fill_rows, no_match, then_some, longest_common_substring}
use rivet_cache.Reuse.Matching.Prefixes.{
  common_prefix, common_prefix-le, common_prefix-le_right, common_prefix-take,
  common_prefix-reversed, OccursAt, occurs_reversed, length-reverse_aux,
}
use rivet_cache.Reuse.Matching.Rows.{
  All-le, ends, IsRun, fill_row-ends, fill_row-longest, fill_row-IsRun,
}

-- The runs of all rows are at most `n` long.
RowsBelow : ℕ → List ℕ → List ℕ → List ℕ → Type 0
RowsBelow n source rq [] = Unit
RowsBelow n source rq (q ∷ query) =
    All (λ x. x ≤ n) (ends (q ∷ rq) [] source) × RowsBelow n source (q ∷ rq) query

RowsBelow-le :
    {m n : ℕ} (source rq query : List ℕ)
    → m ≤ n
    → RowsBelow m source rq query
    → RowsBelow n source rq query
unfolding RowsBelow
RowsBelow-le source rq [] h b = tt
RowsBelow-le source rq (q ∷ query) h (row, rows) =
    (All-le _ h row, RowsBelow-le source (q ∷ rq) query h rows)

module _ (source : List ℕ) where
  -- `best` behind the row of the token `q`.
  row_best : ℕ → List ℕ → ℕ → RawMatch → RawMatch
  row_best qi rq q best = (fill_row q qi 0 (common_prefix rq [] ∷ ends rq [] source) source best).1

  fill_rows-row :
      (qi : ℕ) (rq query : List ℕ) (q : ℕ) (best : RawMatch)
      → length rq < u64_max
      → fill_rows source qi (common_prefix rq [] ∷ ends rq [] source) (q ∷ query) best
        ≡ fill_rows source
            (suc qi)
            (common_prefix (q ∷ rq) [] ∷ ends (q ∷ rq) [] source)
            query
            (row_best qi rq q best)
  unfolding fill_rows common_prefix row_best
  fill_rows-row qi rq query q best fits =
      ap (λ row. fill_rows source (suc qi) (0 ∷ row) query (row_best qi rq q best))
        (fill_row-ends q rq fits qi 0 [] source best)

  fill_rows-longest :
      (qi : ℕ) (rq query : List ℕ) (best : RawMatch)
      → length rq + length query ≤ u64_max
      → let after = fill_rows source qi (common_prefix rq [] ∷ ends rq [] source) query best in
        (best.len ≤ after.len) × RowsBelow after.len source rq query
  unfolding fill_rows RowsBelow row_best
  fill_rows-longest qi rq [] best fits = (omega arith, tt)
  fill_rows-longest qi rq (q ∷ query) best fits =
      let (grows, below) =
        fill_rows-longest (suc qi) (q ∷ rq) query (row_best qi rq q best) (omega arith) in
      let (first, row) = fill_row-longest q rq (omega arith) qi 0 [] source best in
      subst (λ after. (best.len ≤ after.len) × RowsBelow after.len source rq (q ∷ query))
        (sym (fill_rows-row qi rq query q best (omega arith)))
        (omega arith, (All-le (ends (q ∷ rq) [] source) grows row, below))

  fill_rows-IsRun :
      (whole : List ℕ) (qi : ℕ) (rq query : List ℕ) (best : RawMatch)
      → length rq + length query ≤ u64_max
      → qi ≡ length rq
      → whole ≡ reverse_aux rq query
      → IsRun whole source best
      → IsRun whole source
          (fill_rows source qi (common_prefix rq [] ∷ ends rq [] source) query best)
  unfolding fill_rows row_best
  fill_rows-IsRun whole qi rq [] best fits hq e r = r
  fill_rows-IsRun whole qi rq (q ∷ query) best fits hq e r =
      rw (fill_rows-row qi rq query q best (omega arith)) (
        fill_rows-IsRun whole (suc qi) (q ∷ rq) query (row_best qi rq q best) (omega arith)
          (omega arith) e
          (fill_row-IsRun q rq (omega arith) whole source qi 0 [] query source best hq refl e refl
            r))

-- Every pair of prefixes is met by the rows.
ends-at :
    (n : ℕ) (rq rs a b : List ℕ)
    → common_prefix rq rs ≤ n
    → All (λ x. x ≤ n) (ends rq rs (a ++ b))
    → common_prefix rq (reverse_aux a rs) ≤ n
unfolding ends
ends-at n rq rs [] b h ps = h
ends-at n rq rs (s ∷ a) b h (p, ps) = ends-at n rq (s ∷ rs) a b p ps

RowsBelow-at :
    (n : ℕ) (rq a b c d : List ℕ)
    → common_prefix rq (reverse_aux c []) ≤ n
    → RowsBelow n (c ++ d) rq (a ++ b)
    → common_prefix (reverse_aux a rq) (reverse_aux c []) ≤ n
unfolding RowsBelow common_prefix
RowsBelow-at n rq [] b c d h rows = h
RowsBelow-at n rq (q ∷ a) b c d h (row, rows) =
    RowsBelow-at n (q ∷ rq) a b c d (ends-at n (q ∷ rq) [] c d (omega arith) row) rows

-- A run is a common piece of both texts.
IsRun-OccursAt :
    (query source : List ℕ) (best : RawMatch)
    → IsRun query source best
    → (m : List ℕ) × (length m ≡ best.len)
      × OccursAt m best.query_start query
      × OccursAt m best.source_start source
IsRun-OccursAt query source best r =
    let n = common_prefix r.rq r.rs in
    let in_query =
      occurs_reversed query r.rq r.query_rest n r.in_query (common_prefix-le r.rq r.rs) in
    let in_source =
      occurs_reversed source r.rs r.source_rest n r.in_source (common_prefix-le_right r.rq r.rs) in
    let at_query : length r.rq - n ≡ best.query_start = omega (arith, r.run, r.query_at) in
    let at_source : length r.rs - n ≡ best.source_start = omega (arith, r.run, r.source_at) in
    let same : reverse_aux (take n r.rs) [] ≡ reverse_aux (take n r.rq) [] =
      ap (λ m. reverse_aux m []) (sym (common_prefix-take r.rq r.rs)) in
    (
      reverse_aux (take n r.rq) [],
      omega (
        arith,
        length-reverse_aux (take n r.rq) [],
        length-take n r.rq,
        common_prefix-le r.rq r.rs,
        r.run,
      ),
      subst (λ i. OccursAt (reverse_aux (take n r.rq) []) i query) at_query in_query,
      subst (λ m. OccursAt m best.source_start source) same
          (subst (λ i. OccursAt (reverse_aux (take n r.rs) []) i source) at_source in_source),
    )

start_row : (source rs : List ℕ) → ends [] rs source ≡ replicate (length source) 0
unfolding ends common_prefix
start_row [] rs = refl
start_row (s ∷ source) rs = ap (◌∷◌ 0) (start_row source (s ∷ rs))

start_rows :
    (source query : List ℕ)
    → fill_rows source 0 (replicate (length source + 1) 0) query no_match
      ≡ fill_rows source 0 (common_prefix [] [] ∷ ends [] [] source) query no_match
unfolding common_prefix
start_rows source query =
    let longer : length source + 1 ≡ suc (length source) = omega arith in
    ap (λ row. fill_rows source 0 row query no_match)
      (ap (λ n. replicate n 0) longer ∙ ap (◌∷◌ 0) (sym (start_row source [])))

no_match-IsRun : (query source : List ℕ) → IsRun query source no_match
unfolding common_prefix
no_match-IsRun query source = record {
  rq = [];
  rs = [];
  query_rest = query;
  source_rest = source;
  in_query = refl;
  in_source = refl;
  run = refl;
  query_at = refl;
  source_at = refl;
}

-- `best` behind the last row.
best_of : List ℕ → List ℕ → RawMatch
best_of query source = fill_rows source 0 (common_prefix [] [] ∷ ends [] [] source) query no_match

best-IsRun :
    (query source : List ℕ) → length query ≤ u64_max → IsRun query source (best_of query source)
unfolding best_of
best-IsRun query source h =
    fill_rows-IsRun source query 0 [] query no_match (omega arith) refl refl
      (no_match-IsRun query source)

best-above :
    (query source a b c d : List ℕ)
    → length query ≤ u64_max
    → query ≡ a ++ b
    → source ≡ c ++ d
    → common_prefix (reverse_aux a []) (reverse_aux c []) ≤ (best_of query source).len
unfolding best_of common_prefix
best-above query source a b c d h eq es =
    let (_, rows) = fill_rows-longest source 0 [] query no_match (omega arith) in
    let rows' =
      subst (λ t. RowsBelow (best_of query source).len t [] (a ++ b)) es
        (subst (RowsBelow (best_of query source).len source []) eq rows) in
    RowsBelow-at (best_of query source).len [] a b c d (omega arith) rows'

then_some-eq : (best raw : RawMatch) → then_some best ≡ some raw → best ≡ raw
then_some-eq best raw h = elim (Bool-cases (ltb 0 best.len)) [
  | inl found ↦ let e : ◌≡◌ {A = Option RawMatch} (some best) (some raw) = rw found at h in cc
  | inr none_found ↦ absurd (ground arith)
]

then_some-pos : (best : RawMatch) → 0 < best.len → then_some best ≡ some best
then_some-pos best h = rw (lt→ltb 0 best.len h)

lcs-then_some :
    (query source : List ℕ)
    → 0 < length query
    → 0 < length source
    → longest_common_substring query source ≡ then_some (best_of query source)
unfolding longest_common_substring best_of
lcs-then_some [] source hq hs = absurd (omega arith)
lcs-then_some (q ∷ query) [] hq hs = absurd (omega arith)
lcs-then_some (q ∷ query) (s ∷ source) hq hs = ap then_some (start_rows (s ∷ source) (q ∷ query))

-- A match is a common piece of both texts, at the indices and of the length that it gives.
pub longest_common_substring-OccursAt :
    (query source : List ℕ) (raw : RawMatch)
    → length query ≤ u64_max
    → longest_common_substring query source ≡ some raw
    → (m : List ℕ) × (length m ≡ raw.len)
      × OccursAt m raw.query_start query
      × OccursAt m raw.source_start source
unfolding longest_common_substring
longest_common_substring-OccursAt [] source raw h e = absurd (ground arith)
longest_common_substring-OccursAt (q ∷ query) [] raw h e = absurd (ground arith)
longest_common_substring-OccursAt (q ∷ query) (s ∷ source) raw h e =
    let best = best_of (q ∷ query) (s ∷ source) in
    let found = best-IsRun (q ∷ query) (s ∷ source) h in
    let same : best ≡ raw =
      then_some-eq best raw
        (sym (lcs-then_some (q ∷ query) (s ∷ source) (omega arith) (omega arith)) ∙ e) in
    IsRun-OccursAt (q ∷ query) (s ∷ source) raw (subst (IsRun (q ∷ query) (s ∷ source)) same found)

-- A common piece of both texts has a match that is at least as long.
pub longest_common_substring-IsLongest :
    (m a b c d : List ℕ)
    → 0 < length m
    → length (a ++ (m ++ b)) ≤ u64_max
    → (raw : RawMatch) × (longest_common_substring (a ++ (m ++ b)) (c ++ (m ++ d)) ≡ some raw)
      × (length m ≤ raw.len)
longest_common_substring-IsLongest m a b c d hm h =
    let query = a ++ (m ++ b) in
    let source = c ++ (m ++ d) in
    let best = best_of query source in
    let run =
      best-above query source (a ++ m) b (c ++ m) d h (sym (append_assoc a m b))
        (sym (append_assoc c m d)) in
    let long = common_prefix-reversed m a c in
    let some_query = length-append a (m ++ b) in
    let more_query = length-append m b in
    let some_source = length-append c (m ++ d) in
    let more_source = length-append m d in
    (
      best,
      lcs-then_some query source (omega arith) (omega arith) ∙ then_some-pos best (omega arith),
      omega arith,
    )
