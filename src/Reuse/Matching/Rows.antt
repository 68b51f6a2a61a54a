-- ===== src/Reuse/Matching/Rows.antt =====
-- What the rows of `longest_common_substring` hold: for each prefix of the source the length of the
-- longest run that ends both there and at the end of the query's prefix. Prefixes are reversed.
use mathlib.Core.List.{reverse_aux}
use rivet_cache.Prelude.{
  ℕ, suc, ◌+◌, ◌-◌, ◌≤◌, ◌<◌, ◌≡◌, refl, sym, List, [], ◌∷◌, ltb, length, arith, Bool-cases, inl,
  inr,
}
use rivet_cache.Prelude.Lists.{All}
use rivet_cache.Prelude.Words.{u64_max, sat_add-le}
use rivet_cache.Reuse.{RawMatch}
use rivet_cache.Reuse.Matching.Prefixes.{common_prefix, common_prefix-le}
use rivet_cache.Reuse.Matching.{improve, run_len, fill_row}

-- The runs that end behind each token of `source`, where `rs` stands before it.
unfoldable pub ends : List ℕ → List ℕ → List ℕ → List ℕ
ends rq rs [] = []
ends rq rs (s ∷ source) = common_prefix rq (s ∷ rs) ∷ ends rq (s ∷ rs) source

-- The state of the loops: where `best` was found, as the end of a reversed prefix of each text.
pub record IsRun (query source : List ℕ) (best : RawMatch) : Type 0 where
  pub rq : List ℕ
  pub rs : List ℕ
  pub query_rest : List ℕ
  pub source_rest : List ℕ
  pub in_query : query ≡ reverse_aux rq query_rest
  pub in_source : source ≡ reverse_aux rs source_rest
  pub run : common_prefix rq rs ≡ best.len
  pub query_at : best.query_start ≡ length rq - best.len
  pub source_at : best.source_start ≡ length rs - best.len

improve-le :
    (qi si len : ℕ) (best : RawMatch)
    → (len ≤ (improve qi si len best).len) × (best.len ≤ (improve qi si len best).len)
unfolding improve
improve-le qi si len best = ground arith

improve-IsRun :
    (query source : List ℕ) (qi si len : ℕ) (best : RawMatch)
    → IsRun query source best
    → IsRun query source
        (record { query_start = qi + 1 - len; source_start = si + 1 - len; len = len })
    → IsRun query source (improve qi si len best)
unfolding improve
improve-IsRun query source qi si len best old new = elim (Bool-cases (ltb best.len len)) [
  | inl better ↦ rw better new
  | inr worse ↦ rw worse old
]

pub All-le : {m n : ℕ} (xs : List ℕ) → m ≤ n → All (λ x. x ≤ m) xs → All (λ x. x ≤ n) xs
All-le [] h ps = tt
All-le (x ∷ xs) h (p, ps) = (omega arith, All-le xs h ps)

module _ (q : ℕ) (rq : List ℕ) (fits : length rq < u64_max) where
  next_len :
      (rs : List ℕ) (s : ℕ) → run_len q s (common_prefix rq rs) ≡ common_prefix (q ∷ rq) (s ∷ rs)
  unfolding run_len common_prefix
  next_len rs s =
      let plain = sat_add-le (common_prefix rq rs) 1 (omega (arith, common_prefix-le rq rs)) in
      ground arith

  pub fill_row-ends :
      (qi si : ℕ) (rs source : List ℕ) (best : RawMatch)
      → (fill_row q qi si (common_prefix rq rs ∷ ends rq rs source) source best).0
        ≡ ends (q ∷ rq) rs source
  unfolding fill_row ends
  fill_row-ends qi si rs [] best = refl
  fill_row-ends qi si rs (s ∷ source) best =
      let len = run_len q s (common_prefix rq rs) in
      let rest = fill_row-ends qi (suc si) (s ∷ rs) source (improve qi si len best) in
      let first = next_len rs s in cc

  -- No run that ends in the row is longer than `best` behind it.
  pub fill_row-longest :
      (qi si : ℕ) (rs source : List ℕ) (best : RawMatch)
      → let after = (fill_row q qi si (common_prefix rq rs ∷ ends rq rs source) source best).1 in
        (best.len ≤ after.len) × All (λ n. n ≤ after.len) (ends (q ∷ rq) rs source)
  unfolding fill_row ends
  fill_row-longest qi si rs [] best = (omega arith, tt)
  fill_row-longest qi si rs (s ∷ source) best =
      let len = run_len q s (common_prefix rq rs) in
      let (grows, below) = fill_row-longest qi (suc si) (s ∷ rs) source (improve qi si len best) in
      let first = next_len rs s in
      let (reached, kept) = improve-le qi si len best in (omega arith, (omega arith, below))

  -- `best` stays the length of a run at its two indices.
  pub fill_row-IsRun :
      (query source : List ℕ) (qi si : ℕ) (rs query_rest rest : List ℕ) (best : RawMatch)
      → qi ≡ length rq
      → si ≡ length rs
      → query ≡ reverse_aux (q ∷ rq) query_rest
      → source ≡ reverse_aux rs rest
      → IsRun query source best
      → IsRun query source (fill_row q qi si (common_prefix rq rs ∷ ends rq rs rest) rest best).1
  unfolding fill_row ends
  fill_row-IsRun query source qi si rs query_rest [] best hq hs eq es r = r
  fill_row-IsRun query source qi si rs query_rest (s ∷ rest) best hq hs eq es r =
      fill_row-IsRun query source qi (suc si) (s ∷ rs) query_rest rest
        (improve qi si (run_len q s (common_prefix rq rs)) best) hq (omega arith) eq es
        (improve-IsRun query source qi si (run_len q s (common_prefix rq rs)) best r (record {
          rq = q ∷ rq;
          rs = s ∷ rs;
          query_rest = query_rest;
          source_rest = rest;
          in_query = eq;
          in_source = es;
          run = sym (next_len rs s);
          query_at = omega arith;
          source_at = omega arith;
        }))
