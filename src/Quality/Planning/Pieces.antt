-- ===== src/Quality/Planning/Pieces.antt =====
-- The ranges and the spans of a plan share the tokens of the query out among them.
use rivet_cache.Prelude.{
  ℕ, zero, suc, ◌+◌, ◌≤◌, ◌≡◌, refl, ap, ◌&&◌, List, [], ◌∷◌, ◌++◌, some, ltb, leb, if◌then◌else◌,
  get_elem?, arith, Bool-cases, inl, inr,
}
use mathlib.Core.Path.{subst}
use rivet_cache.Prelude.Lists.{All}
use rivet_cache.Prelude.Retain.{All-append}
use rivet_cache.Prelude.Words.{sat_add, sat_add-le, u64_max}
use rivet_cache.Reuse.{ReuseSpan}
use rivet_cache.Quality.Planning.{last_of, without_last, swap_remove, end_at, cut_range}

-- 1 for a token inside the range, and 0 for another.
abbrev pub inside : ℕ → ℕ → ℕ → ℕ
inside start end_ t = if leb start t && ltb t end_ then 1 else 0

-- In how many ranges, and in how many spans, a token is.
unfoldable pub count : ℕ → List (ℕ × ℕ) → ℕ
count t [] = 0
count t ((start, end_) ∷ ranges) = inside start end_ t + count t ranges

unfoldable pub span_count : ℕ → List ReuseSpan → ℕ
span_count t [] = 0
span_count t (span ∷ spans) =
    inside span.query_start (span.query_start + span.matched_tokens) t + span_count t spans

count-append : (t : ℕ) (xs ys : List (ℕ × ℕ)) → count t (xs ++ ys) ≡ count t xs + count t ys
unfolding count
count-append t [] ys = omega arith
count-append t ((s, e) ∷ xs) ys = omega (arith, count-append t xs ys)

pub span_count-append :
    (t : ℕ) (xs ys : List ReuseSpan) → span_count t (xs ++ ys) ≡ span_count t xs + span_count t ys
unfolding span_count
span_count-append t [] ys = omega arith
span_count-append t (x ∷ xs) ys = omega (arith, span_count-append t xs ys)

count-last :
    (t : ℕ) (y : ℕ × ℕ) (ys : List (ℕ × ℕ))
    → count t (last_of y ys ∷ without_last y ys) ≡ count t (y ∷ ys)
unfolding count last_of without_last
count-last t y [] = refl
count-last t y (z ∷ ys) = omega (arith, count-last t z ys)

first_inside :
    (t s e : ℕ) (r : ℕ × ℕ) (ranges : List (ℕ × ℕ))
    → get_elem? (r ∷ ranges) 0 ≡ some (s, e)
    → inside r.0 r.1 t ≡ inside s e t
first_inside t s e r ranges h =
    let same : ◌≡◌ {A = ℕ × ℕ} r (s, e) = cc in ap (λ p. inside p.0 p.1 t) same

-- `swap_remove` takes one range out.
count-swap_remove :
    (t i s e : ℕ) (ranges : List (ℕ × ℕ))
    → get_elem? ranges i ≡ some (s, e)
    → count t (swap_remove i ranges) + inside s e t ≡ count t ranges
unfolding count swap_remove
count-swap_remove t i s e [] h = absurd (ground arith)
count-swap_remove t zero s e (r ∷ []) h = let at = first_inside t s e r [] h in omega arith
count-swap_remove t zero s e (r ∷ y ∷ ys) h =
    let at = first_inside t s e r (y ∷ ys) h in omega (arith, count-last t y ys)
count-swap_remove t (suc i) s e (r ∷ ranges) h = omega (arith, count-swap_remove t i s e ranges h)

end_at-get :
    (i s e : ℕ) (ranges : List (ℕ × ℕ)) → get_elem? ranges i ≡ some (s, e) → end_at i ranges ≡ e
end_at-get i s e [] h = absurd (ground arith)
end_at-get zero s e ((s', e') ∷ ranges) h =
    let same : ◌≡◌ {A = ℕ × ℕ} (s', e') (s, e) = cc in ap (λ p. p.1) same
end_at-get (suc i) s e (r ∷ ranges) h = end_at-get i s e ranges h

pub count_if : (t s e : ℕ) → count t (if ltb s e then (s, e) ∷ [] else []) ≡ inside s e t
unfolding count
count_if t s e = ground arith

split_inside :
    (t s q q' e : ℕ)
    → s ≤ q
    → q ≤ q'
    → q' ≤ e
    → inside s q t + inside q q' t + inside q' e t ≡ inside s e t
split_inside t s q q' e h h' h'' = ground arith

-- The tokens of a range that a span is cut out of are in the span or in one of the parts beside it.
pub count-cut_range :
    (t i s e : ℕ) (span : ReuseSpan) (ranges : List (ℕ × ℕ))
    → get_elem? ranges i ≡ some (s, e)
    → s ≤ span.query_start
    → span.query_start + span.matched_tokens ≤ e
    → e ≤ u64_max
    → count t (cut_range i s span ranges)
        + inside span.query_start (span.query_start + span.matched_tokens) t
      ≡ count t ranges
unfolding cut_range
count-cut_range t i s e span ranges h from to fits =
    let left : List (ℕ × ℕ) = if ltb s span.query_start then (s, span.query_start) ∷ [] else [] in
    let span_end = span.query_start + span.matched_tokens in
    let right : List (ℕ × ℕ) = if ltb span_end e then (span_end, e) ∷ [] else [] in
    rw (end_at-get i s e ranges h, sat_add-le span.query_start span.matched_tokens (omega arith))
      (omega (
        arith,
        count-append t (swap_remove i ranges ++ left) right,
        count-append t (swap_remove i ranges) left,
        count-swap_remove t i s e ranges h,
        count_if t s span.query_start,
        count_if t span_end e,
        split_inside t s span.query_start span_end e from (omega arith) to,
      ))

All-last :
    (P : ℕ × ℕ → Type 0) (y : ℕ × ℕ) (ys : List (ℕ × ℕ))
    → P y
    → All P ys
    → All P (last_of y ys ∷ without_last y ys)
unfolding last_of without_last
All-last P y [] p ps = (p, tt)
All-last P y (z ∷ ys) p (q, qs) = let (l, ls) = All-last P z ys q qs in (l, (p, ls))

All-swap_remove :
    (P : ℕ × ℕ → Type 0) (i : ℕ) (ranges : List (ℕ × ℕ))
    → All P ranges
    → All P (swap_remove i ranges)
unfolding swap_remove
All-swap_remove P i [] ps = tt
All-swap_remove P zero (r ∷ []) ps = tt
All-swap_remove P zero (r ∷ y ∷ ys) (p, (q, qs)) = All-last P y ys q qs
All-swap_remove P (suc i) (r ∷ ranges) (p, ps) = (p, All-swap_remove P i ranges ps)

abbrev pub EndsBy : ℕ → ℕ × ℕ → Type 0
EndsBy m (start, end_) = end_ ≤ m

one_part : (m s e : ℕ) → e ≤ m → All (EndsBy m) (if ltb s e then (s, e) ∷ [] else [])
one_part m s e h = elim (Bool-cases (ltb s e)) [
  | inl some_ ↦ rw some_ (h, tt)
  | inr none_ ↦ rw none_ tt
]

-- The parts end where the range ended, or before.
pub All-cut_range :
    (m i s e : ℕ) (span : ReuseSpan) (ranges : List (ℕ × ℕ))
    → get_elem? ranges i ≡ some (s, e)
    → span.query_start ≤ m
    → e ≤ m
    → All (EndsBy m) ranges
    → All (EndsBy m) (cut_range i s span ranges)
unfolding cut_range
All-cut_range m i s e span ranges h from to ps =
    let span_end = sat_add span.query_start span.matched_tokens in
    let left : List (ℕ × ℕ) = if ltb s span.query_start then (s, span.query_start) ∷ [] else [] in
    let right : List (ℕ × ℕ) = if ltb span_end e then (span_end, e) ∷ [] else [] in
    rw (end_at-get i s e ranges h) (
      All-append (EndsBy m) (swap_remove i ranges ++ left) right
        (All-append (EndsBy m) (swap_remove i ranges) left (All-swap_remove (EndsBy m) i ranges ps)
          (one_part m s span.query_start from))
        (one_part m span_end e to))

pub get-All :
    (P : ℕ × ℕ → Type 0) (i : ℕ) (r : ℕ × ℕ) (ranges : List (ℕ × ℕ))
    → get_elem? ranges i ≡ some r
    → All P ranges
    → P r
get-All P i r [] h ps = absurd (ground arith)
get-All P zero r (x ∷ ranges) h (p, ps) = let same : ◌≡◌ {A = ℕ × ℕ} x r = cc in subst P same p
get-All P (suc i) r (x ∷ ranges) h (p, ps) = get-All P i r ranges h ps
