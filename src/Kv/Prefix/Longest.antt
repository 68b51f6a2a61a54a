-- ===== src/Kv/Prefix/Longest.antt =====
-- `PrefixIndex::longest_prefix` answers with a longest registered prefix of the tokens.
use mathlib.Core.Path.{subst}
use mathlib.Core.List.{Memᴰ}
use mathlib.Core.List.Memᴰ
use mathlib.Core.List.Memᴰ.{head, tail}
use rivet_cache.Prelude.{
  ◌&&◌, length-append, le→leb, take_of_append, ◌≤◌, ◌≡◌, refl, sym, ◌∙◌, ap, Bool, true, List, [],
  ◌∷◌, ◌++◌, Option, none, some, arith, length, Bool-cases, Option-cases, inl, inr, ◌⊎◌, leb,
}
use rivet_cache.Prelude.Lists.{Bytes, Bytes-discrete, take-append-drop, drop, retain}
use rivet_cache.Prelude.Retain.{retain-mem, mem-retain}
use rivet_cache.Kv.Prefix.{
  Tokens, PrefixMatch, PrefixRecord, PrefixIndex, max_by_length, longest_prefix, candidate,
  starts_with, same, longer,
}

-- A record of the model whose tokens the sequence starts with.
unfoldable pub IsPrefixOf : PrefixRecord → Bytes → Tokens → Type 0
IsPrefixOf r model tokens =
    (r.model_fingerprint ≡ model) × (rest : Tokens) × (tokens ≡ r.tokens ++ rest)

longer-cases :
    (b r : PrefixRecord)
    → (length b.tokens ≤ length (longer b r).tokens)
      × (length r.tokens ≤ length (longer b r).tokens)
      × ((longer b r ≡ b) ⊎ (longer b r ≡ r))
unfolding longer
longer-cases b r = elim (Bool-cases (leb (length b.tokens) (length r.tokens))) [
  | inl q ↦ rw q (ground arith, omega arith, inr refl)
  | inr q ↦ rw q (omega arith, ground arith, inl refl)
]

-- The maximum is one of the records, and no record is longer.
abbrev IsMaximum : PrefixRecord → List PrefixRecord → PrefixRecord → Type 0
IsMaximum b rs x =
    (length b.tokens ≤ length x.tokens)
    × ((x ≡ b) ⊎ Memᴰ x rs)
    × ((r : PrefixRecord) → Memᴰ r rs → length r.tokens ≤ length x.tokens)

later-source :
    {b r x : PrefixRecord} {rs : List PrefixRecord}
    → ((longer b r ≡ b) ⊎ (longer b r ≡ r))
    → ((x ≡ longer b r) ⊎ Memᴰ x rs)
    → (x ≡ b) ⊎ Memᴰ x (r ∷ rs)
later-source picked (inr m) = inr (tail m)
later-source (inl b) (inl e) = inl (e ∙ b)
later-source (inr r) (inl e) = inr (head (e ∙ r))

max_by_length-some :
    (b : PrefixRecord) (rs : List PrefixRecord)
    → (x : PrefixRecord) × (max_by_length (some b) rs ≡ some x) × IsMaximum b rs x
unfolding max_by_length
max_by_length-some b [] = (b, refl, (omega arith, inl refl, λ r m. elim m [ ]))
max_by_length-some b (r ∷ rs) =
    let (x, found, (above, source, longest)) = max_by_length-some (longer b r) rs in
    let (above_b, above_r, picked) = longer-cases b r in
    (x, found, (omega arith, later-source picked source, at x above above_r longest))
  where
    at :
        (x : PrefixRecord)
        → length (longer b r).tokens ≤ length x.tokens
        → length r.tokens ≤ length (longer b r).tokens
        → ((s : PrefixRecord) → Memᴰ s rs → length s.tokens ≤ length x.tokens)
        → (s : PrefixRecord) → Memᴰ s (r ∷ rs)
        → length s.tokens ≤ length x.tokens
    at x above above_r longest s m = elim (Memᴰ.cases_cons m) [
      | inl e ↦ rw e (omega arith)
      | inr t ↦ longest s t
    ]

in_list : {b x : PrefixRecord} {rs : List PrefixRecord} → ((x ≡ b) ⊎ Memᴰ x rs) → Memᴰ x (b ∷ rs)
in_list (inl e) = head e
in_list (inr t) = tail t

some-injective : {x y : PrefixRecord} → ◌≡◌ {A = Option PrefixRecord} (some x) (some y) → x ≡ y
some-injective h = cc

max_by_length-mem :
    (rs : List PrefixRecord) (r : PrefixRecord)
    → Memᴰ r rs
    → (x : PrefixRecord) × (max_by_length none rs ≡ some x)
      × Memᴰ x rs
      × (length r.tokens ≤ length x.tokens)
unfolding max_by_length
max_by_length-mem [] r m = elim m [ ]
max_by_length-mem (b ∷ rs) r m =
    let (x, found, (above, source, longest)) = max_by_length-some b rs in
    (
      x,
      found,
      in_list source,
      elim (Memᴰ.cases_cons m) [ inl e ↦ rw e above | inr t ↦ longest r t ],
    )

max_by_length-source :
    (rs : List PrefixRecord) (x : PrefixRecord) → max_by_length none rs ≡ some x → Memᴰ x rs
unfolding max_by_length
max_by_length-source [] x h = absurd (ground arith)
max_by_length-source (b ∷ rs) x h =
    let (y, found, (above, source, longest)) = max_by_length-some b rs in
    subst (λ z. Memᴰ z (b ∷ rs)) (some-injective (sym found ∙ h)) (in_list source)

both_true : {a b : Bool} → (a && b) ≡ true → (a ≡ true) × (b ≡ true)
both_true h = ground arith

pub same→eq : {a b : Tokens} → same a b ≡ true → a ≡ b
same→eq {a} {b} h = elim (Bytes-discrete a b) [ yes e ↦ e | no n ↦ absurd (ground arith) ]

pub same_refl : (a : Tokens) → same a a ≡ true
same_refl a = ground arith

pub candidate-IsPrefixOf :
    (model : Bytes) (tokens : Tokens) (r : PrefixRecord)
    → candidate model tokens r ≡ true
    → IsPrefixOf r model tokens
unfolding candidate starts_with IsPrefixOf
candidate-IsPrefixOf model tokens r h =
    let (by_model, by_tokens) = both_true h in
    let (_, by_take) = both_true by_tokens in
    (
      same→eq by_model,
      drop (length r.tokens) tokens,
      sym (take-append-drop (length r.tokens) tokens)
          ∙ ap (λ front. front ++ drop (length r.tokens) tokens) (same→eq by_take),
    )

pub IsPrefixOf-candidate :
    (model : Bytes) (tokens : Tokens) (r : PrefixRecord)
    → IsPrefixOf r model tokens
    → candidate model tokens r ≡ true
unfolding candidate starts_with IsPrefixOf
IsPrefixOf-candidate model tokens r (e, rest, split) = rw (
  e,
  same_refl model,
  split,
  take_of_append (length r.tokens) r.tokens rest refl,
  same_refl r.tokens,
  le→leb (length r.tokens) (length (r.tokens ++ rest)) (omega (arith, length-append r.tokens rest)),
)

-- The answer is a registered prefix of the model: its length and its keys.
pub longest_prefix-source :
    (model : Bytes) (tokens : Tokens) (records : PrefixIndex) (found : PrefixMatch)
    → longest_prefix model tokens records ≡ some found
    → (r : PrefixRecord) × Memᴰ r records
      × IsPrefixOf r model tokens
      × (found ≡ record { matched_tokens = length r.tokens; block_keys = r.block_keys })
unfolding longest_prefix
longest_prefix-source model tokens records found h =
    elim (Option-cases (max_by_length none (retain (candidate model tokens) records))) [
      | inl nothing ↦ absurd (grind arith)
      | inr (x, best) ↦
          let kept = max_by_length-source (retain (candidate model tokens) records) x best in
          let (there, fits) = mem-retain (candidate model tokens) x records kept in
          (x, there, candidate-IsPrefixOf model tokens x fits, grind arith)
    ]

-- Where the index holds a prefix of the tokens, a match is found, and it is at least as long.
pub longest_prefix-IsLongest :
    (model : Bytes) (tokens : Tokens) (records : PrefixIndex) (r : PrefixRecord)
    → Memᴰ r records
    → IsPrefixOf r model tokens
    → (found : PrefixMatch) × (longest_prefix model tokens records ≡ some found)
      × (length r.tokens ≤ found.matched_tokens)
unfolding longest_prefix
longest_prefix-IsLongest model tokens records r m prefix =
    let kept =
      retain-mem (candidate model tokens) r records (IsPrefixOf-candidate model tokens r prefix)
        m in
    let (x, best, _, longest) =
      max_by_length-mem (retain (candidate model tokens) records) r kept in
    (record { matched_tokens = length x.tokens; block_keys = x.block_keys }, rw best, longest)
