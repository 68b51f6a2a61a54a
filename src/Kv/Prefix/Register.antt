-- ===== src/Kv/Prefix/Register.antt =====
-- A registered prefix is found again, and removing a model leaves none of its prefixes.
use mathlib.Core.List.{append-nil, Memᴰ}
use rivet_cache.Prelude.{
  ◌≢◌, ℕ, ◌≤◌, ◌≡◌, refl, sym, true, List, [], ◌∷◌, ◌++◌, none, some, arith, length, Bool-cases,
  Option-cases, inl, inr, leb, le→leb, length-append,
}
use rivet_cache.Prelude.Lists.{Bytes, retain}
use rivet_cache.Prelude.Retain.{mem-retain, retain-append}
use rivet_cache.Prelude.Results.{ok}
use rivet_cache.Kv.{KvBlockKey}
use rivet_cache.Kv.Prefix.{
  Tokens, PrefixRecord, PrefixIndex, max_by_length, longer, longest_prefix, candidate, register,
  remove_model, other_prefix, other_model,
}
use rivet_cache.Kv.Prefix.Longest.{
  IsPrefixOf, candidate-IsPrefixOf, IsPrefixOf-candidate, longest_prefix-source,
}

longer-below :
    (b r : PrefixRecord) (n : ℕ)
    → length b.tokens ≤ n
    → length r.tokens ≤ n
    → length (longer b r).tokens ≤ n
unfolding longer
longer-below b r n p q = elim (Bool-cases (leb (length b.tokens) (length r.tokens))) [
  | inl e ↦ rw e q
  | inr e ↦ rw e p
]

max_by_length-last_some :
    (b : PrefixRecord) (rs : List PrefixRecord) (new : PrefixRecord)
    → length b.tokens ≤ length new.tokens
    → ((r : PrefixRecord) → Memᴰ r rs → length r.tokens ≤ length new.tokens)
    → max_by_length (some b) (rs ++ new ∷ []) ≡ some new
unfolding max_by_length longer
max_by_length-last_some b [] new h all = rw (le→leb (length b.tokens) (length new.tokens) h)
max_by_length-last_some b (r ∷ rs) new h all =
    max_by_length-last_some (longer b r) rs new
      (longer-below b r (length new.tokens) h (all r (Memᴰ.head refl))) (λ s m. all s (Memᴰ.tail m))

max_by_length-last :
    (rs : List PrefixRecord) (new : PrefixRecord)
    → ((r : PrefixRecord) → Memᴰ r rs → length r.tokens ≤ length new.tokens)
    → max_by_length none (rs ++ new ∷ []) ≡ some new
unfolding max_by_length
max_by_length-last [] new all = refl
max_by_length-last (r ∷ rs) new all =
    max_by_length-last_some r rs new (all r (Memᴰ.head refl)) (λ s m. all s (Memᴰ.tail m))

register-appends :
    (model : Bytes) (tokens : Tokens) (keys : List KvBlockKey) (records : PrefixIndex)
    → (register model tokens keys records).0 ≡ ok tt
    → (register model tokens keys records).1
      ≡ retain (other_prefix model tokens) records
        ++ record { model_fingerprint = model; tokens = tokens; block_keys = keys } ∷ []
unfolding register
register-appends model tokens keys records h = ground arith

-- The new record answers the query for its own tokens, and no other answer is longer.
module _ (model : Bytes) (tokens : Tokens) where
  retain-own :
      (keys : List KvBlockKey)
      → retain
          (candidate model tokens)
          (record { model_fingerprint = model; tokens = tokens; block_keys = keys } ∷ [])
        ≡ record { model_fingerprint = model; tokens = tokens; block_keys = keys } ∷ []
  unfolding IsPrefixOf retain
  retain-own keys = rw (
    IsPrefixOf-candidate model tokens
        (record { model_fingerprint = model; tokens = tokens; block_keys = keys })
        (refl, [], sym (append-nil tokens)),
    retain,
  )

  below :
      (records : PrefixIndex) (r : PrefixRecord)
      → Memᴰ r (retain (candidate model tokens) records)
      → length r.tokens ≤ length tokens
  unfolding IsPrefixOf
  below records r m =
      let (_, fits) = mem-retain (candidate model tokens) r records m in
      let (_, rest, split) = candidate-IsPrefixOf model tokens r fits in
      rw split (omega (arith, length-append r.tokens rest))

-- A successful registration answers the query for its own tokens with its keys, whatever the index
-- held before.
pub longest_prefix-register :
    (model : Bytes) (tokens : Tokens) (keys : List KvBlockKey) (records : PrefixIndex)
    → (register model tokens keys records).0 ≡ ok tt
    → longest_prefix model tokens (register model tokens keys records).1
      ≡ some (record { matched_tokens = length tokens; block_keys = keys })
unfolding longest_prefix
longest_prefix-register model tokens keys records h =
    let p = candidate model tokens in
    let new : PrefixRecord = record {
      model_fingerprint = model;
      tokens = tokens;
      block_keys = keys;
    } in
    let older = retain (other_prefix model tokens) records in
    rw (
      register-appends model tokens keys records h,
      retain-append p older (new ∷ []),
      retain-own model tokens keys,
      max_by_length-last (retain p older) new (below model tokens older),
    )

other_model-not :
    (model : Bytes) (r : PrefixRecord) → r.model_fingerprint ≡ model → other_model model r ≢ true
unfolding other_model
other_model-not model r e h = ground arith

-- Once a model is removed, no query for it is answered.
longest_prefix-remove_model :
    (model : Bytes) (tokens : Tokens) (records : PrefixIndex)
    → longest_prefix model tokens (remove_model model records).1 ≡ none
unfolding remove_model IsPrefixOf
longest_prefix-remove_model model tokens records =
    let kept = retain (other_model model) records in
    elim (Option-cases (longest_prefix model tokens kept)) [
      | inl nothing ↦ nothing
      | inr (found, h) ↦
          let (r, there, (of_model, _, _), _) = longest_prefix-source model tokens kept found h in
          let (_, other) = mem-retain (other_model model) r records there in
          absurd (other_model-not model r of_model other)
    ]
