-- ===== src/Reuse/Index/Registered.antt =====
-- What `SegmentIndex` keeps of the records that it takes.
use rivet_cache.Prelude.{
  ℕ, ◌+◌, ◌≤◌, ◌<◌, ◌≡◌, refl, sym, ap, ◌∙◌, false, List, [], ◌∷◌, ltb, arith, Bool-cases, inl, inr,
  length, ◌||◌,
}
use rivet_cache.Prelude.Lists.{Bytes, All, retain}
use rivet_cache.Prelude.Retain.{All-append, retain-All, All-map}
use rivet_cache.Prelude.Text.{is_blank}
use rivet_cache.Prelude.Words.{u32_max, sat_add}
use rivet_cache.Prelude.Results.{ok, Result-cases, err≢ok}
use rivet_cache.Kv.{KvBlockKey}
use rivet_cache.Kv.Prefix.{is_empty}
use rivet_cache.Reuse.{SegmentRecord, SegmentIndex}
use rivet_cache.Reuse.Align.Exact.{Tiles}
use rivet_cache.Reuse.Index.{
  sat_add_u32, is_misfit, validate_keys, validate_record, register, other_segment,
}

-- The blocks of a record are of its model, none is empty, and they tile a part of its tokens.
pub record IsCut (r : SegmentRecord) : Type 0 where
  pub from : ℕ
  pub to : ℕ
  pub tiles : Tiles from r.block_keys to
  pub inside : to ≤ length r.tokens
  pub of_model :
      All
        (λ key. (key.model_fingerprint ≡ r.model_fingerprint) × (0 < key.token_count))
        r.block_keys

module _ (model : Bytes) (tokens : List ℕ) (fits : length tokens ≤ u32_max) where
  is_misfit-false :
      (first : KvBlockKey) (expected : ℕ) (key : KvBlockKey)
      → is_misfit model first expected key ≡ false
      → (key.model_fingerprint ≡ model) × (0 < key.token_count) × (key.token_start ≡ expected)
  unfolding is_misfit
  is_misfit-false first expected key h = (ground arith, ground arith, ground arith)

  sat_add_short : (a b : ℕ) → ltb (length tokens) (sat_add a b) ≡ false → sat_add a b ≡ a + b
  unfolding sat_add
  sat_add_short a b h = ground arith

  validate_keys-start :
      (first : KvBlockKey) (expected : ℕ) (key : KvBlockKey) (keys : List KvBlockKey)
      → validate_keys model tokens first expected (key ∷ keys) ≡ ok tt
      → key.token_start ≤ length tokens
  unfolding validate_keys
  validate_keys-start first expected key keys h =
      elim (Bool-cases (ltb (length tokens) (sat_add key.token_start key.token_count))) [
        | inl far ↦ absurd (ground arith)
        | inr near ↦ let plain = sat_add_short key.token_start key.token_count near in ground arith
      ]

  validate_keys-Tiles :
      (first : KvBlockKey) (expected : ℕ) (keys : List KvBlockKey)
      → expected ≤ length tokens
      → validate_keys model tokens first expected keys ≡ ok tt
      → (to : ℕ) × Tiles expected keys to
        × (to ≤ length tokens)
        × All (λ key. (key.model_fingerprint ≡ model) × (0 < key.token_count)) keys
  unfolding validate_keys Tiles
  validate_keys-Tiles first expected [] he h = (expected, refl, he, tt)
  validate_keys-Tiles first expected (key ∷ keys) he h =
      elim (Bool-cases (is_misfit model first expected key)) [
        | inl bad ↦ absurd (ground arith)
        | inr good ↦
            elim (Bool-cases (ltb (length tokens) (sat_add key.token_start key.token_count))) [
              | inl far ↦ absurd (ground arith)
              | inr near ↦
                  let (m, some_, e) = is_misfit-false first expected key good in
                  let exact_end : sat_add key.token_start key.token_count
                      ≡ key.token_start + key.token_count =
                    sat_add_short key.token_start key.token_count near in
                  let next : sat_add_u32 key.token_start key.token_count
                      ≡ expected + key.token_count =
                    ground arith in
                  let (to, tiles, inside, all) =
                    validate_keys-Tiles first (expected + key.token_count) keys (ground arith) (
                      ap (λ n. validate_keys model tokens first n keys) (sym next)
                      ∙ rw (good, near, validate_keys) at h) in
                  (to, (e, tiles), inside, ((m, some_), all))
            ]
      ]

validate_record-IsCut :
    (model : Bytes) (tokens : List ℕ) (keys : List KvBlockKey)
    → length tokens ≤ u32_max
    → validate_record model tokens keys ≡ ok tt
    → IsCut (record { model_fingerprint = model; tokens = tokens; block_keys = keys })
unfolding validate_record
validate_record-IsCut model tokens [] fits h = absurd (err≢ok h)
validate_record-IsCut model tokens (first ∷ keys) fits h =
    elim (Bool-cases (is_blank model || is_empty tokens)) [
      | inl bad ↦ absurd (err≢ok (rw (bad, validate_record) at h))
      | inr good ↦
          let checked = rw (good, validate_record) at h in
          let (to, tiles, inside, all) =
            validate_keys-Tiles model tokens fits first first.token_start (first ∷ keys)
              (validate_keys-start model tokens fits first first.token_start first keys checked)
              checked in
          record {
            from = first.token_start;
            to = to;
            tiles = tiles;
            inside = inside;
            of_model = all;
          }
    ]

-- A `register` of at most 2^32 - 1 tokens, whatever it returns, leaves only records that are cut into
-- blocks, if there were only such records before.
pub register-IsCut :
    (model : Bytes) (tokens : List ℕ) (keys : List KvBlockKey) (records : SegmentIndex)
    → length tokens ≤ u32_max
    → All IsCut records
    → All IsCut (register model tokens keys records).1
unfolding register
register-IsCut model tokens keys records fits cut =
    elim (Result-cases (validate_record model tokens keys)) [
      | inr (x, q) ↦ rw (q, register) cut
      | inl (u, q) ↦
          rw (q, register)
            (All-append IsCut (retain (other_segment model tokens) records) _
              (All-map (retain (other_segment model tokens) records) (λ r p. p.0)
                (retain-All (other_segment model tokens) IsCut records cut))
              (validate_record-IsCut model tokens keys fits q, tt))
    ]
