-- ===== src/Kv/Capture/Cover.antt =====
-- The blocks of a capture request stand one behind the other, and cover its tokens.
use native.Mathlib.Nat.{div-le_self, div-lt_self, mod-one, mod-le}
use rivet_cache.Prelude.{
  ltb→lt, ℕ, zero, suc, ◌+◌, ◌*◌, ◌%◌, ◌≤◌, ◌<◌, ◌≡◌, refl, List, [], ◌∷◌, arith, ltb, length, take,
  drop, inl, inr, ◌⊎◌, Bool-cases, length-take, length-drop,
}
use rivet_cache.Prelude.Lists.{Bytes}
use rivet_cache.Prelude.Words.{sat_add-le, sat_mul, u32_max, u64_max}
use rivet_cache.Prelude.Results.{ok, err, invalid_input}
use rivet_cache.Kv.{KvBlockKey}
use rivet_cache.Kv.Key.{from_prefix, prefix_material}
use rivet_cache.Kv.Capture.{
  KvCaptureRequest, div_ceil, as_u32, chunks, block_key, key_chunks, block_keys,
}

above_one : (a b : ℕ) → 0 < b → 0 < a % b → 1 < b
above_one a zero hb h = absurd (omega arith)
above_one a (suc zero) hb h = absurd (omega (arith, mod-one a))
above_one a (suc (suc b)) hb h = omega arith

some_of : (a b : ℕ) → 0 < a % b → 0 < a
some_of a b h = omega (arith, mod-le a b)

div_ceil-le_self : (a b : ℕ) → 0 < b → div_ceil a b ≤ a
unfolding div_ceil
div_ceil-le_self a b hb = elim (Bool-cases (ltb 0 (a % b))) [
  | inl rest ↦
      let left = ltb→lt 0 (a % b) rest in
      let many = above_one a b hb left in
      rw rest (omega (arith, div-lt_self {n = a} {k = b} (some_of a b left) many))
  | inr even ↦ rw even (div-le_self a b)
]

-- The keys of the blocks from `block_index` on, of which the first begins at the token `start`.
pub Cover : (Bytes → Bytes) → KvCaptureRequest → ℕ → ℕ → List KvBlockKey → Type 0
Cover sha256 request block_index start [] = start ≡ length request.tokens
Cover sha256 request block_index start (key ∷ keys) =
    (key.model_fingerprint ≡ request.model_fingerprint)
    × (key.block_index ≡ block_index)
    × (key.token_start ≡ start)
    × (0 < key.token_count)
    × (key.token_count ≤ request.block_tokens)
    × (key.sequence_hash ≡ sha256 (prefix_material (take (start + key.token_count) request.tokens)))
    × (key.layer_start ≡ request.layer_start)
    × (key.layer_count ≡ request.layer_count)
    × (key.layout_version ≡ request.layout_version)
    × Cover sha256 request (block_index + 1) (start + key.token_count) keys

sat_mul-exact : (a b c : ℕ) → a * b ≡ c → c ≤ u64_max → sat_mul a b ≡ c
unfolding sat_mul
sat_mul-exact a b c e h = rw e (omega arith)

as_u32-fits : (n : ℕ) → n ≤ u32_max → as_u32 n ≡ n
unfolding as_u32
as_u32-fits n h = omega arith

-- The key of a block that begins at `start` and holds `count` tokens.
key_at : (Bytes → Bytes) → KvCaptureRequest → ℕ → ℕ → ℕ → KvBlockKey
key_at sha256 request block_index start count = record {
  model_fingerprint = request.model_fingerprint;
  sequence_hash = sha256 (prefix_material (take (start + count) request.tokens));
  block_index = block_index;
  token_start = start;
  token_count = count;
  layer_start = request.layer_start;
  layer_count = request.layer_count;
  layout_version = request.layout_version;
}

block_key-key_at :
    (sha256 : Bytes → Bytes) (request : KvCaptureRequest) (block_index start : ℕ) (chunk : List ℕ)
    → block_index * request.block_tokens ≡ start
    → block_index ≤ start
    → start + length chunk ≤ u32_max
    → block_key sha256 request block_index chunk
      ≡ key_at sha256 request block_index start (length chunk)
unfolding block_key from_prefix key_at
block_key-key_at sha256 request block_index start chunk e hi hl = rw (
  sat_mul-exact block_index request.block_tokens start e (omega arith),
  sat_add-le start (length chunk) (omega arith),
  as_u32-fits block_index (omega arith),
  as_u32-fits start (omega arith),
  as_u32-fits (length chunk) (omega arith),
)

next_start : (i size start n : ℕ) → i * size ≡ start → n ≡ size → (i + 1) * size ≡ start + n
next_start i size start n e full = omega (arith, e, full)

key_chunks-Cover :
    (sha256 : Bytes → Bytes) (request : KvCaptureRequest) (fuel block_index start : ℕ)
    (rest : List ℕ)
    → 0 < request.block_tokens
    → length request.tokens ≤ u32_max
    → length rest ≤ fuel
    → start + length rest ≡ length request.tokens
    → block_index ≤ start
    → ((0 < length rest) → block_index * request.block_tokens ≡ start)
    → Cover sha256 request block_index start
        (key_chunks sha256 request block_index (chunks fuel request.block_tokens rest))
unfolding key_chunks chunks Cover key_at
key_chunks-Cover sha256 request fuel block_index start [] hb ht hf hs hi h = omega arith
key_chunks-Cover sha256 request zero block_index start (t ∷ ts) hb ht hf hs hi h =
    absurd (omega arith)
key_chunks-Cover sha256 request (suc fuel) block_index start (t ∷ ts) hb ht hf hs hi h =
    let chunk = take request.block_tokens (t ∷ ts) in
    let long = length-take request.block_tokens (t ∷ ts) in
    let left = length-drop request.block_tokens (t ∷ ts) in
    rw
      (
        block_key-key_at sha256 request block_index start chunk (h (omega arith)) hi (omega arith),
        key_at,
      )
      (
        refl,
        refl,
        refl,
        omega arith,
        omega arith,
        refl,
        refl,
        refl,
        refl,
        key_chunks-Cover sha256 request fuel (block_index + 1) (start + length chunk)
            (drop request.block_tokens (t ∷ ts)) hb ht (omega arith) (omega arith) (omega arith)
            (λ more.
              next_start block_index request.block_tokens start (length chunk) (h (omega arith))
                (omega arith)),
      )

-- A request with blocks of tokens, with layers and with at most 2^32 - 1 tokens gets its keys: blocks
-- of at most `block_tokens` tokens and none empty, one behind the other from the first token to the
-- last and numbered from 0, each with the digest of all tokens up to its end.
pub block_keys-Cover :
    (sha256 : Bytes → Bytes) (request : KvCaptureRequest)
    → 0 < request.block_tokens
    → 0 < request.layer_count
    → length request.tokens ≤ u32_max
    → (keys : List KvBlockKey) × (block_keys sha256 request ≡ ok keys)
      × Cover sha256 request 0 0 keys
unfolding block_keys
block_keys-Cover sha256 request hb hl ht =
    let few = div_ceil-le_self (length request.tokens) request.block_tokens hb in
    let covered =
      key_chunks-Cover sha256 request (length request.tokens) 0 0 request.tokens hb ht (omega arith)
        (omega arith) (omega arith) (λ more. omega arith) in
    (
      key_chunks sha256 request 0
          (chunks (length request.tokens) request.block_tokens request.tokens),
      ground arith,
      covered,
    )

-- Every other request is refused.
block_keys_invalid :
    (sha256 : Bytes → Bytes) (request : KvCaptureRequest)
    → ((request.block_tokens ≡ 0) ⊎ ((request.layer_count ≡ 0) ⊎ (u32_max < length request.tokens)))
    → block_keys sha256 request ≡ err invalid_input
unfolding block_keys
block_keys_invalid sha256 request h = ground arith
