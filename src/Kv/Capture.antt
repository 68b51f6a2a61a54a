-- ===== src/Kv/Capture.antt =====
-- src/kv.rs: `KvCaptureRequest::block_keys`, the identities of the blocks of a token sequence.
pub mod Cover
use rivet_cache.Prelude.{
  ℕ, zero, suc, ◌+◌, ◌/◌, ◌%◌, ◌^◌, List, [], ◌∷◌, if◌then◌else◌, ltb, ◌==◌, length, take, drop,
}
use rivet_cache.Prelude.Lists.{Bytes}
use rivet_cache.Prelude.Words.{sat_add, sat_mul, u32_max}
use rivet_cache.Prelude.Results.{Result, ok, err, invalid_input}
use rivet_cache.Kv.{KvBlockKey, KvBlockRange}
use rivet_cache.Kv.Key.{from_prefix}

pub record KvCaptureRequest : Type 0 where
  pub model_fingerprint : Bytes
  pub tokens : List ℕ
  pub block_tokens : ℕ
  pub layer_start : ℕ
  pub layer_count : ℕ
  pub layout_version : ℕ

-- `usize::div_ceil`.
unfoldable pub div_ceil : ℕ → ℕ → ℕ
div_ceil a b = if ltb 0 (a % b) then a / b + 1 else a / b

-- `as u32`.
unfoldable pub as_u32 : ℕ → ℕ
as_u32 n = n % 2 ^ 32

-- `slice::chunks` of a positive size: the fuel is the length of the list, since every chunk takes an
-- element at least.
unfoldable pub chunks : ℕ → ℕ → List ℕ → List (List ℕ)
chunks fuel size [] = []
chunks zero size (t ∷ ts) = []
chunks (suc fuel) size (t ∷ ts) = take size (t ∷ ts) ∷ chunks fuel size (drop size (t ∷ ts))

unfoldable pub block_key : (Bytes → Bytes) → KvCaptureRequest → ℕ → List ℕ → KvBlockKey
block_key sha256 request block_index chunk =
    let token_start = sat_mul block_index request.block_tokens in
    let prefix_end = sat_add token_start (length chunk) in
    from_prefix sha256 request.model_fingerprint (take prefix_end request.tokens) (record {
      block_index = as_u32 block_index;
      token_start = as_u32 token_start;
      token_count = as_u32 (length chunk);
      layer_start = request.layer_start;
      layer_count = request.layer_count;
      layout_version = request.layout_version;
    })

unfoldable pub key_chunks : (Bytes → Bytes) → KvCaptureRequest → ℕ → List (List ℕ) → List KvBlockKey
key_chunks sha256 request block_index [] = []
key_chunks sha256 request block_index (chunk ∷ rest) =
    block_key sha256 request block_index chunk ∷ key_chunks sha256 request (block_index + 1) rest

unfoldable pub block_keys : (Bytes → Bytes) → KvCaptureRequest → Result (List KvBlockKey)
block_keys sha256 request =
    if request.block_tokens == 0
    then err invalid_input
    else if request.layer_count == 0
    then err invalid_input
    else if ltb u32_max (length request.tokens)
    then err invalid_input
    else if ltb u32_max (div_ceil (length request.tokens) request.block_tokens)
    then err invalid_input
    else ok (
        key_chunks sha256 request 0
          (chunks (length request.tokens) request.block_tokens request.tokens))
