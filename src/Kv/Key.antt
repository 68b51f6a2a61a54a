-- ===== src/Kv/Key.antt =====
-- src/kv.rs: the identity of a KV block. The digest `sha256` and the encoder `hex_encode` are
-- third-party code.
pub mod Injective
use rivet_cache.Prelude.{ℕ, List, [], ◌∷◌, ◌++◌, length}
use rivet_cache.Prelude.Lists.{Bytes, codes}
use rivet_cache.Prelude.Words.{to_le_bytes}
use rivet_cache.Kv.{KvBlockRange, KvBlockKey}

-- `KV_KEY_DOMAIN`.
abbrev pub kv_key_domain : Bytes
kv_key_domain = codes "RIVET_KV_V1" ++ 0 ∷ []

unfoldable pub write_len_prefixed : Bytes → Bytes → Bytes
write_len_prefixed hashed bytes = hashed ++ to_le_bytes 8 (length bytes) ++ bytes

-- The tokens, four bytes each.
unfoldable pub token_bytes : List ℕ → Bytes
token_bytes [] = []
token_bytes (token ∷ tokens) = to_le_bytes 4 token ++ token_bytes tokens

-- What `from_prefix` feeds to the digest.
unfoldable pub prefix_material : List ℕ → Bytes
prefix_material tokens = kv_key_domain ++ to_le_bytes 8 (length tokens) ++ token_bytes tokens

-- What `cache_key` feeds to the digest.
unfoldable pub cache_key_material : KvBlockKey → Bytes
cache_key_material key =
    write_len_prefixed kv_key_domain key.model_fingerprint
    ++ key.sequence_hash
    ++ to_le_bytes 4 key.block_index
    ++ to_le_bytes 4 key.token_start
    ++ to_le_bytes 4 key.token_count
    ++ to_le_bytes 4 key.layer_start
    ++ to_le_bytes 4 key.layer_count
    ++ to_le_bytes 4 key.layout_version

unfoldable pub from_prefix : (Bytes → Bytes) → Bytes → List ℕ → KvBlockRange → KvBlockKey
from_prefix sha256 model_fingerprint prefix_tokens range = record {
  model_fingerprint = model_fingerprint;
  sequence_hash = sha256 (prefix_material prefix_tokens);
  block_index = range.block_index;
  token_start = range.token_start;
  token_count = range.token_count;
  layer_start = range.layer_start;
  layer_count = range.layer_count;
  layout_version = range.layout_version;
}

unfoldable pub cache_key : (Bytes → Bytes) → (Bytes → Bytes) → KvBlockKey → Bytes
cache_key sha256 hex_encode key = hex_encode (sha256 (cache_key_material key))
