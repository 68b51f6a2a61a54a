-- ===== src/Kv.antt =====
-- src/kv.rs: the KV blocks and the entries of a tier.
pub mod Envelope
pub mod Key
pub mod Prefix
pub mod Capture
pub mod Engine
pub mod CacheTier
mod Tests
use rivet_cache.Prelude.{ℕ, ℕ_discrete, Bool, List, [], ◌∷◌, if◌then◌else◌, length, ◌==◌}
use rivet_cache.Prelude.Lists.{Bytes, Bytes-discrete}
use rivet_cache.Prelude.Results.{Result, ok, err, invalid_input}

pub record KvBlockRange : Type 0 where
  pub block_index : ℕ
  pub token_start : ℕ
  pub token_count : ℕ
  pub layer_start : ℕ
  pub layer_count : ℕ
  pub layout_version : ℕ

pub record KvBlockKey : Type 0 where
  pub model_fingerprint : Bytes
  pub sequence_hash : Bytes
  pub block_index : ℕ
  pub token_start : ℕ
  pub token_count : ℕ
  pub layer_start : ℕ
  pub layer_count : ℕ
  pub layout_version : ℕ

unfoldable pub KvBlockKey-discrete : Discrete KvBlockKey
KvBlockKey-discrete = hlevel (ℕ_discrete, Bytes-discrete)

pub record KvBlock : Type 0 where
  pub key : KvBlockKey
  pub bytes : Bytes

-- `KvBlock::new`.
unfoldable pub new_block : KvBlockKey → Bytes → Result KvBlock
new_block key bytes =
    if length bytes == 0 then err invalid_input else ok (record { key = key; bytes = bytes })

pub record KvTierEntry : Type 0 where
  pub block : KvBlock
  pub expires_at : ℕ
  pub pinned : Bool
