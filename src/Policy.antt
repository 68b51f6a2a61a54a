-- ===== src/Policy.antt =====
-- src/policy.rs: keys, eviction and telemetry. SHA-256 (crate sha2) and `hex::encode` are the
-- parameters `sha256` and `hex_encode`; the digest state is the text fed to it so far, so
-- `update` appends. `SystemClock` is outside: each operation takes the second it runs at.
pub mod Keys
pub mod Lru
mod Tests
use rivet_cache.Prelude.{
  ℕ, zero, suc, ◌+◌, Bool, true, false, ◌&&◌, ◌||◌, List, [], ◌∷◌, ◌++◌, Option, none, some, ltb,
  leb, ◌==◌, if◌then◌else◌, length,
}
use rivet_cache.Prelude.Lists.{Bytes, codes}
use rivet_cache.Prelude.Words.{to_le_bytes}
use rivet_cache.Prelude.Results.{Result, ok, err, invalid_input}

unfoldable pub update_length_prefixed : Bytes → Bytes → Bytes
update_length_prefixed digest value = (digest ++ to_le_bytes 8 (length value)) ++ value

abbrev domain : Bytes
domain = codes "RIVET_CACHE_V1" ++ 0 ∷ []

-- What `Sha256KeyStrategy::make_key` feeds to the digest.
unfoldable pub key_material : Bytes → Bytes → Bytes → Bytes
unfolding update_length_prefixed
key_material namespace model_fingerprint payload =
    let named = update_length_prefixed domain namespace in
    let modelled = update_length_prefixed named model_fingerprint in
    update_length_prefixed modelled payload

unfoldable pub make_key : (Bytes → Bytes) → (Bytes → Bytes) → Bytes → Bytes → Bytes → Bytes
make_key sha256 hex_encode namespace model_fingerprint payload =
    hex_encode (sha256 (key_material namespace model_fingerprint payload))

abbrev within : ℕ → ℕ → ℕ → Bool
within lo hi c = leb lo c && leb c hi

pub is_key_byte : ℕ → Bool
is_key_byte byte = within b'0' b'9' byte || within b'a' b'f' byte

pub all_key_bytes : Bytes → Bool
all_key_bytes [] = true
all_key_bytes (b ∷ bs) = is_key_byte b && all_key_bytes bs

unfoldable pub validate : Bytes → Result (Unit {0})
unfolding all_key_bytes is_key_byte
validate key = if length key == 64 && all_key_bytes key then ok tt else err invalid_input

pub record EvictionCandidate : Type 0 where
  pub key : Bytes
  pub last_access : ℕ
  pub size_bytes : ℕ

-- `EvictionPolicy::choose_victim`, an injected component.
abbrev pub EvictionPolicy : Type 0
EvictionPolicy = List EvictionCandidate → Option ℕ

-- `min_by_key` keeps the first of equal keys; `i` is the counter of `enumerate`.
pub least_from : ℕ → ℕ → ℕ → List EvictionCandidate → ℕ
least_from i best access [] = best
least_from i best access (c ∷ cs) =
    least_from (i + 1) (if ltb c.last_access access then i else best)
      (if ltb c.last_access access then c.last_access else access) cs

-- `LruEviction`.
unfoldable pub choose_victim : EvictionPolicy
unfolding least_from
choose_victim [] = none
choose_victim (c ∷ cs) = some (least_from 1 0 c.last_access cs)

pub data CacheEvent : Type 0 where
  memory_hit persistent_hit miss write clear : CacheEvent
  memory_eviction persistent_eviction expiration corruption invalidation : ℕ → CacheEvent
