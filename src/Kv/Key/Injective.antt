-- ===== src/Kv/Key/Injective.antt =====
-- Equal keys of the cache come from equal KV blocks, and equal sequence hashes from equal prefixes,
-- unless the digest collides.
use mathlib.Core.List.{append_assoc, append-nil}
use rivet_cache.Prelude.{
  ℕ, ◌≤◌, ◌≡◌, refl, sym, ap, ◌∙◌, List, [], ◌∷◌, ◌++◌, arith, length, ◌⊎◌, inl, inr,
}
use rivet_cache.Prelude.Lists.{Bytes, Bytes-discrete, All}
use rivet_cache.Prelude.Words.{
  u64_max, u32_max, to_le_bytes, from_le_bytes, from_le_bytes-to_le_bytes, length-to_le_bytes,
}
use rivet_cache.Policy.Keys.{Collision, append_cancel, prefixed_cancel}
use rivet_cache.Kv.{KvBlockKey, KvBlockRange}
use rivet_cache.Kv.Key.{
  kv_key_domain, write_len_prefixed, token_bytes, prefix_material, cache_key_material, from_prefix,
  cache_key,
}

-- A key that the source's types can hold: a hash of 32 bytes, words of 32 bits and a text of a
-- machine's length.
pub record FitsWords (key : KvBlockKey) : Type 0 where
  pub model_fits : length key.model_fingerprint ≤ u64_max
  pub hash_fits : length key.sequence_hash ≡ 32
  pub block_index_fits : key.block_index ≤ u32_max
  pub token_start_fits : key.token_start ≤ u32_max
  pub token_count_fits : key.token_count ≤ u32_max
  pub layer_start_fits : key.layer_start ≤ u32_max
  pub layer_count_fits : key.layer_count ≤ u32_max
  pub layout_version_fits : key.layout_version ≤ u32_max

word_cancel :
    (a b : ℕ) (r s : Bytes)
    → a ≤ u32_max
    → b ≤ u32_max
    → to_le_bytes 4 a ++ r ≡ to_le_bytes 4 b ++ s
    → (a ≡ b) × (r ≡ s)
word_cancel a b r s p q e =
    let (words, rest) =
      append_cancel (to_le_bytes 4 a) (to_le_bytes 4 b) r s
        (length-to_le_bytes 4 a ∙ sym (length-to_le_bytes 4 b)) e in
    (
      sym (from_le_bytes-to_le_bytes 4 a (omega arith))
          ∙ ap from_le_bytes words
          ∙ from_le_bytes-to_le_bytes 4 b (omega arith),
      rest,
    )

cache_key_material-nested :
    (k : KvBlockKey)
    → cache_key_material k
      ≡ kv_key_domain
        ++ (to_le_bytes 8 (length k.model_fingerprint)
            ++ (k.model_fingerprint
                ++ (k.sequence_hash
                    ++ (to_le_bytes 4 k.block_index
                        ++ (to_le_bytes 4 k.token_start
                            ++ (to_le_bytes 4 k.token_count
                                ++ (to_le_bytes 4 k.layer_start
                                    ++ (to_le_bytes 4 k.layer_count
                                        ++ (to_le_bytes 4 k.layout_version ++ [])))))))))
unfolding cache_key_material write_len_prefixed
cache_key_material-nested k = simp (append_assoc, append-nil)

-- Keys that the source's types can hold and that feed the digest equally are equal.
cache_key_material-injective :
    (k k' : KvBlockKey)
    → FitsWords k
    → FitsWords k'
    → cache_key_material k ≡ cache_key_material k'
    → k ≡ k'
cache_key_material-injective k k' f f' e =
    let e' = sym (cache_key_material-nested k) ∙ e ∙ cache_key_material-nested k' in
    let (_, texts) = append_cancel kv_key_domain kv_key_domain _ _ refl e' in
    let (model, r0) = prefixed_cancel _ _ _ _ f.model_fits f'.model_fits texts in
    let (hash, r1) = append_cancel _ _ _ _ (f.hash_fits ∙ sym f'.hash_fits) r0 in
    let (i, r2) = word_cancel _ _ _ _ f.block_index_fits f'.block_index_fits r1 in
    let (s, r3) = word_cancel _ _ _ _ f.token_start_fits f'.token_start_fits r2 in
    let (c, r4) = word_cancel _ _ _ _ f.token_count_fits f'.token_count_fits r3 in
    let (ls, r5) = word_cancel _ _ _ _ f.layer_start_fits f'.layer_start_fits r4 in
    let (lc, r6) = word_cancel _ _ _ _ f.layer_count_fits f'.layer_count_fits r5 in
    let (v, _) = word_cancel _ _ [] [] f.layout_version_fits f'.layout_version_fits r6 in cc

-- Equal cache keys come from equal block keys, or exhibit a collision of the digest. The encoder is
-- one that can be read back, and the keys are ones that the source's types can hold.
pub cache_key-injective :
    (sha256 hex_encode : Bytes → Bytes)
    → ((x y : Bytes) → hex_encode x ≡ hex_encode y → x ≡ y)
    → (k k' : KvBlockKey) → FitsWords k
    → FitsWords k'
    → cache_key sha256 hex_encode k ≡ cache_key sha256 hex_encode k'
    → (k ≡ k') ⊎ Collision sha256
unfolding cache_key
cache_key-injective sha256 hex_encode readable k k' f f' e =
    elim (Bytes-discrete (cache_key_material k) (cache_key_material k')) [
      | yes same ↦ inl (cache_key_material-injective k k' f f' same)
      | no other ↦ inr (cache_key_material k, cache_key_material k', other, readable _ _ e)
    ]

token_bytes-injective :
    (ts us : List ℕ)
    → All (λ t. t ≤ u32_max) ts
    → All (λ t. t ≤ u32_max) us
    → length ts ≡ length us
    → token_bytes ts ≡ token_bytes us
    → ts ≡ us
unfolding token_bytes
token_bytes-injective [] [] ft fu l e = refl
token_bytes-injective [] (u ∷ us) ft fu l e = absurd (omega arith)
token_bytes-injective (t ∷ ts) [] ft fu l e = absurd (omega arith)
token_bytes-injective (t ∷ ts) (u ∷ us) (ft, fts) (fu, fus) l e =
    let (same, rest) = word_cancel t u (token_bytes ts) (token_bytes us) ft fu e in
    let tails = token_bytes-injective ts us fts fus (omega arith) rest in cc

prefix_material-nested :
    (ts : List ℕ)
    → prefix_material ts ≡ kv_key_domain ++ (to_le_bytes 8 (length ts) ++ token_bytes ts)
unfolding prefix_material
prefix_material-nested ts = append_assoc kv_key_domain (to_le_bytes 8 (length ts)) (token_bytes ts)

prefix_material-injective :
    (ts us : List ℕ)
    → All (λ t. t ≤ u32_max) ts
    → All (λ t. t ≤ u32_max) us
    → length ts ≤ u64_max
    → length us ≤ u64_max
    → prefix_material ts ≡ prefix_material us
    → ts ≡ us
prefix_material-injective ts us ft fu lt lu e =
    let e' = sym (prefix_material-nested ts) ∙ e ∙ prefix_material-nested us in
    let (_, words) = append_cancel kv_key_domain kv_key_domain _ _ refl e' in
    let (lengths, rest) =
      append_cancel (to_le_bytes 8 (length ts)) (to_le_bytes 8 (length us)) _ _
        (length-to_le_bytes 8 (length ts) ∙ sym (length-to_le_bytes 8 (length us))) words in
    let equal =
      sym (from_le_bytes-to_le_bytes 8 (length ts) (omega arith))
      ∙ ap from_le_bytes lengths
      ∙ from_le_bytes-to_le_bytes 8 (length us) (omega arith) in
    token_bytes-injective ts us ft fu equal rest

-- Blocks whose sequence hashes are equal have the same whole prefix of tokens, or exhibit a
-- collision of the digest. The tokens are words of 32 bits.
from_prefix-injective :
    (sha256 : Bytes → Bytes) (model model' : Bytes) (range range' : KvBlockRange) (ts us : List ℕ)
    → All (λ t. t ≤ u32_max) ts
    → All (λ t. t ≤ u32_max) us
    → length ts ≤ u64_max
    → length us ≤ u64_max
    → (from_prefix sha256 model ts range).sequence_hash
      ≡ (from_prefix sha256 model' us range').sequence_hash
    → (ts ≡ us) ⊎ Collision sha256
unfolding from_prefix
from_prefix-injective sha256 model model' range range' ts us ft fu lt lu e =
    elim (Bytes-discrete (prefix_material ts) (prefix_material us)) [
      | yes same ↦ inl (prefix_material-injective ts us ft fu lt lu same)
      | no other ↦ inr (prefix_material ts, prefix_material us, other, e)
    ]
