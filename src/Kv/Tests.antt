-- ===== src/Kv/Tests.antt =====
-- Runs of src/kv.rs, and its theorems at concrete inputs.
use mathlib.Core.List.{Memᴰ}
use rivet_cache.Prelude.{
  Bytes-discrete, retain, ap, ℕ, ◌≤◌, ◌≡◌, ◌⊎◌, refl, true, List, [], ◌∷◌, ◌++◌, some, none, arith,
  replicate, length,
}
use rivet_cache.Prelude.Lists.{Bytes, Bytes-discrete, codes, retain}
use rivet_cache.Prelude.Words.{to_le_bytes}
use rivet_cache.Prelude.Results.{ok}
use rivet_cache.Policy.Keys.{Collision}
use rivet_cache.Kv.{KvBlockKey, KvBlockRange, KvTierEntry}
use rivet_cache.Kv.Envelope.{encode_tier_entry, decode_tier_entry}
use rivet_cache.Kv.Envelope.RoundTrip.{decode-encode}
use rivet_cache.Kv.Key.Injective.{FitsWords, cache_key-injective}
use rivet_cache.Kv.Prefix.{
  longer, candidate, starts_with, max_by_length, other_prefix, any_foreign, PrefixMatch,
  PrefixRecord, PrefixIndex, register, longest_prefix,
}
use rivet_cache.Kv.Prefix.Longest.{IsPrefixOf, longest_prefix-source, longest_prefix-IsLongest}
use rivet_cache.Kv.Prefix.Register.{longest_prefix-register}
use rivet_cache.Kv.Capture.{KvCaptureRequest, block_keys}
use rivet_cache.Kv.Capture.Cover.{Cover, block_keys-Cover}

abbrev key : KvBlockKey
key = record {
  model_fingerprint = codes "m";
  sequence_hash = replicate 32 7;
  block_index = 1;
  token_start = 2;
  token_count = 2;
  layer_start = 0;
  layer_count = 4;
  layout_version = 1;
}

abbrev entry : KvTierEntry
entry = record {
  block = record { key = key; bytes = 1 ∷ 2 ∷ 3 ∷ [] };
  expires_at = 300;
  pinned = true;
}

abbrev sent : Bytes
sent =
    codes "RKV01\n"
    ++ (44 ∷ 1 ∷ 0 ∷ 0 ∷ 0 ∷ 0 ∷ 0 ∷ 0 ∷ 1 ∷ 3 ∷ 0 ∷ 0 ∷ 0 ∷ 0 ∷ 0 ∷ 0 ∷ 0 ∷ 1 ∷ 2 ∷ 3 ∷ [])

encode_runs : encode_tier_entry entry ≡ ok sent
unfolding encode_tier_entry to_le_bytes
encode_runs = refl

decode-encode_example : decode_tier_entry key sent ≡ ok entry
decode-encode_example = decode-encode entry sent (omega arith) (omega arith) encode_runs

-- A digest that keeps its input, and an encoder that does.
abbrev as_is : Bytes → Bytes
as_is x = x

key_fits : FitsWords key
key_fits = record {
  model_fits = omega arith;
  hash_fits = refl;
  block_index_fits = omega arith;
  token_start_fits = omega arith;
  token_count_fits = omega arith;
  layer_start_fits = omega arith;
  layer_count_fits = omega arith;
  layout_version_fits = omega arith;
}

cache_key-injective_example : (key ≡ key) ⊎ Collision as_is
cache_key-injective_example =
    cache_key-injective as_is as_is (λ x y h. h) key key key_fits key_fits refl

abbrev range : KvBlockRange
range = record {
  block_index = 0;
  token_start = 0;
  token_count = 2;
  layer_start = 0;
  layer_count = 4;
  layout_version = 1;
}

abbrev request : KvCaptureRequest
request = record {
  model_fingerprint = codes "m";
  tokens = 5 ∷ 6 ∷ 7 ∷ [];
  block_tokens = 2;
  layer_start = 0;
  layer_count = 4;
  layout_version = 1;
}

block_keys-Cover_example :
    (keys : List KvBlockKey) × (block_keys as_is request ≡ ok keys) × Cover as_is request 0 0 keys
block_keys-Cover_example = block_keys-Cover as_is request (omega arith) (omega arith) (omega arith)

abbrev short : PrefixRecord
short = record { model_fingerprint = codes "m"; tokens = 5 ∷ []; block_keys = key ∷ [] }

abbrev long : PrefixRecord
long = record { model_fingerprint = codes "m"; tokens = 5 ∷ 6 ∷ []; block_keys = key ∷ key ∷ [] }

abbrev index : PrefixIndex
index = long ∷ short ∷ []

abbrev query : List ℕ
query = 5 ∷ 6 ∷ 7 ∷ []

abbrev long_answer : PrefixMatch
long_answer = record { matched_tokens = 2; block_keys = key ∷ key ∷ [] }

longest_prefix_runs :
    (longest_prefix (codes "m") query index ≡ some long_answer)
    × (longest_prefix (codes "n") query index ≡ none)
    × (longest_prefix (codes "m") (6 ∷ []) index ≡ none)
unfolding longest_prefix candidate starts_with max_by_length longer retain Bytes-discrete
longest_prefix_runs = (refl, refl, refl)

longest_prefix-source_example :
    (r : PrefixRecord) × Memᴰ r index
    × IsPrefixOf r (codes "m") query
    × (long_answer ≡ record { matched_tokens = length r.tokens; block_keys = r.block_keys })
longest_prefix-source_example =
    longest_prefix-source (codes "m") query index long_answer longest_prefix_runs.0

short_fits : IsPrefixOf short (codes "m") query
unfolding IsPrefixOf
short_fits = (refl, 6 ∷ 7 ∷ [], refl)

longest_prefix-IsLongest_example :
    (found : PrefixMatch) × (longest_prefix (codes "m") query index ≡ some found)
    × (1 ≤ found.matched_tokens)
longest_prefix-IsLongest_example =
    longest_prefix-IsLongest (codes "m") query index short (Memᴰ.tail (Memᴰ.head refl)) short_fits

-- The keys of a prefix that is registered again are replaced.
register_runs :
    register (codes "m") (5 ∷ 6 ∷ []) (key ∷ []) index
    ≡ (ok tt, short ∷ record long { block_keys = key ∷ [] } ∷ [])
unfolding register retain other_prefix any_foreign Bytes-discrete
register_runs = refl

longest_prefix-register_example :
    longest_prefix (codes "m") (5 ∷ 6 ∷ []) (register (codes "m") (5 ∷ 6 ∷ []) (key ∷ []) index).1
    ≡ some (record { matched_tokens = 2; block_keys = key ∷ [] })
longest_prefix-register_example =
    longest_prefix-register (codes "m") (5 ∷ 6 ∷ []) (key ∷ []) index (ap (λ r. r.0) register_runs)
