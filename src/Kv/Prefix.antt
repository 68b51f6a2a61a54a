-- ===== src/Kv/Prefix.antt =====
-- src/kv.rs: `PrefixIndex`, the registered token prefixes in the order of their registration. Its
-- mutex is not modelled: nothing panics while it is held.
pub mod Longest
pub mod Register
use rivet_cache.Prelude.{
  ℕ, ◌+◌, ◌-◌, Bool, true, false, not, ◌&&◌, ◌||◌, List, [], ◌∷◌, ◌++◌, Option, none, some,
  if◌then◌else◌, leb, holds, length, take, retain,
}
use rivet_cache.Prelude.Lists.{Bytes, Bytes-discrete}
use rivet_cache.Prelude.Results.{Result, ok, err, invalid_input}
use rivet_cache.Prelude.States.{Op}
use rivet_cache.Kv.{KvBlockKey}

abbrev pub Tokens : Type 0
Tokens = List ℕ

pub record PrefixMatch : Type 0 where
  pub matched_tokens : ℕ
  pub block_keys : List KvBlockKey

pub record PrefixRecord : Type 0 where
  pub model_fingerprint : Bytes
  pub tokens : Tokens
  pub block_keys : List KvBlockKey

abbrev pub PrefixIndex : Type 0
PrefixIndex = List PrefixRecord

abbrev pub is_empty {ℓ} : {A : Type ℓ} → List A → Bool
is_empty [] = true
is_empty (x ∷ xs) = false

abbrev pub same : List ℕ → List ℕ → Bool
same a b = holds (Bytes-discrete a b)

-- A key of another model than the registered one.
unfoldable pub any_foreign : Bytes → List KvBlockKey → Bool
any_foreign model [] = false
any_foreign model (key ∷ keys) = not (same key.model_fingerprint model) || any_foreign model keys

unfoldable pub other_prefix : Bytes → Tokens → PrefixRecord → Bool
other_prefix model tokens r = not (same r.model_fingerprint model) || not (same r.tokens tokens)

unfoldable pub register : Bytes → Tokens → List KvBlockKey → Op PrefixIndex (Unit {0})
register model tokens block_keys records =
    if is_empty tokens || is_empty block_keys
    then (err invalid_input, records)
    else if any_foreign model block_keys
    then (err invalid_input, records)
    else (
      ok tt,
      retain (other_prefix model tokens) records
          ++ record { model_fingerprint = model; tokens = tokens; block_keys = block_keys } ∷ [],
    )

unfoldable pub starts_with : Tokens → Tokens → Bool
starts_with tokens prefix =
    leb (length prefix) (length tokens) && same (take (length prefix) tokens) prefix

unfoldable pub candidate : Bytes → Tokens → PrefixRecord → Bool
candidate model tokens r = same r.model_fingerprint model && starts_with tokens r.tokens

unfoldable pub longer : PrefixRecord → PrefixRecord → PrefixRecord
longer b r = if leb (length b.tokens) (length r.tokens) then r else b

-- `max_by_key` with the length as the key: of equally long records the last one.
unfoldable pub max_by_length : Option PrefixRecord → List PrefixRecord → Option PrefixRecord
max_by_length best [] = best
max_by_length none (r ∷ rs) = max_by_length (some r) rs
max_by_length (some b) (r ∷ rs) = max_by_length (some (longer b r)) rs

abbrev pub to_match : Option PrefixRecord → Option PrefixMatch
to_match none = none
to_match (some r) = some (record { matched_tokens = length r.tokens; block_keys = r.block_keys })

unfoldable pub longest_prefix : Bytes → Tokens → PrefixIndex → Option PrefixMatch
longest_prefix model tokens records =
    to_match (max_by_length none (retain (candidate model tokens) records))

unfoldable pub other_model : Bytes → PrefixRecord → Bool
other_model model r = not (same r.model_fingerprint model)

unfoldable pub remove_model : Bytes → Op PrefixIndex ℕ
remove_model model records =
    let kept = retain (other_model model) records in (ok (length records - length kept), kept)
