-- ===== src/Kv/Envelope.antt =====
-- src/kv.rs: the envelope around a tier entry. `usize` has 64 bits, so the cast of the payload length
-- changes nothing.
pub mod RoundTrip
use rivet_cache.Prelude.{
  ℕ, ◌+◌, ◌-◌, Bool, true, false, not, ◌||◌, List, [], ◌∷◌, ◌++◌, Option, none, some, length,
  get_elem?, take, drop, ltb, leb, ◌==◌, holds, if◌then◌else◌,
}
use rivet_cache.Prelude.Lists.{Bytes, Bytes-discrete, codes}
use rivet_cache.Prelude.Words.{sat_add, to_le_bytes, from_le_bytes}
use rivet_cache.Prelude.Results.{
  Result, ok, err, ◌>>=◌, invalid_input, invalid_data, unexpected_eof,
}
use rivet_cache.Kv.{KvBlockKey, KvTierEntry}

-- `TIER_ENVELOPE_MAGIC`.
abbrev pub magic : Bytes
magic = codes "RKV01\n"

abbrev pub flag : Bool → ℕ
flag false = 0
flag true = 1

unfoldable pub encode_tier_entry : KvTierEntry → Result Bytes
encode_tier_entry entry =
    if length entry.block.bytes == 0
    then err invalid_input
    else ok (
        magic
        ++ (to_le_bytes 8 entry.expires_at
            ++ (flag entry.pinned
                ∷ (to_le_bytes 8 (length entry.block.bytes) ++ entry.block.bytes))))

-- The word at the cursor, and the cursor behind it.
unfoldable pub read_u64 : Bytes → ℕ → Result (ℕ × ℕ)
unfolding sat_add
read_u64 bytes cursor =
    let end_ = sat_add cursor 8 in
    if leb end_ (length bytes)
    then ok (from_le_bytes (take (end_ - cursor) (drop cursor bytes)), end_)
    else err unexpected_eof

unfoldable pub read_flag : Option ℕ → Result Bool
read_flag none = err invalid_data
read_flag (some byte) =
    if byte == 0 then ok false else if byte == 1 then ok true else err invalid_data

-- The entry of the fields that were read, with the payload behind the cursor.
unfoldable pub finish_entry : KvBlockKey → Bytes → ℕ → Bool → ℕ → ℕ → Result KvTierEntry
finish_entry key encoded expires_at pinned payload_len cursor =
    if not (length encoded - cursor == payload_len) || payload_len == 0
    then err invalid_data
    else ok (record {
      block = record { key = key; bytes = drop cursor encoded };
      expires_at = expires_at;
      pinned = pinned;
    })

unfoldable pub decode_tier_entry : KvBlockKey → Bytes → Result KvTierEntry
decode_tier_entry key encoded =
    if ltb (length encoded) (length magic + 8 + 1 + 8)
      || not (holds (Bytes-discrete (take (length magic) encoded) magic))
    then err invalid_data
    else (do
      (expires_at, at_flag) ← read_u64 encoded (length magic)
      pinned ← read_flag (get_elem? encoded at_flag)
      (payload_len, cursor) ← read_u64 encoded (at_flag + 1)
      finish_entry key encoded expires_at pinned payload_len cursor)
