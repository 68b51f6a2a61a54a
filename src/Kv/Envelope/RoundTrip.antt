-- ===== src/Kv/Envelope/RoundTrip.antt =====
-- Decoding an encoded entry gives it back.
use rivet_cache.Prelude.{
  ℕ, ◌+◌, ◌-◌, ◌≤◌, ◌≡◌, refl, Bool, true, false, [], ◌∷◌, ◌++◌, some, arith, length, get_elem?,
  take, drop, ltb, ◌==◌, holds, inl, inr, Bool-cases, le→leb, length-append,
}
use rivet_cache.Prelude.Lists.{Bytes, Bytes-discrete, take_of_append, drop_of_append}
use rivet_cache.Prelude.Words.{
  sat_add-le, u64_max, to_le_bytes, from_le_bytes-to_le_bytes, length-to_le_bytes,
}
use rivet_cache.Prelude.Results.{ok}
use rivet_cache.Kv.{KvBlockKey, KvTierEntry}
use rivet_cache.Kv.Envelope.{
  magic, flag, encode_tier_entry, read_u64, read_flag, finish_entry, decode_tier_entry,
}

add_sub : (a b : ℕ) → a + b - a ≡ b
add_sub a b = omega arith

==_self : (a : ℕ) → (a == a) ≡ true
==_self a = ground arith

lt-false : (a b : ℕ) → b ≤ a → ltb a b ≡ false
lt-false a b h = ground arith

positive : {a : ℕ} → 1 ≤ a → (a == 0) ≡ false
positive h = ground arith

-- A word behind a prefix is read at the length of the prefix.
read_u64_at :
    (before after : Bytes) (n : ℕ)
    → length before + 8 ≤ u64_max
    → n ≤ u64_max
    → read_u64 (before ++ (to_le_bytes 8 n ++ after)) (length before) ≡ ok (n, length before + 8)
unfolding read_u64
read_u64_at before after n hb hn =
    let word_length = length-to_le_bytes 8 n in
    let all_length = length-append before (to_le_bytes 8 n ++ after) in
    let tail_length = length-append (to_le_bytes 8 n) after in
    rw (
      sat_add-le (length before) 8 hb,
      le→leb (length before + 8) (length (before ++ (to_le_bytes 8 n ++ after))) (omega arith),
      drop_of_append (length before) before (to_le_bytes 8 n ++ after) refl,
      add_sub (length before) 8,
      take_of_append 8 (to_le_bytes 8 n) after word_length,
      from_le_bytes-to_le_bytes 8 n (omega arith),
    )

read_flag-flag : (b : Bool) → read_flag (some (flag b)) ≡ ok b
unfolding read_flag
read_flag-flag true = refl
read_flag-flag false = refl

-- The envelope without the test of the payload.
envelope : ℕ → Bool → Bytes → Bytes
envelope e pinned payload =
    magic ++ (to_le_bytes 8 e ++ (flag pinned ∷ (to_le_bytes 8 (length payload) ++ payload)))

module _ (e : ℕ) (pinned : Bool) (payload : Bytes) (he : e ≤ u64_max)
    (hl : length payload ≤ u64_max) where
  read_expires_at : read_u64 (envelope e pinned payload) 6 ≡ ok (e, 14)
  unfolding envelope
  read_expires_at = read_u64_at magic _ e (omega arith) he

  get_flag : get_elem? (envelope e pinned payload) 14 ≡ some (flag pinned)
  unfolding envelope to_le_bytes
  get_flag = refl

  read_payload_len : read_u64 (envelope e pinned payload) 15 ≡ ok (length payload, 23)
  unfolding envelope to_le_bytes
  read_payload_len =
      read_u64_at (magic ++ (to_le_bytes 8 e ++ (flag pinned ∷ []))) payload (length payload)
        (omega arith) hl

  drop_header : drop 23 (envelope e pinned payload) ≡ payload
  unfolding envelope to_le_bytes
  drop_header = refl

  length-envelope : length (envelope e pinned payload) ≡ 23 + length payload
  unfolding envelope to_le_bytes
  length-envelope = omega arith

  magic_first : holds (Bytes-discrete (take 6 (envelope e pinned payload)) magic) ≡ true
  unfolding envelope to_le_bytes Bytes-discrete
  magic_first = refl

  finish_entry-payload :
      (key : KvBlockKey)
      → 1 ≤ length payload
      → finish_entry key (envelope e pinned payload) e pinned (length payload) 23
        ≡ ok (record {
          block = record { key = key; bytes = payload };
          expires_at = e;
          pinned = pinned;
        })
  unfolding finish_entry
  finish_entry-payload key h = rw (
    length-envelope,
    add_sub 23 (length payload),
    ==_self (length payload),
    positive h,
    drop_header,
  )

  decode-envelope :
      (key : KvBlockKey)
      → 1 ≤ length payload
      → decode_tier_entry key (envelope e pinned payload)
        ≡ ok (record {
          block = record { key = key; bytes = payload };
          expires_at = e;
          pinned = pinned;
        })
  unfolding decode_tier_entry
  decode-envelope key h = rw (
    length-envelope,
    lt-false (23 + length payload) 23 (omega arith),
    magic_first,
    read_expires_at,
    get_flag,
    read_flag-flag pinned,
    read_payload_len,
    finish_entry-payload key h,
  )

encode-inversion :
    (entry : KvTierEntry) (encoded : Bytes)
    → encode_tier_entry entry ≡ ok encoded
    → (1 ≤ length entry.block.bytes)
      × (encoded ≡ envelope entry.expires_at entry.pinned entry.block.bytes)
unfolding encode_tier_entry envelope
encode-inversion entry encoded h = elim (Bool-cases (length entry.block.bytes == 0)) [
  | inl q ↦ absurd (grind arith)
  | inr q ↦ (ground arith, grind arith)
]

-- An entry within the bounds of its fields is read back from its encoding: key, payload, expiry and
-- pin.
pub decode-encode :
    (entry : KvTierEntry) (encoded : Bytes)
    → entry.expires_at ≤ u64_max
    → length entry.block.bytes ≤ u64_max
    → encode_tier_entry entry ≡ ok encoded
    → decode_tier_entry entry.block.key encoded ≡ ok entry
decode-encode entry encoded he hl h =
    let payload = entry.block.bytes in
    let (some_payload, is_envelope) = encode-inversion entry encoded h in
    let read =
      decode-envelope entry.expires_at entry.pinned payload he hl entry.block.key some_payload in
    rw (is_envelope, read)
