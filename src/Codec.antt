-- ===== src/Codec.antt =====
-- src/codec.rs: `RleCodec`. A run length is kept in a byte.
pub mod RoundTrip
mod Tests
use rivet_cache.Prelude.{
  ℕ, suc, ◌+◌, ◌%◌, Bool, true, false, not, ◌||◌, ◌&&◌, List, [], ◌∷◌, ◌++◌, ltb, ◌==◌,
  if◌then◌else◌, length, replicate,
}
use rivet_cache.Prelude.Lists.{Bytes}
use rivet_cache.Prelude.Words.{sat_add}
use rivet_cache.Prelude.Results.{Result, ok, err, invalid_data}

-- The two loops of `encode`: `run` bytes `byte` are counted, and stand before the rest of the input.
unfoldable pub encode_run : ℕ → ℕ → Bytes → Bytes
encode_run byte run [] = run % 256 ∷ byte ∷ []
encode_run byte run (b ∷ bs) = elim (b == byte && ltb run 255) [
  | true ↦ encode_run byte (suc run) bs
  | false ↦ run % 256 ∷ byte ∷ encode_run b 1 bs
]

unfoldable pub encode : Bytes → Result Bytes
unfolding encode_run
encode [] = ok []
encode (byte ∷ bytes) = ok (encode_run byte 1 bytes)

-- The loop of `decode` over the pairs; `chunks_exact` passes over an odd byte at the end.
unfoldable pub decode_pairs : ℕ → Bytes → Bytes → Result Bytes
decode_pairs expected_len output [] = ok output
decode_pairs expected_len output (run ∷ []) = ok output
decode_pairs expected_len output (run ∷ byte ∷ rest) =
    let more = decode_pairs expected_len (output ++ replicate run byte) rest in
    if run == 0 || ltb expected_len (sat_add (length output) run) then err invalid_data else more

unfoldable pub check_length : ℕ → Result Bytes → Result Bytes
check_length expected_len (err x) = err x
check_length expected_len (ok output) =
    if length output == expected_len then ok output else err invalid_data

unfoldable pub decode : Bytes → ℕ → ℕ → Result Bytes
unfolding decode_pairs check_length
decode input expected_len max_output =
    if ltb max_output expected_len || not (length input % 2 == 0)
    then err invalid_data
    else check_length expected_len (decode_pairs expected_len [] input)
