-- ===== src/Codec/Tests.antt =====
-- Runs of `RleCodec`, and its theorems at concrete inputs.
use rivet_cache.Prelude.{◌≡◌, refl, [], ◌∷◌, arith, replicate}
use rivet_cache.Prelude.Lists.{Bytes}
use rivet_cache.Prelude.Words.{sat_add}
use rivet_cache.Prelude.Results.{ok, err, invalid_data}
use rivet_cache.Codec.{encode_run, encode, decode_pairs, check_length, decode}
use rivet_cache.Codec.RoundTrip.{decode-encode_rle}

abbrev text : Bytes
text = 7 ∷ 7 ∷ 7 ∷ 9 ∷ []

encode_runs :
    (encode text ≡ ok (3 ∷ 7 ∷ 1 ∷ 9 ∷ [])) × (encode (replicate 257 5) ≡ ok (255 ∷ 5 ∷ 2 ∷ 5 ∷ []))
unfolding encode encode_run
encode_runs = (refl, refl)

decode_runs :
    (decode (3 ∷ 7 ∷ 1 ∷ 9 ∷ []) 4 8 ≡ ok text)
    × (decode (3 ∷ 7 ∷ 2 ∷ 9 ∷ []) 4 8 ≡ err invalid_data)
    × (decode (0 ∷ 7 ∷ []) 0 8 ≡ err invalid_data)
unfolding decode decode_pairs check_length sat_add
decode_runs = (refl, refl, refl)

decode-encode_rle_example : decode (3 ∷ 7 ∷ 1 ∷ 9 ∷ []) 4 8 ≡ ok text
decode-encode_rle_example =
    decode-encode_rle text (3 ∷ 7 ∷ 1 ∷ 9 ∷ []) 8 (omega arith) (omega arith) encode_runs.0
