-- ===== src/Codec/RoundTrip.antt =====
-- `RleCodec` decodes what it encoded, and never gives out more than it was told to expect.
use mathlib.Core.List.{append_assoc, append-nil}
use rivet_cache.Prelude.{
  ℕ, zero, suc, ◌+◌, ◌%◌, ◌≤◌, ◌≡◌, refl, sym, ◌∙◌, ap, true, not, ◌||◌, ◌&&◌, [], ◌∷◌, ◌++◌, ltb,
  ◌==◌, length, replicate, arith, Bool-cases, inl, inr, length-append, length-replicate,
}
use rivet_cache.Prelude.Lists.{Bytes}
use rivet_cache.Prelude.Words.{sat_add-le, u64_max}
use rivet_cache.Prelude.Results.{Result, ok, err}
use rivet_cache.Codec.{encode_run, encode, decode_pairs, check_length, decode}

replicate-onto : (n a : ℕ) (xs : Bytes) → replicate n a ++ (a ∷ xs) ≡ replicate (suc n) a ++ xs
replicate-onto zero a xs = refl
replicate-onto (suc n) a xs = ap (◌∷◌ a) (replicate-onto n a xs)

-- One pair of the loop, with room for its run.
decode_pairs-step :
    (expected run byte : ℕ) (output rest : Bytes)
    → 1 ≤ run
    → run ≤ 255
    → length output + run ≤ expected
    → expected ≤ u64_max
    → decode_pairs expected output (run % 256 ∷ byte ∷ rest)
      ≡ decode_pairs expected (output ++ replicate run byte) rest
unfolding decode_pairs
decode_pairs-step expected run byte output rest h1 h2 h3 h4 =
    let small : run % 256 ≡ run = omega arith in
    rw (small, sat_add-le (length output) run (omega arith)) (ground arith)

same_byte : (b byte run : ℕ) → (b == byte && ltb run 255) ≡ true → byte ≡ b
same_byte b byte run h = ground arith

decode_pairs_end :
    (expected : ℕ) (output : Bytes) (run byte : ℕ)
    → decode_pairs expected (output ++ replicate run byte) []
      ≡ ok (output ++ (replicate run byte ++ []))
unfolding decode_pairs
decode_pairs_end expected output run byte =
    ap (λ xs. ok (output ++ xs)) (sym (append-nil (replicate run byte)))

decode-encode_run :
    (expected byte run : ℕ) (output rest : Bytes)
    → 1 ≤ run
    → run ≤ 255
    → length output + (run + length rest) ≤ expected
    → expected ≤ u64_max
    → decode_pairs expected output (encode_run byte run rest)
      ≡ ok (output ++ (replicate run byte ++ rest))
unfolding encode_run
decode-encode_run expected byte run output [] h1 h2 h3 h4 =
    decode_pairs-step expected run byte output [] h1 h2 (omega arith) h4
    ∙ decode_pairs_end expected output run byte
decode-encode_run expected byte run output (b ∷ bs) h1 h2 h3 h4 =
    elim (Bool-cases (b == byte && ltb run 255)) [
      | inl same ↦
          rw (same, encode_run)
            (decode-encode_run expected byte (suc run) output bs (omega arith) (ground arith)
                (omega arith) h4
              ∙ ap (λ xs. ok (output ++ xs))
                  (sym (replicate-onto run byte bs)
                    ∙ ap (λ c. replicate run byte ++ (c ∷ bs)) (same_byte b byte run same)))
      | inr other ↦
          rw (other, encode_run)
            (decode_pairs-step expected run byte output (encode_run b 1 bs) h1 h2 (omega arith) h4
              ∙ decode-encode_run expected b 1 (output ++ replicate run byte) bs (omega arith)
                  (omega arith)
                  (omega
                    (arith, length-append output (replicate run byte), length-replicate run byte))
                  h4
              ∙ ap ok (append_assoc output (replicate run byte) (b ∷ bs)))
    ]

length-encode_run : (byte run : ℕ) (rest : Bytes) → length (encode_run byte run rest) % 2 ≡ 0
unfolding encode_run
length-encode_run byte run [] = refl
length-encode_run byte run (b ∷ bs) = elim (Bool-cases (b == byte && ltb run 255)) [
  | inl same ↦ rw (same, encode_run) (length-encode_run byte (suc run) bs)
  | inr other ↦ rw (other, encode_run) (omega (arith, length-encode_run b 1 bs))
]

decode_of_pairs :
    (input encoded : Bytes) (max_output : ℕ)
    → length input ≤ max_output
    → length encoded % 2 ≡ 0
    → decode_pairs (length input) [] encoded ≡ ok input
    → decode encoded (length input) max_output ≡ ok input
unfolding decode check_length
decode_of_pairs input encoded max_output hm even pairs =
    rw (even, pairs, check_length) (ground arith)

-- What `encode` gives, `decode` turns back into the input, if it is told the length of the input and
-- the limit allows it. The input has at most 2^64 - 1 bytes.
pub decode-encode_rle :
    (input encoded : Bytes) (max_output : ℕ)
    → length input ≤ max_output
    → length input ≤ u64_max
    → encode input ≡ ok encoded
    → decode encoded (length input) max_output ≡ ok input
unfolding encode decode_pairs
decode-encode_rle [] encoded max_output hm hl h =
    let same : encoded ≡ [] = cc in rw same (decode_of_pairs [] [] max_output hm refl refl)
decode-encode_rle (byte ∷ bytes) encoded max_output hm hl h =
    let same : encoded ≡ encode_run byte 1 bytes = cc in
    rw same (
      decode_of_pairs (byte ∷ bytes) (encode_run byte 1 bytes) max_output hm
        (length-encode_run byte 1 bytes)
        (decode-encode_run (length (byte ∷ bytes)) byte 1 [] bytes (omega arith) (omega arith)
          (omega arith) hl))

check_length-ok :
    (n : ℕ) (r : Result Bytes) (output : Bytes) → check_length n r ≡ ok output → length output ≡ n
unfolding check_length
check_length-ok n (err x) output h = absurd (ground arith)
check_length-ok n (ok out) output h = elim (Bool-cases (length out == n)) [
  | inr off ↦ absurd (ground arith)
  | inl exact_ ↦ let same : out ≡ output = grind arith in rw (sym same) (ground arith)
]

-- What `decode` gives out has the expected length, which is within the limit.
decode-length :
    (input output : Bytes) (expected_len max_output : ℕ)
    → decode input expected_len max_output ≡ ok output
    → (length output ≡ expected_len) × (expected_len ≤ max_output)
unfolding decode
decode-length input output expected_len max_output h =
    elim (Bool-cases (ltb max_output expected_len || not (length input % 2 == 0))) [
      | inl bad ↦ absurd (ground arith)
      | inr good ↦ (
        check_length-ok expected_len (decode_pairs expected_len [] input) output
            (rw (good, decode) at h),
        ground arith,
      )
    ]
