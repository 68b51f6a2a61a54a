-- ===== src/Kv/Engine/Runtime/Captured.antt =====
-- What `capture_from` stores is what was asked for.
use rivet_cache.Prelude.{
  ℕ, suc, ◌≡◌, refl, sym, ap, ◌∙◌, Bool, false, not, ◌||◌, List, [], ◌∷◌, map, Option, ◌==◌, arith,
  length, Bool-cases, inl, inr,
}
use rivet_cache.Prelude.Lists.{Bytes}
use rivet_cache.Prelude.Results.{ok, Result-cases, err≢ok, ok-injective}
use rivet_cache.Cache.{Duration}
use rivet_cache.Kv.{KvBlockKey, KvBlockKey-discrete, KvBlock}
use rivet_cache.Kv.Capture.{KvCaptureRequest, block_keys}
use rivet_cache.Kv.Engine.{KvWritePolicy, KvEngine, KvEngineInner}
use rivet_cache.Kv.Engine.Put.{put, entry_of}
use rivet_cache.Kv.Engine.Put.First.{put-first}
use rivet_cache.Kv.Engine.Runtime.{RuntimeKvAdapter, any_differs, put_blocks, capture_from}

abbrev pub keys_in : List KvBlock → List KvBlockKey
keys_in blocks = map (λ block. block.key) blocks

keys_agree :
    (blocks : List KvBlock) (keys : List KvBlockKey)
    → length blocks ≡ length keys
    → any_differs blocks keys ≡ false
    → keys_in blocks ≡ keys
unfolding any_differs
keys_agree [] [] n h = refl
keys_agree [] (k ∷ ks) n h = absurd (omega arith)
keys_agree (b ∷ bs) [] n h = absurd (omega arith)
keys_agree (b ∷ bs) (k ∷ ks) n h = elim (KvBlockKey-discrete b.key k) [
  | no other ↦ absurd (ground arith)
  | yes same ↦
      let rest = keys_agree bs ks (omega arith) (ground arith) in
      ap (λ z. z ∷ keys_in bs) same ∙ ap (λ zs. k ∷ zs) rest
]

-- The first tier takes the blocks one after the other, each without an error and with the expiry that
-- the clock gives for its index, and ends as the last one.
pub Takes :
    {T : Type 0} → KvEngine T → (ℕ → ℕ) → ℕ → Option Duration → Bool → T → List KvBlock → T → Type 0
Takes e clock i ttl pinned t [] last = t ≡ last
Takes e clock i ttl pinned t (block ∷ blocks) last =
    let entry = entry_of (clock i) block ttl pinned in
    ((e.tier.put entry t).0 ≡ ok tt)
    × Takes e clock (suc i) ttl pinned (e.tier.put entry t).1 blocks last

module _ {T : Type 0} (e : KvEngine T) (clock : ℕ → ℕ) (ttl : Option Duration) (pinned : Bool)
    (primary : e.write_policy ≡ KvWritePolicy.primary) (ts : List T) where
  put_blocks-Takes :
      (i : ℕ) (blocks : List KvBlock) (t : T) (inner : KvEngineInner T)
      → inner.tiers ≡ t ∷ ts
      → (put_blocks e clock i ttl pinned blocks inner).0 ≡ ok tt
      → (last : T) × ((put_blocks e clock i ttl pinned blocks inner).1.tiers ≡ last ∷ ts)
        × Takes e clock i ttl pinned t blocks last
  unfolding put_blocks Takes
  put_blocks-Takes i [] t inner there h = (t, there, refl)
  put_blocks-Takes i (block ∷ blocks) t inner there h =
      let one = put e (clock i) block ttl pinned inner in
      elim (Result-cases one.0) [
        | inr (x, q) ↦ absurd (err≢ok (rw (q, put_blocks) at h))
        | inl (u, q) ↦
            let (taken, there') =
              put-first e (clock i) block ttl pinned inner t ts primary there q in
            let (last, tiers, rest) =
              put_blocks-Takes (suc i) blocks (e.tier.put (entry_of (clock i) block ttl pinned) t).1
                one.1 there' (rw (q, put_blocks) at h) in
            (last, rw (q, put_blocks) tiers, (taken, rest))
      ]

-- Under the policy `Primary`, a capture that succeeds has had the first tier take, one after the
-- other and each without an error, the blocks that the runtime gave, and the other tiers are as they
-- were. The blocks have the keys of the request, in order, and the count is theirs.
pub capture_from-Takes :
    {T R : Type 0} (e : KvEngine T) (sha256 : Bytes → Bytes) (adapter : RuntimeKvAdapter R)
    (clock : ℕ → ℕ) (request : KvCaptureRequest) (ttl : Option Duration) (pinned : Bool)
    (inner : KvEngineInner T) (runtime : R) (n : ℕ) (t : T) (ts : List T)
    → e.write_policy ≡ KvWritePolicy.primary
    → inner.tiers ≡ t ∷ ts
    → (capture_from e sha256 adapter clock request ttl pinned (inner, runtime)).0 ≡ ok n
    → (blocks : List KvBlock) × ((adapter.capture request runtime).0 ≡ ok blocks)
      × (block_keys sha256 request ≡ ok (keys_in blocks))
      × (n ≡ length blocks)
      × ((last : T) × ((capture_from e sha256 adapter clock request ttl pinned
              (inner, runtime)).1.0.tiers
            ≡ last ∷ ts)
          × Takes e clock 0 ttl pinned t blocks last)
unfolding capture_from
capture_from-Takes e sha256 adapter clock request ttl pinned inner runtime n t ts primary there h =
    elim (Result-cases (block_keys sha256 request)) [
      | inr (x, q) ↦ absurd (err≢ok (rw (q, capture_from) at h))
      | inl (expected, q) ↦ elim (Result-cases (adapter.capture request runtime).0) [
        | inr (x, q') ↦ absurd (err≢ok (rw (q, q', capture_from) at h))
        | inl (blocks, q') ↦
            elim (Bool-cases
              (not (length blocks == length expected) || any_differs blocks expected)) [
                | inl bad ↦ absurd (err≢ok (rw (q, q', bad, capture_from) at h))
                | inr good ↦ elim (Result-cases (put_blocks e clock 0 ttl pinned blocks inner).0) [
                  | inr (x, q'') ↦ absurd (err≢ok (rw (q, q', good, q'', capture_from) at h))
                  | inl (u, q'') ↦
                      let same_length : length blocks ≡ length expected = ground arith in
                      let count : length blocks ≡ n =
                        ok-injective (rw (q, q', good, q'', capture_from) at h) in
                      (
                        blocks,
                        q',
                        q ∙ ap ok (sym (keys_agree blocks expected same_length (ground arith))),
                        sym count,
                        rw (q, q', good, q'', capture_from)
                            (put_blocks-Takes e clock ttl pinned primary ts 0 blocks t inner there
                              q''),
                      )
                ]
              ]
      ]
    ]
