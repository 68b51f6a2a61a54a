-- ===== src/Kv/Engine/Runtime.antt =====
-- src/kv.rs: `capture_from` and `restore_into`. The trait `RuntimeKvAdapter` is a parameter, over a
-- state `R` of its own.
pub mod Captured
use rivet_cache.Prelude.{
  ℕ, suc, ◌≡◌, ◌≢◌, refl, Bool, true, false, not, ◌||◌, List, [], ◌∷◌, Option, none, some, ◌==◌,
  if◌then◌else◌, length, ite, Bool-cases, inl, inr,
}
use rivet_cache.Prelude.Lists.{Bytes}
use rivet_cache.Prelude.Results.{Result, ok, err, invalid_data}
use rivet_cache.Prelude.States.{Op}
use rivet_cache.Cache.{Duration}
use rivet_cache.Kv.{KvBlockKey, KvBlockKey-discrete, KvBlock}
use rivet_cache.Kv.Capture.{KvCaptureRequest, block_keys}
use rivet_cache.Kv.Engine.{KvEngine, KvEngineInner}
use rivet_cache.Kv.Engine.Get.{get}
use rivet_cache.Kv.Engine.Put.{put}

pub record RuntimeKvAdapter (R : Type 0) : Type 0 where
  pub capture : KvCaptureRequest → Op R (List KvBlock)
  pub restore : List KvBlock → Op R (Unit {0})

-- Whether a block has another key than the one at its place.
unfoldable pub any_differs : List KvBlock → List KvBlockKey → Bool
any_differs [] keys = false
any_differs (block ∷ blocks) [] = false
any_differs (block ∷ blocks) (key ∷ keys) =
    ite (KvBlockKey-discrete block.key key) false true || any_differs blocks keys

module _ {T : Type 0} (e : KvEngine T) where
  -- The loop over the keys from the index `i` on: their blocks, or nothing at the first miss. Each
  -- `get` reads the clock, which gives the second for the index.
  unfoldable pub load_blocks :
      (ℕ → ℕ) → ℕ → List KvBlockKey → Op (KvEngineInner T) (Option (List KvBlock))
  load_blocks clock i [] inner = (ok (some []), inner)
  load_blocks clock i (key ∷ keys) inner =
      let (r, inner') = get e (clock i) key inner in
      elim r [
        | err x ↦ (err x, inner')
        | ok none ↦ (ok none, inner')
        | ok (some block) ↦
            let (r', later) = load_blocks clock (suc i) keys inner' in
            elim r' [
              | err x ↦ (err x, later)
              | ok none ↦ (ok none, later)
              | ok (some blocks) ↦ (ok (some (block ∷ blocks)), later)
            ]
      ]

  unfoldable pub restore_into :
      {R : Type 0} → RuntimeKvAdapter R → (ℕ → ℕ) → List KvBlockKey → Op (KvEngineInner T × R) Bool
  unfolding load_blocks
  restore_into adapter clock keys (inner, runtime) =
      let (r, inner') = load_blocks clock 0 keys inner in
      elim r [
        | err x ↦ (err x, (inner', runtime))
        | ok none ↦ (ok false, (inner', runtime))
        | ok (some blocks) ↦
            let (r', runtime') = adapter.restore blocks runtime in
            elim r' [ err x ↦ (err x, (inner', runtime')) | ok _ ↦ (ok true, (inner', runtime')) ]
      ]

  -- The loop over the captured blocks from the index `i` on.
  unfoldable pub put_blocks :
      (ℕ → ℕ) → ℕ → Option Duration → Bool → List KvBlock → Op (KvEngineInner T) (Unit {0})
  put_blocks clock i ttl pinned [] inner = (ok tt, inner)
  put_blocks clock i ttl pinned (block ∷ blocks) inner =
      let (r, inner') = put e (clock i) block ttl pinned inner in
      elim r [ err x ↦ (err x, inner') | ok _ ↦ put_blocks clock (suc i) ttl pinned blocks inner' ]

  unfoldable pub capture_from :
      {R : Type 0}
      → (Bytes → Bytes)
      → RuntimeKvAdapter R
      → (ℕ → ℕ)
      → KvCaptureRequest
      → Option Duration
      → Bool
      → Op (KvEngineInner T × R) ℕ
  unfolding put_blocks any_differs
  capture_from sha256 adapter clock request ttl pinned (inner, runtime) =
      elim (block_keys sha256 request) [
        | err x ↦ (err x, (inner, runtime))
        | ok expected ↦
            let (r, runtime') = adapter.capture request runtime in
            elim r [
              | err x ↦ (err x, (inner, runtime'))
              | ok blocks ↦
                  if not (length blocks == length expected) || any_differs blocks expected
                  then (err invalid_data, (inner, runtime'))
                  else (let (r', inner') = put_blocks clock 0 ttl pinned blocks inner in
                      elim r' [
                        | err x ↦ (err x, (inner', runtime'))
                        | ok _ ↦ (ok (length blocks), (inner', runtime'))
                      ])
            ]
      ]
