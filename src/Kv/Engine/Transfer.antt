-- ===== src/Kv/Engine/Transfer.antt =====
-- src/kv.rs: `transfer_entry` and `move_block` between two tiers, `prefetch_worker`, and the exchange
-- with a runtime, `capture_from` and `restore_into`. The runtime adapter is a parameter.
pub mod Indexed
pub mod Conserved
use rivet_cache.Prelude.{
  ℕ, suc, Bool, true, false, not, ◌&&◌, ◌||◌, List, [], ◌∷◌, Option, none, some, ◌==◌, leb,
  if◌then◌else◌, length, get_elem?, set,
}
use rivet_cache.Prelude.Lists.{Bytes}
use rivet_cache.Prelude.Words.{sat_add}
use rivet_cache.Prelude.Results.{Result, ok, err, invalid_input, invalid_data, other}
use rivet_cache.Prelude.States.{Op}
use rivet_cache.Cache.{Duration, is_expired}
use rivet_cache.Kv.{KvBlockKey, KvBlock, KvTierEntry}
use rivet_cache.Kv.Capture.{KvCaptureRequest, block_keys}
use rivet_cache.Kv.Engine.{KvTier, KvEngine, KvEngineStats, KvEngineInner}
use rivet_cache.Kv.Engine.Get.{transfer_entry}
use rivet_cache.Kv.Engine.Put.{put}
use rivet_cache.Kv.Engine.Move.{count_expiration}

-- An operation of the tier at an index. The callers have checked the index: one out of range would
-- panic.
unfoldable pub at_tier : {T A : Type 0} → ℕ → Op T A → Op (KvEngineInner T) A
at_tier i op inner = elim (get_elem? inner.tiers i) [
  | none ↦ (err other, inner)
  | some t ↦ let (r, t') = op t in (r, record inner { tiers = set inner.tiers i t' })
]

-- What `require_tier` refuses.
abbrev pub is_out : {T : Type 0} → ℕ → KvEngineInner T → Bool
is_out i inner = leb (length inner.tiers) i

abbrev pub expire : {T : Type 0} → KvEngineInner T → KvEngineInner T
expire inner = record inner { stats = count_expiration inner.stats }

module _ {T : Type 0} (e : KvEngine T) where
  -- The transfer between two tiers that are there.
  unfoldable pub transfer_between : KvTierEntry → ℕ → ℕ → Op (KvEngineInner T) (Unit {0})
  unfolding at_tier
  transfer_between entry source destination inner =
      if source == destination
      then at_tier destination (e.tier.put entry) inner
      else elim (get_elem? inner.tiers source) [
        | none ↦ (err other, inner)
        | some s ↦ elim (get_elem? inner.tiers destination) [
          | none ↦ (err other, inner)
          | some d ↦
              let (r, (d', stats')) = transfer_entry e entry (e.tier.name s) (d, inner.stats) in
              (r, record { tiers = set inner.tiers destination d'; stats = stats' })
        ]
      ]

  unfoldable pub transfer_to : KvTierEntry → ℕ → ℕ → Op (KvEngineInner T) (Unit {0})
  unfolding transfer_between
  transfer_to entry source destination inner =
      if is_out source inner || is_out destination inner
      then (err invalid_input, inner)
      else transfer_between entry source destination inner

  -- The end of `move_block`, with the copy in place.
  unfoldable pub remove_moved : KvBlockKey → ℕ → ℕ → Bool → Op (KvEngineInner T) Bool
  unfolding at_tier
  remove_moved key source destination remove_source inner =
      if remove_source && not (source == destination)
      then (let (r, inner') = at_tier source (e.tier.remove key) inner in
          elim r [ err x ↦ (err x, inner') | ok _ ↦ (ok true, inner') ])
      else (ok true, inner)

  -- What `move_block` does with the entry that it read.
  unfoldable pub move_entry :
      ℕ → KvBlockKey → ℕ → ℕ → Bool → KvTierEntry → Op (KvEngineInner T) Bool
  unfolding transfer_to remove_moved
  move_entry now key source destination remove_source entry inner =
      elim (is_expired entry.expires_at now) [
        | true ↦
            let (r, gone) = at_tier source (e.tier.remove key) inner in
            elim r [ err x ↦ (err x, gone) | ok _ ↦ (ok false, expire gone) ]
        | false ↦
            let (r, moved) = transfer_to entry source destination inner in
            elim r [
              | err x ↦ (err x, moved)
              | ok _ ↦ remove_moved key source destination remove_source moved
            ]
      ]

  unfoldable pub move_block : ℕ → KvBlockKey → ℕ → ℕ → Bool → Op (KvEngineInner T) Bool
  unfolding move_entry
  move_block now key source destination remove_source inner =
      if is_out source inner || is_out destination inner
      then (err invalid_input, inner)
      else (let (r, read) = at_tier source (e.tier.get key) inner in
          elim r [
            | err x ↦ (err x, read)
            | ok none ↦ (ok false, read)
            | ok (some entry) ↦ move_entry now key source destination remove_source entry read
          ])
