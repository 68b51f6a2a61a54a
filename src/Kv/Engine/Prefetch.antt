-- ===== src/Kv/Engine/Prefetch.antt =====
-- src/kv.rs: `prefetch_worker`, which `prefetch_to` runs on a thread of its own, and `PrefetchReport`.
-- The clock is read once for each key: `clock` gives the second of the key's index.
pub mod Delivered
pub mod Counted
use rivet_cache.Prelude.{
  ℕ, zero, suc, Bool, true, false, List, [], ◌∷◌, Option, none, some, ◌==◌, if◌then◌else◌, length,
}
use rivet_cache.Prelude.Words.{sat_add}
use rivet_cache.Prelude.Results.{ok, err, invalid_input}
use rivet_cache.Prelude.States.{Op}
use rivet_cache.Cache.{is_expired}
use rivet_cache.Kv.{KvBlockKey, KvTierEntry}
use rivet_cache.Kv.Engine.{KvEngine, KvEngineInner}
use rivet_cache.Kv.Engine.Transfer.{at_tier, is_out, expire, transfer_to}

pub record PrefetchReport : Type 0 where
  pub requested : ℕ
  pub populated : ℕ
  pub missed : ℕ

module _ {T : Type 0} (e : KvEngine T) where
  -- The fresh entry of the key in the tier at the index; an expired one is removed.
  unfoldable pub read_fresh : ℕ → KvBlockKey → ℕ → Op (KvEngineInner T) (Option KvTierEntry)
  unfolding at_tier
  read_fresh now key i inner =
      let (r, read) = at_tier i (e.tier.get key) inner in
      elim r [
        | err x ↦ (err x, read)
        | ok none ↦ (ok none, read)
        | ok (some entry) ↦ elim (is_expired entry.expires_at now) [
          | false ↦ (ok (some entry), read)
          | true ↦
              let (r', gone) = at_tier i (e.tier.remove key) read in
              elim r' [ err x ↦ (err x, gone) | ok _ ↦ (ok none, expire gone) ]
        ]
      ]

  -- The loop over the `n` tiers from `source_index` on.
  unfoldable pub find_source :
      ℕ → KvBlockKey → ℕ → ℕ → ℕ → Op (KvEngineInner T) (Option (ℕ × KvTierEntry))
  unfolding read_fresh
  find_source now key destination zero source_index inner = (ok none, inner)
  find_source now key destination (suc n) source_index inner = elim (source_index == destination) [
    | true ↦ find_source now key destination n (suc source_index) inner
    | false ↦
        let (r, read) = read_fresh now key source_index inner in
        elim r [
          | err x ↦ (err x, read)
          | ok none ↦ find_source now key destination n (suc source_index) read
          | ok (some entry) ↦ (ok (some (source_index, entry)), read)
        ]
  ]

  -- One key: whether it ends up in the destination.
  unfoldable pub prefetch_key : ℕ → KvBlockKey → ℕ → Op (KvEngineInner T) Bool
  unfolding find_source
  prefetch_key now key destination inner =
      let (r, read) = read_fresh now key destination inner in
      elim r [
        | err x ↦ (err x, read)
        | ok (some entry) ↦ (ok true, read)
        | ok none ↦
            let (r', searched) = find_source now key destination (length read.tiers) 0 read in
            elim r' [
              | err x ↦ (err x, searched)
              | ok none ↦ (ok false, searched)
              | ok (some (source_index, entry)) ↦
                  let (r'', moved) = transfer_to e entry source_index destination searched in
                  elim r'' [ err x ↦ (err x, moved) | ok _ ↦ (ok true, moved) ]
            ]
      ]

  unfoldable pub prefetch_keys :
      (ℕ → ℕ) → ℕ → ℕ → List KvBlockKey → ℕ → ℕ → Op (KvEngineInner T) (ℕ × ℕ)
  unfolding prefetch_key
  prefetch_keys clock i destination [] populated missed inner = (ok (populated, missed), inner)
  prefetch_keys clock i destination (key ∷ keys) populated missed inner =
      let (r, after) = prefetch_key (clock i) key destination inner in
      elim r [
        | err x ↦ (err x, after)
        | ok true ↦ prefetch_keys clock (suc i) destination keys (sat_add populated 1) missed after
        | ok false ↦ prefetch_keys clock (suc i) destination keys populated (sat_add missed 1) after
      ]

  unfoldable pub prefetch_worker :
      (ℕ → ℕ) → List KvBlockKey → ℕ → Op (KvEngineInner T) PrefetchReport
  unfolding prefetch_keys
  prefetch_worker clock keys destination inner =
      if is_out destination inner
      then (err invalid_input, inner)
      else (let (r, after) = prefetch_keys clock 0 destination keys 0 0 inner in
          elim r [
            | err x ↦ (err x, after)
            | ok (populated, missed) ↦ (
              ok (record { requested = length keys; populated = populated; missed = missed }),
              record after {
                stats = record after.stats {
                  prefetches = sat_add after.stats.prefetches (length keys);
                };
              },
            )
          ])
