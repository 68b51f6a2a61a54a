-- ===== src/Kv/Engine/Put.antt =====
-- `KvEngine::put`, `put_to`, `invalidate` and `clear`.
pub mod All
pub mod First
use rivet_cache.Prelude.{ℕ, zero, suc, Bool, List, [], ◌∷◌, Option, none, some}
use rivet_cache.Prelude.Lists.{Bytes}
use rivet_cache.Prelude.Words.{sat_add}
use rivet_cache.Prelude.Results.{Result, ok, err, invalid_input}
use rivet_cache.Prelude.States.{Op, first_error}
use rivet_cache.Cache.{Duration}
use rivet_cache.Kv.{KvBlockKey, KvBlock, KvTierEntry}
use rivet_cache.Kv.Engine.{
  KvTier, KvWritePolicy, KvEngine, KvEngineStats, KvEngineInner, put_expiry, unwind,
}

abbrev pub count_write : KvEngineStats → KvEngineStats
count_write stats = record stats { writes = sat_add stats.writes 1 }

-- The end of `put` and `put_to`: a write that succeeds is counted.
unfoldable pub finish_put :
    {T : Type 0} → Result (Unit {0}) → List T → KvEngineStats → Result (Unit {0}) × KvEngineInner T
finish_put (err x) ts stats = (err x, record { tiers = ts; stats = stats })
finish_put (ok _) ts stats = (ok tt, record { tiers = ts; stats = count_write stats })

abbrev pub entry_of : ℕ → KvBlock → Option Duration → Bool → KvTierEntry
entry_of now block ttl pinned = record {
  block = block;
  expires_at = put_expiry now ttl;
  pinned = pinned;
}

module _ {T : Type 0} (e : KvEngine T) where
  unfoldable pub put_entry_to : ℕ → KvTierEntry → Op (List T) (Unit {0})
  put_entry_to i entry [] = (err invalid_input, [])
  put_entry_to zero entry (t ∷ ts) = let (r, t') = e.tier.put entry t in (r, t' ∷ ts)
  put_entry_to (suc i) entry (t ∷ ts) = let (r, ts') = put_entry_to i entry ts in (r, t ∷ ts')

  -- An error of `remove` is ignored. The tiers share no state, so the order does not show.
  unfoldable pub remove_written : KvBlockKey → List T → List T → List T
  remove_written key [] below = below
  remove_written key (t ∷ written) below =
      remove_written key written ((e.tier.remove key t).1 ∷ below)

  -- The loop of the policy `All`; the tiers that are written stand in `written`, the last one first.
  unfoldable pub put_all : KvTierEntry → List T → Op (List T) (Unit {0})
  unfolding remove_written
  put_all entry written [] = (ok tt, unwind written [])
  put_all entry written (t ∷ ts) =
      let (r, t') = e.tier.put entry t in
      elim r [
        | ok _ ↦ put_all entry (t' ∷ written) ts
        | err x ↦ (err x, remove_written entry.block.key written (t' ∷ ts))
      ]

  unfoldable pub put_by_policy : KvWritePolicy → KvTierEntry → Op (List T) (Unit {0})
  unfolding put_entry_to put_all
  put_by_policy KvWritePolicy.primary entry ts = put_entry_to 0 entry ts
  put_by_policy KvWritePolicy.all entry ts = put_all entry [] ts

  unfoldable pub put : ℕ → KvBlock → Option Duration → Bool → Op (KvEngineInner T) (Unit {0})
  unfolding put_by_policy finish_put
  put now block ttl pinned inner =
      let (r, ts) = put_by_policy e.write_policy (entry_of now block ttl pinned) inner.tiers in
      finish_put r ts inner.stats

  unfoldable pub put_to : ℕ → ℕ → KvBlock → Option Duration → Bool → Op (KvEngineInner T) (Unit {0})
  unfolding put_entry_to finish_put
  put_to now tier_index block ttl pinned inner =
      let (r, ts) = put_entry_to tier_index (entry_of now block ttl pinned) inner.tiers in
      finish_put r ts inner.stats

  -- The first tier that fails ends the loop.
  unfoldable pub invalidate_all : KvBlockKey → Op (List T) (Unit {0})
  invalidate_all key [] = (ok tt, [])
  invalidate_all key (t ∷ ts) =
      let (r, t') = e.tier.remove key t in
      elim r [
        | err x ↦ (err x, t' ∷ ts)
        | ok _ ↦ let (r', ts') = invalidate_all key ts in (r', t' ∷ ts')
      ]

  unfoldable pub invalidate : KvBlockKey → Op (KvEngineInner T) (Unit {0})
  unfolding invalidate_all
  invalidate key inner =
      let (r, ts) = invalidate_all key inner.tiers in
      elim r [
        | err x ↦ (err x, record inner { tiers = ts })
        | ok _ ↦ (
          ok tt,
          record inner {
            tiers = ts;
            stats = record inner.stats { invalidations = sat_add inner.stats.invalidations 1 };
          },
        )
      ]

  -- All tiers are cleared; the first error is returned.
  unfoldable pub clear : Op (List T) (Unit {0})
  clear [] = (ok tt, [])
  clear (t ∷ ts) =
      let (r, t') = e.tier.clear t in let (r', ts') = clear ts in (first_error r r', t' ∷ ts')
