-- ===== src/Kv/Engine.antt =====
-- src/kv.rs: `KvEngine` over the list of its tiers, the fastest one first. The tiers share one
-- implementation `tier`, over a state that may be a sum, and each has a state of its own.
-- The transport and the allocator are functions. `is_expired` of src/kv.rs is that of src/lib.rs.
pub mod Get
pub mod Put
pub mod Move
pub mod Transfer
pub mod Prefetch
pub mod Runtime
mod Tests
use rivet_cache.Prelude.{ℕ, Bool, List, [], ◌∷◌, Option, none, some}
use rivet_cache.Prelude.Lists.{Bytes}
use rivet_cache.Prelude.Words.{sat_add}
use rivet_cache.Prelude.Results.{Result}
use rivet_cache.Prelude.States.{Op}
use rivet_cache.Cache.{Duration, expiry}
use rivet_cache.Kv.{KvBlockKey, KvTierEntry}

-- The trait `KvTier`, without `health`.
pub record KvTier (T : Type 0) : Type 0 where
  pub name : T → Bytes
  pub get : KvBlockKey → Op T (Option KvTierEntry)
  pub put : KvTierEntry → Op T (Unit {0})
  pub remove : KvBlockKey → Op T (Unit {0})
  pub clear : Op T (Unit {0})

pub data KvWritePolicy : Type 0 where
  primary all : KvWritePolicy

pub record KvEngineStats : Type 0 where
  pub hits : ℕ
  pub misses : ℕ
  pub writes : ℕ
  pub promotions : ℕ
  pub transfers : ℕ
  pub bytes_transferred : ℕ
  pub invalidations : ℕ
  pub expirations : ℕ
  pub prefetches : ℕ

-- The fields of `KvEngineInner` that never change.
pub record KvEngine (T : Type 0) : Type 0 where
  pub tier : KvTier T
  pub transport : KvBlockKey → Bytes → Bytes → Bytes → Result Bytes
  pub allocator : Bytes → Result Bytes
  pub promote_on_read : Bool
  pub write_policy : KvWritePolicy

-- The tiers and the statistics.
pub record KvEngineInner (T : Type 0) : Type 0 where
  pub tiers : List T
  pub stats : KvEngineStats

-- The second at which an entry that `put` writes expires; 0 for never.
abbrev pub put_expiry : ℕ → Option Duration → ℕ
put_expiry now none = 0
put_expiry now (some ttl) = expiry now ttl

-- Tiers in reverse order, put back before the others.
unfoldable pub unwind : {T : Type 0} → List T → List T → List T
unwind [] below = below
unwind (t ∷ above) below = unwind above (t ∷ below)

-- What the tiers show of a key.
abbrev pub View : Type 0
View = KvBlockKey → Option KvTierEntry
