-- ===== src/Kv/Engine/Prefetch/Counted.antt =====
-- What a report of `prefetch_worker` counts.
use rivet_cache.Prelude.{ℕ, suc, ◌≡◌, Bool, List, [], ◌∷◌, if◌then◌else◌}
use rivet_cache.Kv.{KvBlockKey}
use rivet_cache.Kv.Engine.{KvEngine}
use rivet_cache.Kv.Engine.Prefetch.Delivered.{IsPrefetched}

module _ {T : Type 0} (e : KvEngine T) (clock : ℕ → ℕ) where
  -- The keys from the index `i` on, with the destination before and after, and the numbers of those
  -- that were prefetched and missed.
  pub AllPrefetched : ℕ → List KvBlockKey → T → ℕ → ℕ → T → Type 0
  AllPrefetched i [] d populated missed d' = (populated ≡ 0) × (missed ≡ 0) × (d' ≡ d)
  AllPrefetched i (key ∷ keys) d populated missed d' =
      (hit : Bool) × (p : ℕ) × (m : ℕ) × (between : T) × IsPrefetched e (clock i) key d hit between
      × AllPrefetched (suc i) keys between p m d'
      × (populated ≡ (if hit then suc p else p))
      × (missed ≡ (if hit then m else suc m))
