-- ===== src/Kv/Engine/Move.antt =====
-- `KvEngine::set_pinned`.
pub mod Pinned
use rivet_cache.Prelude.{
  ℕ, zero, suc, Bool, true, false, not, ◌&&◌, List, [], ◌∷◌, Option, none, some, ◌==◌,
  if◌then◌else◌, leb, length, get_elem?, set,
}
use rivet_cache.Prelude.Lists.{Bytes}
use rivet_cache.Prelude.Words.{sat_add}
use rivet_cache.Prelude.Results.{Result, ok, err, invalid_input}
use rivet_cache.Prelude.States.{Op, return, fail, ensure, ◌>>=◌, ◌>>◌}
use rivet_cache.Cache.{is_expired}
use rivet_cache.Kv.{KvBlockKey, KvTierEntry}
use rivet_cache.Kv.Engine.{KvTier, KvEngine, KvEngineStats, KvEngineInner}
use rivet_cache.Kv.Engine.Get.{transfer_entry}

abbrev pub count_expiration : KvEngineStats → KvEngineStats
count_expiration stats = record stats { expirations = sat_add stats.expirations 1 }

module _ {T : Type 0} (e : KvEngine T) where
  -- The loop of `set_pinned`; `found` is the flag of the source.
  unfoldable pub pin_all :
      ℕ → KvBlockKey → Bool → Bool → List T → KvEngineStats → Result Bool × (List T × KvEngineStats)
  pin_all now key pinned found [] stats = (ok found, ([], stats))
  pin_all now key pinned found (t ∷ ts) stats =
      let (r, t') = e.tier.get key t in
      elim r [
        | err x ↦ (err x, (t' ∷ ts, stats))
        | ok none ↦
            let (r', (ts', stats')) = pin_all now key pinned found ts stats in
            (r', (t' ∷ ts', stats'))
        | ok (some entry) ↦ elim (is_expired entry.expires_at now) [
          | true ↦
              let (gone, t'') = e.tier.remove key t' in
              elim gone [
                | err x ↦ (err x, (t'' ∷ ts, stats))
                | ok _ ↦
                    let (r', (ts', stats')) =
                      pin_all now key pinned found ts (count_expiration stats) in
                    (r', (t'' ∷ ts', stats'))
              ]
          | false ↦
              let (written, t'') = e.tier.put (record entry { pinned = pinned }) t' in
              elim written [
                | err x ↦ (err x, (t'' ∷ ts, stats))
                | ok _ ↦
                    let (r', (ts', stats')) = pin_all now key pinned true ts stats in
                    (r', (t'' ∷ ts', stats'))
              ]
        ]
      ]

  unfoldable pub set_pinned : ℕ → KvBlockKey → Bool → Op (KvEngineInner T) Bool
  unfolding pin_all
  set_pinned now key pinned inner =
      let (r, (ts, stats)) = pin_all now key pinned false inner.tiers inner.stats in
      (r, record { tiers = ts; stats = stats })
