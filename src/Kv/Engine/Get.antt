-- ===== src/Kv/Engine/Get.antt =====
-- `KvEngine::get`: the first tier that has a fresh entry answers, and the tiers above it get a copy.
pub mod Fresh
use rivet_cache.Prelude.{
  ℕ, Bool, true, false, List, [], ◌∷◌, Option, none, some, if◌then◌else◌, length,
}
use rivet_cache.Prelude.Lists.{Bytes}
use rivet_cache.Prelude.Words.{sat_add}
use rivet_cache.Prelude.Results.{Result, ok, err}
use rivet_cache.Prelude.States.{Op}
use rivet_cache.Cache.{is_expired}
use rivet_cache.Kv.{KvBlockKey, KvBlock, KvTierEntry}
use rivet_cache.Kv.Engine.{KvTier, KvEngine, KvEngineStats, KvEngineInner, unwind}

module _ {T : Type 0} (e : KvEngine T) where
  -- `transfer_entry` to another tier than the source.
  unfoldable pub transfer_entry : KvTierEntry → Bytes → Op (T × KvEngineStats) (Unit {0})
  transfer_entry entry source (t, stats) =
      elim (e.transport entry.block.key entry.block.bytes source (e.tier.name t)) [
        | err x ↦ (err x, (t, stats))
        | ok transported ↦ elim (e.allocator transported) [
          | err x ↦ (err x, (t, stats))
          | ok allocated ↦
              let (r, t') =
                e.tier.put (record entry { block = record entry.block { bytes = allocated } }) t in
              elim r [
                | err x ↦ (err x, (t', stats))
                | ok _ ↦ (
                  ok tt,
                  (
                    t',
                    record stats {
                      transfers = sat_add stats.transfers 1;
                      bytes_transferred = sat_add stats.bytes_transferred (length allocated);
                    },
                  ),
                )
              ]
        ]
      ]

  -- The copies for the tiers above the source, the nearest one first.
  unfoldable pub promote : KvTierEntry → Bytes → Op (List T × KvEngineStats) (Unit {0})
  unfolding transfer_entry
  promote entry source ([], stats) = (ok tt, ([], stats))
  promote entry source (t ∷ above, stats) =
      let (r, (t', stats')) = transfer_entry entry source (t, stats) in
      elim r [
        | err x ↦ (err x, (t' ∷ above, stats'))
        | ok _ ↦
            let (r', (above', later)) =
              promote entry source
                (above, record stats' { promotions = sat_add stats'.promotions 1 }) in
            (r', (t' ∷ above', later))
      ]

  -- The hit in the tier `t`, below the tiers `above`: with none above, `promote` does nothing.
  unfoldable pub answer_hit :
      KvTierEntry → List T → T → List T → KvEngineStats → Result (Option KvBlock) × KvEngineInner T
  unfolding promote
  answer_hit entry above t below stats =
      let (r, (above', stats')) =
        if e.promote_on_read
        then promote entry (e.tier.name t) (above, stats)
        else (ok tt, (above, stats)) in
      let after : KvEngineInner T = record { tiers = unwind above' (t ∷ below); stats = stats' } in
      elim r [
        | err x ↦ (err x, after)
        | ok _ ↦ elim (e.allocator entry.block.bytes) [
          | err x ↦ (err x, after)
          | ok bytes ↦ (ok (some (record { key = entry.block.key; bytes = bytes })), after)
        ]
      ]

  -- The loop over the tiers; those that are passed stand in `above`, the last one first.
  unfoldable pub get_from :
      ℕ → KvBlockKey → List T → List T → KvEngineStats → Result (Option KvBlock) × KvEngineInner T
  get_from now key above [] stats = (
    ok none,
    record { tiers = unwind above []; stats = record stats { misses = sat_add stats.misses 1 } },
  )
  get_from now key above (t ∷ below) stats =
      let (r, t') = e.tier.get key t in
      elim r [
        | err x ↦ (err x, record { tiers = unwind above (t' ∷ below); stats = stats })
        | ok found ↦ elim found [
          | none ↦ get_from now key (t' ∷ above) below stats
          | some entry ↦ elim (is_expired entry.expires_at now) [
            | true ↦
                let (r', gone) = e.tier.remove key t' in
                elim r' [
                  | err x ↦ (err x, record { tiers = unwind above (gone ∷ below); stats = stats })
                  | ok _ ↦
                      get_from now key (gone ∷ above) below
                        (record stats { expirations = sat_add stats.expirations 1 })
                ]
            | false ↦ answer_hit entry above t' below (record stats { hits = sat_add stats.hits 1 })
          ]
        ]
      ]

  unfoldable pub get : ℕ → KvBlockKey → Op (KvEngineInner T) (Option KvBlock)
  unfolding get_from
  get now key inner = get_from now key [] inner.tiers inner.stats
