-- ===== src/Kv/Engine/Transfer/Conserved.antt =====
-- `move_block` between two tiers does not lose the block that it moves.
use rivet_cache.Prelude.{
  ℕ, ◌≡◌, ◌≢◌, ◌⊎◌, Bool, true, false, some, inl, inr, ◌==◌, arith, get_elem?, set, if◌then◌else◌,
}
use rivet_cache.Prelude.Lists.{Bytes}
use rivet_cache.Prelude.Results.{Result, ErrorKind, ok, err, Result-cases, err≢ok}
use rivet_cache.Kv.{KvBlockKey, KvTierEntry}
use rivet_cache.Kv.Engine.{KvEngine, KvEngineStats, KvEngineInner}
use rivet_cache.Kv.Engine.Get.{transfer_entry}
use rivet_cache.Kv.Engine.Transfer.{transfer_between, transfer_to}
use rivet_cache.Kv.Engine.Transfer.Indexed.{is_out-there}

-- The entry with other bytes: those that the transport and the allocator made of its own.
abbrev pub with_bytes : Bytes → KvTierEntry → KvTierEntry
with_bytes bytes entry = record entry { block = record entry.block { bytes = bytes } }

module _ {T : Type 0} (e : KvEngine T) where
  -- The tier `d` takes, without an error, a copy of the entry that the transport and the allocator
  -- made of it, and is left as `d'`.
  pub IsDelivered : KvTierEntry → Bytes → T → T → Type 0
  IsDelivered entry from d d' =
      (transported : Bytes) × (bytes : Bytes) × (e.transport entry.block.key entry.block.bytes from
          (e.tier.name d)
        ≡ ok transported)
      × (e.allocator transported ≡ ok bytes)
      × ((e.tier.put (with_bytes bytes entry) d).0 ≡ ok tt)
      × (d' ≡ (e.tier.put (with_bytes bytes entry) d).1)

  pub transfer_entry-IsDelivered :
      (entry : KvTierEntry) (from : Bytes) (d : T) (stats : KvEngineStats)
      → (transfer_entry e entry from (d, stats)).0 ≡ ok tt
      → IsDelivered entry from d (transfer_entry e entry from (d, stats)).1.0
  unfolding transfer_entry IsDelivered
  transfer_entry-IsDelivered entry from d stats h =
      elim (Result-cases (e.transport entry.block.key entry.block.bytes from (e.tier.name d))) [
        | inr (x, q) ↦ absurd (err≢ok (rw (q, transfer_entry) at h))
        | inl (transported, q) ↦ elim (Result-cases (e.allocator transported)) [
          | inr (x, q') ↦ absurd (err≢ok (rw (q, q', transfer_entry) at h))
          | inl (bytes, q') ↦ elim (Result-cases (e.tier.put (with_bytes bytes entry) d).0) [
            | inr (x, q'') ↦ absurd (err≢ok (rw (q, q', q'', transfer_entry) at h))
            | inl (_, q'') ↦ (transported, bytes, q, q', q'', rw (q, q', q'', transfer_entry))
          ]
        ]
      ]

  -- The tier at the source as the call has read it, and the one at the destination with the copy.
  AtDestination : KvTierEntry → Bytes → T → ℕ → KvEngineInner T → Type 0
  AtDestination entry from d destination after =
      (d' : T) × (get_elem? after.tiers destination ≡ some d') × IsDelivered entry from d d'

  -- A success has the copy in the destination, and the source as it was read or with the key
  -- removed; a failure has the source as it was read, or the copy in the destination.
  pub IsKept :
      KvBlockKey → KvTierEntry → Bool → T → T → ℕ → ℕ → Result Bool × KvEngineInner T → Type 0
  IsKept key entry remove_source s d source destination (r, after) =
      ((r ≡ ok true)
        × AtDestination entry (e.tier.name s) d destination after
        × (get_elem? after.tiers source
            ≡ some (if remove_source then (e.tier.remove key s).1 else s)))
      ⊎ ((x : ErrorKind) × (r ≡ err x)
          × ((get_elem? after.tiers source ≡ some s)
              ⊎ AtDestination entry (e.tier.name s) d destination after))

  module _ (key : KvBlockKey) (entry : KvTierEntry) (s d : T) (source destination : ℕ)
      (apart : source ≢ destination) where
    pub transfer_to-there :
        (inner : KvEngineInner T)
        → get_elem? inner.tiers source ≡ some s
        → get_elem? inner.tiers destination ≡ some d
        → let moved = transfer_entry e entry (e.tier.name s) (d, inner.stats) in
          transfer_to e entry source destination inner
          ≡ (moved.0, record { tiers = set inner.tiers destination moved.1.0; stats = moved.1.1 })
    unfolding transfer_to transfer_between
    transfer_to-there inner at_source at_destination =
        let differs : (source == destination) ≡ false = ground arith in
        let in_ = is_out-there source inner s at_source in
        let in_' = is_out-there destination inner d at_destination in
        rw (in_, in_', differs, at_source, at_destination)
