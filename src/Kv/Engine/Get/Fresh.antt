-- ===== src/Kv/Engine/Get/Fresh.antt =====
-- `KvEngine::get` answers with the first entry that is fresh, whatever it moves on the way.
use rivet_cache.Prelude.{
  ℕ, ◌≡◌, sym, List, [], ◌∷◌, map, Option, none, some, arith, inl, inr, Bool-cases, if◌then◌else◌,
}
use rivet_cache.Prelude.Lists.{Bytes}
use rivet_cache.Prelude.Results.{err≢ok, Result, ok, err, Result-cases}
use rivet_cache.Cache.{is_expired}
use rivet_cache.Kv.{KvBlockKey, KvBlock, KvTierEntry}
use rivet_cache.Kv.Engine.{sat_add, KvEngine, KvEngineStats, KvEngineInner, View}
use rivet_cache.Kv.Engine.Get.{answer_hit, get_from, get}

-- The first entry of the key that has not expired, from the first tier on.
unfoldable pub first_fresh : ℕ → KvBlockKey → List View → Option KvTierEntry
first_fresh now key [] = none
first_fresh now key (v ∷ vs) =
    let rest = first_fresh now key vs in
    elim (v key) [
      | none ↦ rest
      | some entry ↦ if is_expired entry.expires_at now then rest else some entry
    ]

-- The block that is handed out for an entry: its key, with a copy of its bytes.
unfoldable pub handed_out : (Bytes → Result Bytes) → Option KvTierEntry → Result (Option KvBlock)
handed_out allocator none = ok none
handed_out allocator (some entry) = elim (allocator entry.block.bytes) [
  | err x ↦ err x
  | ok bytes ↦ ok (some (record { key = entry.block.key; bytes = bytes }))
]

module _ {T : Type 0} (e : KvEngine T) (view : T → View)
    (reads : (k : KvBlockKey) (t : T) (o : Option KvTierEntry)
      → (e.tier.get k t).0 ≡ ok o
      → o ≡ view t k) where
  answer_hit-bytes :
      (entry : KvTierEntry) (above : List T) (t : T) (below : List T) (stats : KvEngineStats)
      (found : Option KvBlock)
      → (answer_hit e entry above t below stats).0 ≡ ok found
      → handed_out e.allocator (some entry) ≡ ok found
  unfolding answer_hit handed_out
  answer_hit-bytes entry above t below stats found h = ground arith

  get_from-fresh :
      (now : ℕ) (key : KvBlockKey) (above below : List T) (stats : KvEngineStats)
      (found : Option KvBlock)
      → (get_from e now key above below stats).0 ≡ ok found
      → handed_out e.allocator (first_fresh now key (map view below)) ≡ ok found
  unfolding get_from first_fresh handed_out
  get_from-fresh now key above [] stats found h = ground arith
  get_from-fresh now key above (t ∷ below) stats found h =
      elim (Result-cases (e.tier.get key t).0) [
        | inr (x, q) ↦ absurd (err≢ok (rw (q, get_from) at h))
        | inl (none, q) ↦ rw (sym (reads key t none q)) (
            get_from-fresh now key ((e.tier.get key t).1 ∷ above) below stats found
              (rw (q, get_from) at h))
        | inl (some entry, q) ↦
            rw (sym (reads key t (some entry) q))
              (elim (Bool-cases (is_expired entry.expires_at now)) [
                | inr fresh ↦
                    rw (fresh, first_fresh)
                      (answer_hit-bytes entry above _ below _ found (rw (q, fresh, get_from) at h))
                | inl old ↦ elim (Result-cases (e.tier.remove key (e.tier.get key t).1).0) [
                  | inr (x, q') ↦ absurd (err≢ok (rw (q, old, q', get_from) at h))
                  | inl (u, q') ↦ rw old (
                      get_from-fresh now key ((e.tier.remove key (e.tier.get key t).1).1 ∷ above)
                        below (record stats { expirations = sat_add stats.expirations 1 }) found
                        (rw (q, old, q', get_from) at h))
                ]
              ])
      ]

-- Where every tier answers with what it shows, a `get` that does not fail returns the first entry
-- that is fresh, with a copy of its bytes, and nothing where there is none.
pub get-first_fresh :
    {T : Type 0} (e : KvEngine T) (view : T → View)
    → ((k : KvBlockKey) (t : T) (o : Option KvTierEntry) → (e.tier.get k t).0 ≡ ok o → o ≡ view t k)
    → (now : ℕ) (key : KvBlockKey) (inner : KvEngineInner T) (found : Option KvBlock)
    → (get e now key inner).0 ≡ ok found
    → handed_out e.allocator (first_fresh now key (map view inner.tiers)) ≡ ok found
unfolding get
get-first_fresh e view reads now key inner found h =
    get_from-fresh e view reads now key [] inner.tiers inner.stats found h
