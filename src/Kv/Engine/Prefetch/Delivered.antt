-- ===== src/Kv/Engine/Prefetch/Delivered.antt =====
-- What a prefetch does to the destination.
use mathlib.Core.Path.{subst}
use rivet_cache.Prelude.{
  ℕ, zero, suc, ◌≡◌, ◌≢◌, ◌⊎◌, refl, sym, ap, ◌∙◌, Bool, true, false, Option, none, some, inl, inr,
  ◌==◌, arith, Bool-cases, Option-cases, get_elem?, length,
}
use rivet_cache.Prelude.Results.{ok, Result-cases, err≢ok, ok-injective}
use rivet_cache.Prelude.States.{Op}
use rivet_cache.Cache.{is_expired}
use rivet_cache.Kv.{KvBlockKey, KvTierEntry}
use rivet_cache.Kv.Engine.{KvEngine, KvEngineInner}
use rivet_cache.Kv.Engine.Get.{transfer_entry}
use rivet_cache.Kv.Engine.Transfer.{at_tier, transfer_to}
use rivet_cache.Kv.Engine.Transfer.Indexed.{get_elem?-set, get_elem?-set_ne, at_tier-there}
use rivet_cache.Kv.Engine.Transfer.Conserved.{
  IsDelivered, transfer_entry-IsDelivered, transfer_to-there,
}
use rivet_cache.Kv.Engine.Prefetch.{read_fresh, find_source, prefetch_key}

at_tier-other :
    {T A : Type 0} (i j : ℕ) (op : Op T A) (inner : KvEngineInner T)
    → i ≢ j
    → get_elem? (at_tier i op inner).1.tiers j ≡ get_elem? inner.tiers j
unfolding at_tier
at_tier-other i j op inner d = elim (Option-cases (get_elem? inner.tiers i)) [
  | inl absent ↦ rw (absent, at_tier)
  | inr (t, there) ↦ rw (there, at_tier, get_elem?-set_ne i j inner.tiers (op t).1 d)
]

at_tier-ok :
    {T A : Type 0} (i : ℕ) (op : Op T A) (inner : KvEngineInner T) (a : A)
    → (at_tier i op inner).0 ≡ ok a
    → (t : T) × (get_elem? inner.tiers i ≡ some t)
unfolding at_tier
at_tier-ok i op inner a h = elim (Option-cases (get_elem? inner.tiers i)) [
  | inl absent ↦ absurd (err≢ok (rw (absent, at_tier) at h))
  | inr there ↦ there
]

module _ {T : Type 0} (e : KvEngine T) (now : ℕ) (key : KvBlockKey) where
  -- The tier answers with the fresh entry.
  pub IsFresh : T → KvTierEntry → Type 0
  IsFresh t entry =
      ((e.tier.get key t).0 ≡ ok (some entry)) × (is_expired entry.expires_at now ≡ false)

  -- The tier has no fresh entry: it answered with nothing, or its expired entry was removed.
  pub IsCleared : T → T → Type 0
  IsCleared t t' =
      (((e.tier.get key t).0 ≡ ok none) × (t' ≡ (e.tier.get key t).1))
      ⊎ ((entry : KvTierEntry) × ((e.tier.get key t).0 ≡ ok (some entry))
          × (is_expired entry.expires_at now ≡ true)
          × ((e.tier.remove key (e.tier.get key t).1).0 ≡ ok tt)
          × (t' ≡ (e.tier.remove key (e.tier.get key t).1).1))

  read_fresh-there :
      (i : ℕ) (inner : KvEngineInner T) (t : T) (o : Option KvTierEntry)
      → get_elem? inner.tiers i ≡ some t
      → (read_fresh e now key i inner).0 ≡ ok o
      → (t' : T) × (get_elem? (read_fresh e now key i inner).1.tiers i ≡ some t')
        × (((o ≡ none) × IsCleared t t')
            ⊎ ((entry : KvTierEntry) × (o ≡ some entry)
                × IsFresh t entry
                × (t' ≡ (e.tier.get key t).1)))
  unfolding read_fresh IsCleared IsFresh
  read_fresh-there i inner t o there h =
      let read = (e.tier.get key t).1 in
      let asked = at_tier i (e.tier.get key) inner in
      let asks = at_tier-there i (e.tier.get key) inner t there in
      let kept : get_elem? asked.1.tiers i ≡ some read =
        ap (λ z. get_elem? z.1.tiers i) asks ∙ get_elem?-set i inner.tiers read t there in
      elim (Result-cases asked.0) [
        | inr (x, q) ↦ absurd (err≢ok (rw (q, read_fresh) at h))
        | inl (none, q) ↦ (
          read,
          rw (q, read_fresh) kept,
          inl (
            ok-injective (sym (rw (q, read_fresh) at h)),
            inl (ap (λ z. z.0) (sym asks) ∙ q, refl),
          ),
        )
        | inl (some entry, q) ↦
            let answer = ap (λ z. z.0) (sym asks) ∙ q in
            elim (Bool-cases (is_expired entry.expires_at now)) [
              | inr fresh ↦ (
                read,
                rw (q, fresh, read_fresh) kept,
                inr (
                  entry,
                  ok-injective (sym (rw (q, fresh, read_fresh) at h)),
                  (answer, fresh),
                  refl,
                ),
              )
              | inl old ↦
                  let removes = at_tier-there i (e.tier.remove key) asked.1 read kept in
                  elim (Result-cases (at_tier i (e.tier.remove key) asked.1).0) [
                    | inr (x, q') ↦ absurd (err≢ok (rw (q, old, q', read_fresh) at h))
                    | inl (_, q') ↦ (
                      (e.tier.remove key read).1,
                      rw (q, old, q', read_fresh)
                          (ap (λ z. get_elem? z.1.tiers i) removes
                            ∙ get_elem?-set i asked.1.tiers (e.tier.remove key read).1 read kept),
                      inl (
                        ok-injective (sym (rw (q, old, q', read_fresh) at h)),
                        inr (entry, answer, old, ap (λ z. z.0) (sym removes) ∙ q', refl),
                      ),
                    )
                  ]
            ]
      ]

  read_fresh-other :
      (i j : ℕ) (inner : KvEngineInner T)
      → i ≢ j
      → get_elem? (read_fresh e now key i inner).1.tiers j ≡ get_elem? inner.tiers j
  unfolding read_fresh
  read_fresh-other i j inner d =
      let asked = at_tier i (e.tier.get key) inner in
      let kept = at_tier-other i j (e.tier.get key) inner d in
      elim (Result-cases asked.0) [
        | inr (x, q) ↦ rw (q, read_fresh) kept
        | inl (none, q) ↦ rw (q, read_fresh) kept
        | inl (some entry, q) ↦ elim (Bool-cases (is_expired entry.expires_at now)) [
          | inr fresh ↦ rw (q, fresh, read_fresh) kept
          | inl old ↦
              let gone = at_tier-other i j (e.tier.remove key) asked.1 d ∙ kept in
              elim (Result-cases (at_tier i (e.tier.remove key) asked.1).0) [
                | inr (x, q') ↦ rw (q, old, q', read_fresh) gone
                | inl (_, q') ↦ rw (q, old, q', read_fresh) gone
              ]
        ]
      ]

  read_fresh-ok :
      (i : ℕ) (inner : KvEngineInner T) (o : Option KvTierEntry)
      → (read_fresh e now key i inner).0 ≡ ok o
      → (t : T) × (get_elem? inner.tiers i ≡ some t)
  unfolding read_fresh
  read_fresh-ok i inner o h = elim (Result-cases (at_tier i (e.tier.get key) inner).0) [
    | inr (x, q) ↦ absurd (err≢ok (rw (q, read_fresh) at h))
    | inl (a, q) ↦ at_tier-ok i (e.tier.get key) inner a q
  ]

  -- The search leaves the destination alone, and finds a fresh entry in a tier that is there.
  find_source-found :
      (destination n i : ℕ) (inner : KvEngineInner T) (o : Option (ℕ × KvTierEntry))
      → (find_source e now key destination n i inner).0 ≡ ok o
      → let after = (find_source e now key destination n i inner).1 in
        (get_elem? after.tiers destination ≡ get_elem? inner.tiers destination)
        × ((o ≡ none)
            ⊎ ((source : ℕ) × (entry : KvTierEntry) × (s : T) × (read : T) × (o
                  ≡ some (source, entry))
                × (source ≢ destination)
                × IsFresh s entry
                × (read ≡ (e.tier.get key s).1)
                × (get_elem? after.tiers source ≡ some read)))
  unfolding find_source
  find_source-found destination zero i inner o h = (refl, inl (ok-injective (sym h)))
  find_source-found destination (suc n) i inner o h = elim (Bool-cases (i == destination)) [
    | inl same ↦
        rw (same, find_source)
          (find_source-found destination n (suc i) inner o (rw (same, find_source) at h))
    | inr differs ↦
        let apart : i ≢ destination = λ q. absurd (ground arith) in
        let read = read_fresh e now key i inner in
        let other = read_fresh-other i destination inner apart in
        elim (Result-cases read.0) [
          | inr (x, q) ↦ absurd (err≢ok (rw (differs, q, find_source) at h))
          | inl (none, q) ↦
              let (kept, found) =
                find_source-found destination n (suc i) read.1 o
                  (rw (differs, q, find_source) at h) in
              rw (differs, q, find_source) (kept ∙ other, found)
          | inl (some entry, q) ↦
              let (s, there) = read_fresh-ok i inner (some entry) q in
              let (s', there', what) = read_fresh-there i inner s (some entry) there q in
              elim what [
                | inl (nothing, cleared) ↦ absurd (ground arith)
                | inr (entry', same, fresh, read_) ↦
                    rw (differs, q, find_source)
                      (
                        other,
                        inr (
                          i,
                          entry',
                          s,
                          s',
                          ok-injective (sym (rw (differs, q, find_source) at h))
                              ∙ ap (λ o. elim o [ none ↦ none | some z ↦ some (i, z) ]) same,
                          apart,
                          fresh,
                          read_,
                          there',
                        ),
                      )
              ]
        ]
  ]

  -- One key: whether it was prefetched, and the destination before and after. A hit has the fresh
  -- entry there, or the destination took a copy of one that another tier gave.
  pub IsPrefetched : T → Bool → T → Type 0
  IsPrefetched d hit d' =
      ((hit ≡ true) × ((entry : KvTierEntry) × IsFresh d entry × (d' ≡ (e.tier.get key d).1)))
      ⊎ ((cleared : T) × IsCleared d cleared
          × (((hit ≡ false) × (d' ≡ cleared))
              ⊎ ((hit ≡ true)
                  × ((entry : KvTierEntry) × (s : T) × IsFresh s entry
                      × IsDelivered e entry (e.tier.name (e.tier.get key s).1) cleared d'))))

  transfer_to-IsDelivered :
      (entry : KvTierEntry) (source destination : ℕ) (inner : KvEngineInner T) (s d : T)
      → source ≢ destination
      → get_elem? inner.tiers source ≡ some s
      → get_elem? inner.tiers destination ≡ some d
      → (transfer_to e entry source destination inner).0 ≡ ok tt
      → (d' : T) × (get_elem? (transfer_to e entry source destination inner).1.tiers destination
          ≡ some d')
        × IsDelivered e entry (e.tier.name s) d d'
  transfer_to-IsDelivered entry source destination inner s d apart at_source at_destination h =
      let sent =
        transfer_to-there e key entry s d source destination apart inner at_source at_destination in
      let moved = transfer_entry e entry (e.tier.name s) (d, inner.stats) in
      (
        moved.1.0,
        ap (λ z. get_elem? z.1.tiers destination) sent
            ∙ get_elem?-set destination inner.tiers moved.1.0 d at_destination,
        transfer_entry-IsDelivered e entry (e.tier.name s) d inner.stats
            (ap (λ z. z.0) (sym sent) ∙ h),
      )

  -- The destination was read without a fresh entry.
  prefetch_missing-IsPrefetched :
      (destination : ℕ) (inner : KvEngineInner T) (d cleared : T) (b : Bool)
      → IsCleared d cleared
      → (read_fresh e now key destination inner).0 ≡ ok none
      → get_elem? (read_fresh e now key destination inner).1.tiers destination ≡ some cleared
      → (prefetch_key e now key destination inner).0 ≡ ok b
      → (d' : T) × (get_elem? (prefetch_key e now key destination inner).1.tiers destination
          ≡ some d')
        × IsPrefetched d b d'
  unfolding prefetch_key IsPrefetched
  prefetch_missing-IsPrefetched destination inner d cleared b was q there h =
      let read = (read_fresh e now key destination inner).1 in
      let search = find_source e now key destination (length read.tiers) 0 read in
      elim (Result-cases search.0) [
        | inr (x, r) ↦ absurd (err≢ok (rw (q, r, prefetch_key) at h))
        | inl (o, r) ↦
            let (kept, found) = find_source-found destination (length read.tiers) 0 read o r in
            elim found [
              | inl none_ ↦
                  let r' : search.0 ≡ ok none = r ∙ ap ok none_ in
                  let missed = ok-injective (sym (rw (q, r', prefetch_key) at h)) in
                  (
                    cleared,
                    rw (q, r', prefetch_key) (kept ∙ there),
                    inr (cleared, was, inl (missed, refl)),
                  )
              | inr (source, entry, s, s', is, apart, fresh, left, at_source) ↦
                  let r' : search.0 ≡ ok (some (source, entry)) = r ∙ ap ok is in
                  elim (Result-cases (transfer_to e entry source destination search.1).0) [
                    | inr (x, w) ↦ absurd (err≢ok (rw (q, r', w, prefetch_key) at h))
                    | inl (_, w) ↦
                        let (d', after, delivered) =
                          transfer_to-IsDelivered entry source destination search.1 s' cleared apart
                            at_source (kept ∙ there) w in
                        let from =
                          subst (λ t. IsDelivered e entry (e.tier.name t) cleared d') left
                            delivered in
                        let hit = ok-injective (sym (rw (q, r', w, prefetch_key) at h)) in
                        (
                          d',
                          rw (q, r', w, prefetch_key) after,
                          inr (cleared, was, inr (hit, (entry, s, fresh, from))),
                        )
                  ]
            ]
      ]

  pub prefetch_key-IsPrefetched :
      (destination : ℕ) (inner : KvEngineInner T) (d : T) (b : Bool)
      → get_elem? inner.tiers destination ≡ some d
      → (prefetch_key e now key destination inner).0 ≡ ok b
      → (d' : T) × (get_elem? (prefetch_key e now key destination inner).1.tiers destination
          ≡ some d')
        × IsPrefetched d b d'
  unfolding prefetch_key IsPrefetched
  prefetch_key-IsPrefetched destination inner d b there h =
      let read = read_fresh e now key destination inner in
      elim (Result-cases read.0) [
        | inr (x, q) ↦ absurd (err≢ok (rw (q, prefetch_key) at h))
        | inl (o, q) ↦
            let (left, there', what) = read_fresh-there destination inner d o there q in
            elim what [
              | inr (entry, same, fresh, as_read) ↦
                  let q' : read.0 ≡ ok (some entry) = q ∙ ap ok same in
                  let hit = ok-injective (sym (rw (q', prefetch_key) at h)) in
                  (left, rw (q', prefetch_key) there', inl (hit, (entry, fresh, as_read)))
              | inl (same, cleared) ↦
                  prefetch_missing-IsPrefetched destination inner d left b cleared (q ∙ ap ok same)
                    there' h
            ]
      ]
