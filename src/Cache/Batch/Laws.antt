-- ===== src/Cache/Batch/Laws.antt =====
-- `invalidate`, `clear`, and the batch operations' check of every key before the first effect.
use rivet_cache.Prelude.{
  ℕ, zero, suc, ◌≡◌, refl, inl, inr, List, [], ◌∷◌, none, some, arith, get_elem?, Option-cases,
}
use rivet_cache.Prelude.Lists.{Bytes, Bytes-discrete}
use rivet_cache.Prelude.Maps.{lookup, lookup-remove_self}
use rivet_cache.Prelude.Results.{ErrorKind, ok, err, Result-cases}
use rivet_cache.Cache.{Inner, ContextCache, World}
use rivet_cache.Cache.Memory.{forget_memory}
use rivet_cache.Cache.Disk.{store_remove}
use rivet_cache.Cache.Get.{get}
use rivet_cache.Cache.Get.Sound.{get_absent}
use rivet_cache.Cache.Batch.{
  Write, forget_indexed, validate_all, keys_of, put_many, invalidate, invalidate_many, clear,
  store_clear,
}

lookup-forget_indexed :
    (key : Bytes) (i : Inner) → lookup Bytes-discrete key (forget_indexed key i).disk ≡ none
unfolding forget_indexed
lookup-forget_indexed key i = elim (Option-cases (lookup Bytes-discrete key i.disk)) [
  | inl absent ↦ rw (absent, forget_indexed) absent
  | inr (r, there) ↦ rw (there, forget_indexed) (lookup-remove_self Bytes-discrete key i.disk)
]

memory-forget_indexed-none :
    (key : Bytes) (i : Inner)
    → lookup Bytes-discrete key i.memory ≡ none
    → lookup Bytes-discrete key (forget_indexed key i).memory ≡ none
unfolding forget_indexed
memory-forget_indexed-none key i h = ground arith

module _ {S : Type 0} (c : ContextCache S) where
  invalidate-forgets :
      (key : Bytes) (w : World S)
      → (invalidate c key w).0 ≡ ok tt
      → (c.validate key ≡ ok tt)
        × (lookup Bytes-discrete key (invalidate c key w).1.inner.memory ≡ none)
        × (lookup Bytes-discrete key (invalidate c key w).1.inner.disk ≡ none)
  unfolding invalidate
  invalidate-forgets key w h = elim (Result-cases (c.validate key)) [
    | inr (e, invalid) ↦ absurd (ground arith)
    | inl (_, valid) ↦ elim (Result-cases (store_remove c.store key w).0) [
      | inr (e, fails) ↦ absurd (ground arith)
      | inl (_, done) ↦
          let i = (store_remove c.store key w).1.inner in
          (
            valid,
            rw (valid, invalidate, done)
                (memory-forget_indexed-none key (forget_memory key i)
                  (unfold forget_memory in lookup-remove_self Bytes-discrete key i.memory)),
            rw (valid, invalidate, done) (lookup-forget_indexed key (forget_memory key i)),
          )
    ]
  ]

  -- After a successful `invalidate` every `get` of the key is a miss, at any time.
  pub get-invalidate :
      (now : ℕ) (key : Bytes) (w : World S)
      → (invalidate c key w).0 ≡ ok tt
      → (get c now key (invalidate c key w).1).0 ≡ ok none
  get-invalidate now key w h =
      let (valid, absent, unindexed) = invalidate-forgets key w h in
      get_absent c now key (invalidate c key w).1 valid absent unindexed

  -- After a successful `clear` every `get` of a valid key is a miss.
  get-clear :
      (now : ℕ) (key : Bytes) (w : World S)
      → c.validate key ≡ ok tt
      → (clear c w).0 ≡ ok tt
      → (get c now key (clear c w).1).0 ≡ ok none
  unfolding clear
  get-clear now key w valid h = elim (Result-cases (store_clear c.store w).0) [
    | inr (e, fails) ↦ absurd (ground arith)
    | inl (_, done) ↦
        rw (done, clear)
          (get_absent c now key _ valid (unfold lookup in refl) (unfold lookup in refl))
  ]

  validate_all_fails :
      (keys : List Bytes) (n : ℕ) (key : Bytes) (e : ErrorKind)
      → get_elem? keys n ≡ some key
      → c.validate key ≡ err e
      → (e' : ErrorKind) × (validate_all c keys ≡ err e')
  unfolding validate_all
  validate_all_fails [] n key e h bad = cc
  validate_all_fails (k ∷ keys) zero key e h bad = (e, ground arith)
  validate_all_fails (k ∷ keys) (suc n) key e h bad = elim (Result-cases (c.validate k)) [
    | inr (e', first) ↦ (e', rw (first, validate_all) refl)
    | inl (_, fine) ↦ rw (fine, validate_all) (validate_all_fails keys n key e h bad)
  ]

  -- One bad key among the writes, and `put_many` fails before it has changed anything.
  put_many_invalid :
      (clock : ℕ → ℕ) (xs : List Write) (n : ℕ) (key : Bytes) (e : ErrorKind) (w : World S)
      → get_elem? (keys_of xs) n ≡ some key
      → c.validate key ≡ err e
      → (e' : ErrorKind) × (put_many c clock xs w ≡ (err e', w))
  unfolding put_many
  put_many_invalid clock xs n key e w h bad =
      let (e', stops) = validate_all_fails (keys_of xs) n key e h bad in (e', rw (stops, put_many))

  -- And so does `invalidate_many`.
  invalidate_many_invalid :
      (keys : List Bytes) (n : ℕ) (key : Bytes) (e : ErrorKind) (w : World S)
      → get_elem? keys n ≡ some key
      → c.validate key ≡ err e
      → (e' : ErrorKind) × (invalidate_many c keys w ≡ (err e', w))
  unfolding invalidate_many
  invalidate_many_invalid keys n key e w h bad =
      let (e', stops) = validate_all_fails keys n key e h bad in (e', rw (stops, invalidate_many))
