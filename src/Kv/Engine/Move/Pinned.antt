-- ===== src/Kv/Engine/Move/Pinned.antt =====
-- What `set_pinned` does to every tier.
use mathlib.Core.Path.{subst}
use rivet_cache.Prelude.{
  ℕ, ◌≡◌, ◌⊎◌, refl, sym, ◌∙◌, Bool, true, false, ◌||◌, List, [], ◌∷◌, none, some, inl, inr,
  Bool-cases,
}
use rivet_cache.Prelude.Results.{err≢ok, ok-injective, ok, Result-cases}
use rivet_cache.Cache.{is_expired}
use rivet_cache.Kv.{KvBlockKey, KvTierEntry}
use rivet_cache.Kv.Engine.{KvEngine, KvEngineStats, KvEngineInner}
use rivet_cache.Kv.Engine.Move.{pin_all, set_pinned, count_expiration}

or_true : (b : Bool) → true ≡ b || true
or_true false = refl
or_true true = refl

module _ {T : Type 0} (e : KvEngine T) (now : ℕ) (key : KvBlockKey) (pinned : Bool) where
  -- One tier: nothing under the key, or an expired entry that was removed, or a hit, where the tier
  -- took the entry with the new pin.
  pub IsRepinned : T → Bool → T → Type 0
  IsRepinned t hit t' =
      let read = (e.tier.get key t).1 in
      (((e.tier.get key t).0 ≡ ok none) × (hit ≡ false) × (t' ≡ read))
      ⊎ ((entry : KvTierEntry) × ((e.tier.get key t).0 ≡ ok (some entry))
          × (((is_expired entry.expires_at now ≡ true)
                × (hit ≡ false)
                × ((e.tier.remove key read).0 ≡ ok tt)
                × (t' ≡ (e.tier.remove key read).1))
              ⊎ ((is_expired entry.expires_at now ≡ false)
                  × (hit ≡ true)
                  × ((e.tier.put (record entry { pinned = pinned }) read).0 ≡ ok tt)
                  × (t' ≡ (e.tier.put (record entry { pinned = pinned }) read).1))))

  -- All tiers, and whether one of them was a hit.
  pub AllRepinned : List T → Bool → List T → Type 0
  AllRepinned [] hit after = (hit ≡ false) × (after ≡ [])
  AllRepinned (t ∷ ts) hit after =
      (here : Bool) × (below : Bool) × (t' : T) × (ts' : List T) × (hit ≡ here || below)
      × (after ≡ t' ∷ ts')
      × IsRepinned t here t'
      × AllRepinned ts below ts'

  pin_all-AllRepinned :
      (found : Bool) (ts : List T) (stats : KvEngineStats) (b : Bool)
      → (pin_all e now key pinned found ts stats).0 ≡ ok b
      → (hit : Bool) × (b ≡ found || hit)
        × AllRepinned ts hit (pin_all e now key pinned found ts stats).1.0
  unfolding pin_all AllRepinned IsRepinned
  pin_all-AllRepinned found [] stats b h =
      (false, sym (ok-injective h) ∙ or_false found, (refl, refl))
    where
      or_false : (c : Bool) → c ≡ c || false
      or_false false = refl
      or_false true = refl
  pin_all-AllRepinned found (t ∷ ts) stats b h = elim (Result-cases (e.tier.get key t).0) [
    | inr (x, q) ↦ absurd (err≢ok (rw (q, pin_all) at h))
    | inl (none, q) ↦
        let (hit, flag, rest) = pin_all-AllRepinned found ts stats b (rw (q, pin_all) at h) in
        (hit, flag, (false, hit, _, _, refl, rw (q, pin_all), inl (q, refl, refl), rest))
    | inl (some entry, q) ↦ elim (Bool-cases (is_expired entry.expires_at now)) [
      | inl old ↦ elim (Result-cases (e.tier.remove key (e.tier.get key t).1).0) [
        | inr (x, q') ↦ absurd (err≢ok (rw (q, old, q', pin_all) at h))
        | inl (_, q') ↦
            let (hit, flag, rest) =
              pin_all-AllRepinned found ts (count_expiration stats) b
                (rw (q, old, q', pin_all) at h) in
            (
              hit,
              flag,
              (
                false,
                hit,
                _,
                _,
                refl,
                rw (q, old, q', pin_all),
                inr (entry, q, inl (old, refl, q', refl)),
                rest,
              ),
            )
      ]
      | inr fresh ↦
          elim (Result-cases
            (e.tier.put (record entry { pinned = pinned }) (e.tier.get key t).1).0) [
              | inr (x, q') ↦ absurd (err≢ok (rw (q, fresh, q', pin_all) at h))
              | inl (_, q') ↦
                  let (hit, flag, rest) =
                    pin_all-AllRepinned true ts stats b (rw (q, fresh, q', pin_all) at h) in
                  (
                    true,
                    flag ∙ or_true found,
                    (
                      true,
                      hit,
                      _,
                      _,
                      refl,
                      rw (q, fresh, q', pin_all),
                      inr (entry, q, inr (fresh, refl, q', refl)),
                      rest,
                    ),
                  )
            ]
    ]
  ]

-- A `set_pinned` that does not fail has gone through every tier: one that answered with a fresh entry
-- has taken it with the new pin, one that answered with an expired entry has removed the key, and the
-- others are as their `get` left them. It returns whether a tier answered with a fresh entry.
pub set_pinned-AllRepinned :
    {T : Type 0} (e : KvEngine T) (now : ℕ) (key : KvBlockKey) (pinned : Bool)
    (inner : KvEngineInner T) (found : Bool)
    → (set_pinned e now key pinned inner).0 ≡ ok found
    → AllRepinned e now key pinned inner.tiers found (set_pinned e now key pinned inner).1.tiers
unfolding set_pinned
set_pinned-AllRepinned e now key pinned inner found h =
    let (hit, flag, all) =
      pin_all-AllRepinned e now key pinned false inner.tiers inner.stats found h in
    subst
      (λ b. AllRepinned e now key pinned inner.tiers b (set_pinned e now key pinned inner).1.tiers)
      (sym flag) all
