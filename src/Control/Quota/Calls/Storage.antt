-- ===== src/Control/Quota/Calls/Storage.antt =====
-- `reserve_storage`, `commit`, `rollback` and `release_storage` keep the accounts.
use mathlib.Core.Path.{subst}
use rivet_cache.Prelude.{◌≤◌}
use rivet_cache.Prelude.{
  All, ℕ, ◌+◌, ◌<◌, ◌≡◌, ◌≢◌, refl, false, List, none, some, arith, ◌==◌, Bool-cases, Option-cases,
  inl, inr, ◌⊎◌, ◌||◌,
}
use rivet_cache.Prelude.Lists.{Bytes}
use rivet_cache.Prelude.Results.{ErrorKind, invalid_input, not_found, other, ok, err}
use rivet_cache.Control.{TenantState}
use rivet_cache.Control.Quota.{
  QuotaManager, tenant_state, set_state, StorageReservation, pending, reserve_storage,
  release_storage, rollback, commit,
}
use rivet_cache.Control.Quota.Calls.{hold_reservation}
use rivet_cache.Control.Quota.Calls.Accounts.{
  sum_of, IsHeld, bytes_hold, entries_hold, IsBalanced, IsAccount, set_state-IsAccount,
  present_balances, absent_holds,
}
use rivet_cache.Prelude.Words.{u64_max}
use rivet_cache.Control.Quota.Calls.Balances.{
  reserve_in, roll_back_in, commit_in, release_in, exceeds, reserve-IsBalanced,
  roll_back-IsBalanced, commit-IsBalanced, release-IsBalanced,
}

bytes_hold_ne : (t : Bytes) (r : StorageReservation) → t ≢ r.tenant → bytes_hold t r ≡ 0
bytes_hold_ne t r h = ground arith

entries_hold_ne : (t : Bytes) (r : StorageReservation) → t ≢ r.tenant → entries_hold t r ≡ 0
entries_hold_ne t r h = ground arith

bytes_hold_self : (r : StorageReservation) → bytes_hold r.tenant r ≡ r.bytes
bytes_hold_self r = ground arith

entries_hold_self : (r : StorageReservation) → entries_hold r.tenant r ≡ r.entries
entries_hold_self r = ground arith

-- A reservation is made, or nothing changes.
pub reserve_storage_cases :
    (k : Bytes) (x y : ℕ) (m : QuotaManager)
    → ((z : ErrorKind) × (reserve_storage k x y m ≡ (err z, m)))
      ⊎ ((state : TenantState) × (tenant_state k m ≡ some state)
          × (exceeds x y state ≡ false)
          × (0 < x)
          × (reserve_storage k x y m ≡ (
            ok (record { tenant = k; bytes = x; entries = y; state = pending }),
            set_state k (reserve_in x y state) m,
          )))
unfolding reserve_storage
reserve_storage_cases k x y m = elim (Bool-cases (x == 0 || y == 0)) [
  | inl empty ↦ inl (invalid_input, rw (empty, reserve_storage))
  | inr full ↦ elim (Option-cases (tenant_state k m)) [
    | inl absent ↦ inl (not_found, rw (full, absent, reserve_storage))
    | inr (state, there) ↦ elim (Bool-cases (exceeds x y state)) [
      | inl above ↦ inl (other, rw (full, there, above, reserve_storage))
      | inr below ↦
          inr (state, there, below, ground arith, rw (full, there, below, reserve_storage))
    ]
  ]
]

module _ (m : QuotaManager) (n : Bytes → ℕ) (reservations : List StorageReservation) where
  pub reserve_storage-IsAccount :
      (k : Bytes) (x y : ℕ)
      → ((t : Bytes)
          → IsAccount
              (tenant_state t m)
              (n t)
              (sum_of (bytes_hold t) reservations)
              (sum_of (entries_hold t) reservations))
      → All IsHeld reservations
      → ((t : Bytes)
          → IsAccount
              (tenant_state t (reserve_storage k x y m).1)
              (n t)
              (sum_of (bytes_hold t) (hold_reservation (reserve_storage k x y m).0 reservations))
              (sum_of (entries_hold t) (hold_reservation (reserve_storage k x y m).0 reservations)))
        × All IsHeld (hold_reservation (reserve_storage k x y m).0 reservations)
  reserve_storage-IsAccount k x y before held = elim (reserve_storage_cases k x y m) [
    | inl (z, refused) ↦ rw refused (before, held)
    | inr (state, there, below, positive, made) ↦
        let r : StorageReservation = record {
          tenant = k;
          bytes = x;
          entries = y;
          state = pending;
        } in
        let b = λ (t : Bytes). sum_of (bytes_hold t) reservations in
        let e = λ (t : Bytes). sum_of (entries_hold t) reservations in
        rw made (
          set_state-IsAccount m k (reserve_in x y state) n b e n (λ t. bytes_hold t r + b t)
              (λ t. entries_hold t r + e t) before
              (rw (bytes_hold_self r, entries_hold_self r)
                (reserve-IsBalanced state (n k) (b k) (e k) x y
                  (present_balances m n b e before k state there) below))
              (λ t d. (
                refl,
                rw (bytes_hold_ne t r d) (omega arith),
                rw (entries_hold_ne t r d) (omega arith),
              )),
          ((refl, positive), held),
        )
  ]

module _ (m : QuotaManager) (n b e : Bytes → ℕ)
    (before : (t : Bytes) → IsAccount (tenant_state t m) (n t) (b t) (e t)) where
  pub release_storage-IsAccount :
      (k : Bytes) (x y : ℕ) (t : Bytes)
      → IsAccount (tenant_state t (release_storage k x y m).1) (n t) (b t) (e t)
  unfolding release_storage
  release_storage-IsAccount k x y = elim (Option-cases (tenant_state k m)) [
    | inl absent ↦ rw (absent, release_storage) before
    | inr (state, there) ↦
        rw (there, release_storage)
          (set_state-IsAccount m k (release_in x y state) n b e n b e before
            (release-IsBalanced state (n k) (b k) (e k) x y
              (present_balances m n b e before k state there))
            (λ t d. (refl, refl, refl)))
  ]

  -- The reservation is settled, and the others stay.
  module _ (r : StorageReservation) (is_held : IsHeld r) (b' e' : Bytes → ℕ)
      (bytes : (t : Bytes) → bytes_hold t r + b' t ≡ b t)
      (entries : (t : Bytes) → entries_hold t r + e' t ≡ e t) where
    settled_balances :
        (state : TenantState)
        → tenant_state r.tenant m ≡ some state
        → IsBalanced state (n r.tenant) (r.bytes + b' r.tenant) (r.entries + e' r.tenant)
    settled_balances state there =
        let x = bytes_hold_self r in
        let y = entries_hold_self r in
        let p : b r.tenant ≡ r.bytes + b' r.tenant = omega (arith, bytes r.tenant) in
        let q : e r.tenant ≡ r.entries + e' r.tenant = omega (arith, entries r.tenant) in
        subst (λ z. IsBalanced state (n r.tenant) z (r.entries + e' r.tenant)) p
          (subst (λ z. IsBalanced state (n r.tenant) (b r.tenant) z) q
            (present_balances m n b e before r.tenant state there))

    -- What is committed does not saturate.
    pub commit_exact :
        (state : TenantState)
        → tenant_state r.tenant m ≡ some state
        → (state.usage.used_bytes + r.bytes ≤ u64_max)
          × (state.usage.used_entries + r.entries ≤ u64_max)
    commit_exact state there =
        let is_ = settled_balances state there in
        let x = is_.bytes-le in
        let y = is_.entries-le in
        let p = is_.bytes-lt in let q = is_.entries-lt in (omega arith, omega arith)

    is_present : tenant_state r.tenant m ≢ none
    is_present absent =
        let (_, z, _) = absent_holds m n b e before r.tenant absent in
        let p = is_held.1 in omega (arith, bytes r.tenant, bytes_hold_self r)

    set_settled :
        (state : TenantState)
        → IsBalanced state (n r.tenant) (b' r.tenant) (e' r.tenant)
        → (t : Bytes) → IsAccount (tenant_state t (set_state r.tenant state m)) (n t) (b' t) (e' t)
    set_settled state is_ = set_state-IsAccount m r.tenant state n b e n b' e' before is_ (λ t d. (
      refl,
      omega (arith, bytes t, bytes_hold_ne t r d),
      omega (arith, entries t, entries_hold_ne t r d),
    ))

    pub commit-IsAccount :
        (t : Bytes) → IsAccount (tenant_state t (commit r m).1) (n t) (b' t) (e' t)
    unfolding commit
    commit-IsAccount = elim (Option-cases (tenant_state r.tenant m)) [
      | inl absent ↦ absurd (is_present absent)
      | inr (state, there) ↦
          rw (there, commit)
            (set_settled (commit_in r.bytes r.entries state) (
              commit-IsBalanced state (n r.tenant) (b' r.tenant) (e' r.tenant) r.bytes r.entries
                (settled_balances state there)))
    ]

    pub rollback-IsAccount :
        (t : Bytes) → IsAccount (tenant_state t (rollback r m).1) (n t) (b' t) (e' t)
    unfolding rollback
    rollback-IsAccount = elim (Option-cases (tenant_state r.tenant m)) [
      | inl absent ↦ absurd (is_present absent)
      | inr (state, there) ↦
          rw (is_held.0, there, rollback)
            (set_settled (roll_back_in r.bytes r.entries state) (
              roll_back-IsBalanced state (n r.tenant) (b' r.tenant) (e' r.tenant) r.bytes r.entries
                (settled_balances state there)))
    ]
