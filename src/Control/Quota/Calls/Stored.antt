-- ===== src/Control/Quota/Calls/Stored.antt =====
-- What the operations make of the bytes and the entries that the tenants use.
use mathlib.Core.Path.{subst}
use rivet_cache.Prelude.{
  ℕ, ◌+◌, ◌-◌, ◌≤◌, ◌≡◌, ◌≢◌, refl, sym, ap, ◌∙◌, Bool, true, false, [], none, some, arith, leb,
  Bool-cases, Option-cases, inl, inr,
}
use rivet_cache.Prelude.Lists.{Bytes, Bytes-discrete}
use rivet_cache.Prelude.Maps.{lookup, lookup-insert_ne, lookup-insert_self}
use rivet_cache.Prelude.Words.{sat_add-le, u64_max}
use rivet_cache.Prelude.Results.{Result-cases}
use rivet_cache.Control.{TenantQuota, TenantState, validate_quota, validate_id}
use rivet_cache.Control.Quota.{
  QuotaManager, tenant_state, set_state, is_above, set_quota, RequestLease, begin_request, release,
  StorageReservation, pending, committed, released, reserve_storage, release_storage, rollback,
  commit,
}
use rivet_cache.Control.Quota.Calls.{for_tenant, store_more, store_less}
use rivet_cache.Control.Quota.Calls.Accounts.{used_by}
use rivet_cache.Control.Quota.Calls.Requests.{release_done, release_absent, release_out}
use rivet_cache.Control.Quota.Calls.Balances.{reserve_in, commit_in, release_in}
use rivet_cache.Control.Quota.Calls.Storage.{reserve_storage_cases}

-- What the tenant uses, in the manager.
abbrev pub usage : Bytes → QuotaManager → ℕ × ℕ
usage t m = used_by (tenant_state t m)

set_state-usage :
    (m : QuotaManager) (k : Bytes) (state : TenantState) (stored : Bytes → ℕ × ℕ)
    → used_by (some state) ≡ stored k
    → ((t : Bytes) → t ≢ k → usage t m ≡ stored t)
    → (t : Bytes) → usage t (set_state k state m) ≡ stored t
set_state-usage m k state stored here elsewhere t = elim (Bytes-discrete t k) [
  | yes same ↦
      subst (λ j. usage j (set_state k state m) ≡ stored j) (sym same)
        (ap used_by (lookup-insert_self Bytes-discrete k state m) ∙ here)
  | no differs ↦
      ap used_by (lookup-insert_ne Bytes-discrete t k state m differs) ∙ elsewhere t differs
]

module _ (m : QuotaManager) (stored : Bytes → ℕ × ℕ)
    (before : (t : Bytes) → usage t m ≡ stored t) where
  -- A new state with the same use.
  same_use :
      (k : Bytes) (state : TenantState)
      → used_by (some state) ≡ usage k m
      → (t : Bytes) → usage t (set_state k state m) ≡ stored t
  same_use k state same = set_state-usage m k state stored (same ∙ before k) (λ t d. before t)

  pub set_quota-usage :
      (k : Bytes) (quota : TenantQuota) (t : Bytes) → usage t (set_quota k quota m).1 ≡ stored t
  unfolding set_quota used_by
  set_quota-usage k quota = elim (Result-cases (validate_id k)) [
    | inr (x, q) ↦ rw (q, set_quota) before
    | inl (_, q) ↦ elim (Result-cases (validate_quota quota)) [
      | inr (x, q') ↦ rw (q, q', set_quota) before
      | inl (_, q') ↦ elim (Option-cases (tenant_state k m)) [
        | inl absent ↦ rw (q, q', absent, set_quota) (same_use k _ (ap used_by (sym absent)))
        | inr (state, there) ↦ elim (Bool-cases (is_above state.usage quota)) [
          | inl above ↦ rw (q, q', there, above, set_quota) before
          | inr below ↦ rw (q, q', there, below, set_quota) (same_use k _ (ap used_by (sym there)))
        ]
      ]
    ]
  ]

  pub begin_request-usage : (k t : Bytes) → usage t (begin_request k m).1 ≡ stored t
  unfolding begin_request used_by
  begin_request-usage k = elim (Option-cases (tenant_state k m)) [
    | inl absent ↦ rw (absent, begin_request) before
    | inr (state, there) ↦ elim (Bool-cases (leb state.quota.max_inflight state.usage.inflight)) [
      | inl busy ↦ rw (there, busy, begin_request) before
      | inr free ↦ rw (there, free, begin_request) (same_use k _ (ap used_by (sym there)))
    ]
  ]

  release_by-usage :
      (tenant : Bytes) (done : Bool) (t : Bytes)
      → usage t (release (record { tenant = tenant; released = done }) m) ≡ stored t
  unfolding used_by
  release_by-usage tenant true t = ap (usage t) (release_done tenant true m refl) ∙ before t
  release_by-usage tenant false t = elim (Option-cases (tenant_state tenant m)) [
    | inl absent ↦ ap (usage t) (release_absent tenant m absent) ∙ before t
    | inr (state, there) ↦
        ap (usage t) (release_out tenant false m state refl there)
        ∙ same_use tenant _ (ap used_by (sym there)) t
  ]

  pub release-usage : (lease : RequestLease) (t : Bytes) → usage t (release lease m) ≡ stored t
  release-usage lease t = release_by-usage lease.tenant lease.released t

  pub reserve_storage-usage :
      (k : Bytes) (x y : ℕ) (t : Bytes) → usage t (reserve_storage k x y m).1 ≡ stored t
  unfolding used_by
  reserve_storage-usage k x y = elim (reserve_storage_cases k x y m) [
    | inl (z, refused) ↦ rw refused before
    | inr (state, there, below, positive, made) ↦
        rw made (same_use k (reserve_in x y state) (ap used_by (sym there)))
  ]

  pub rollback-usage : (r : StorageReservation) (t : Bytes) → usage t (rollback r m).1 ≡ stored t
  unfolding rollback used_by
  rollback-usage r =
      elim r.state
        as (λ z. (t : Bytes) → usage t (rollback (record r { state = z }) m).1 ≡ stored t) [
          | committed ↦ before
          | released ↦ before
          | pending ↦ elim (Option-cases (tenant_state r.tenant m)) [
            | inl absent ↦ rw (absent, rollback) before
            | inr (state, there) ↦
                rw (there, rollback) (same_use r.tenant _ (ap used_by (sym there)))
          ]
        ]

less_of_other : (t k : Bytes) (a n : ℕ) → t ≢ k → a ≡ a - for_tenant t k n
less_of_other t k a n d = ground arith

more_of_other : (t k : Bytes) (a n : ℕ) → t ≢ k → a ≡ a + for_tenant t k n
more_of_other t k a n d = ground arith

less_of_own : (k : Bytes) (a n : ℕ) → a - n ≡ a - for_tenant k k n
less_of_own k a n = ground arith

more_of_own : (k : Bytes) (a n : ℕ) → a + n ≡ a + for_tenant k k n
more_of_own k a n = ground arith

both : {a b c d : ℕ} → a ≡ c → b ≡ d → ◌≡◌ {A = ℕ × ℕ} (a, b) (c, d)
both p q = cc

none_less : (t k : Bytes) (n : ℕ) → 0 ≡ 0 - for_tenant t k n
none_less t k n = omega arith

module _ (m : QuotaManager) (sb se : Bytes → ℕ)
    (before : (t : Bytes) → usage t m ≡ (sb t, se t)) where
  present_usage :
      (k : Bytes) (state : TenantState)
      → tenant_state k m ≡ some state
      → (state.usage.used_bytes ≡ sb k) × (state.usage.used_entries ≡ se k)
  unfolding used_by
  present_usage k state there =
      let same : ◌≡◌ {A = ℕ × ℕ} (state.usage.used_bytes, state.usage.used_entries) (sb k, se k) =
        ap used_by (sym there) ∙ before k in
      (ap (λ p. p.0) same, ap (λ p. p.1) same)

  absent_usage : (k : Bytes) → tenant_state k m ≡ none → (0 ≡ sb k) × (0 ≡ se k)
  unfolding used_by
  absent_usage k there =
      let same : ◌≡◌ {A = ℕ × ℕ} (0, 0) (sb k, se k) = ap used_by (sym there) ∙ before k in
      (ap (λ p. p.0) same, ap (λ p. p.1) same)

  pub release_storage-usage :
      (k : Bytes) (x y : ℕ) (t : Bytes)
      → usage t (release_storage k x y m).1 ≡ (store_less k x sb t, store_less k y se t)
  unfolding release_storage used_by
  release_storage-usage k x y t = elim (Option-cases (tenant_state k m)) [
    | inr (state, there) ↦
        let (p, q) = present_usage k state there in
        rw (there, release_storage)
          (set_state-usage m k (release_in x y state)
            (λ j. (store_less k x sb j, store_less k y se j))
            (both (ap (λ a. a - x) p ∙ less_of_own k (sb k) x)
              (ap (λ a. a - y) q ∙ less_of_own k (se k) y))
            (λ j d. before j ∙ both (less_of_other j k (sb j) x d) (less_of_other j k (se j) y d))
            t)
    | inl absent ↦
        let (p, q) = absent_usage k absent in
        rw (absent, release_storage)
          (before t ∙ elim (Bytes-discrete t k) [
            | no d ↦ both (less_of_other t k (sb t) x d) (less_of_other t k (se t) y d)
            | yes same ↦
                let p' : 0 ≡ sb t = p ∙ ap sb (sym same) in
                let q' : 0 ≡ se t = q ∙ ap se (sym same) in both (omega arith) (omega arith)
          ])
  ]

  pub commit-usage :
      (r : StorageReservation)
      → ((state : TenantState)
          → tenant_state r.tenant m ≡ some state
          → (state.usage.used_bytes + r.bytes ≤ u64_max)
            × (state.usage.used_entries + r.entries ≤ u64_max))
      → (t : Bytes)
      → usage t (commit r m).1 ≡ (
        store_more (commit r m).0 r.tenant r.bytes sb t,
        store_more (commit r m).0 r.tenant r.entries se t,
      )
  unfolding commit used_by
  commit-usage r exact t = elim (Option-cases (tenant_state r.tenant m)) [
    | inl absent ↦ rw (absent, commit) (rollback-usage m (λ j. (sb j, se j)) before r t)
    | inr (state, there) ↦
        let (p, q) = present_usage r.tenant state there in
        let (small, small') = exact state there in
        rw (there, commit)
          (set_state-usage m r.tenant (commit_in r.bytes r.entries state)
            (λ j. (sb j + for_tenant j r.tenant r.bytes, se j + for_tenant j r.tenant r.entries))
            (both
              (sat_add-le state.usage.used_bytes r.bytes small
                ∙ ap (λ a. a + r.bytes) p
                ∙ more_of_own r.tenant (sb r.tenant) r.bytes)
              (sat_add-le state.usage.used_entries r.entries small'
                ∙ ap (λ a. a + r.entries) q
                ∙ more_of_own r.tenant (se r.tenant) r.entries))
            (λ j d.
              before j
              ∙ both (more_of_other j r.tenant (sb j) r.bytes d)
                  (more_of_other j r.tenant (se j) r.entries d))
            t)
  ]

pub no_state-usage : (t : Bytes) → usage t [] ≡ (0, 0)
unfolding used_by lookup
no_state-usage t = refl
