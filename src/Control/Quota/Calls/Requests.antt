-- ===== src/Control/Quota/Calls/Requests.antt =====
-- `set_quota`, `begin_request` and `release` keep the accounts.
use mathlib.Core.Path.{subst}
use rivet_cache.Prelude.{
  ℕ, ◌+◌, ◌-◌, ◌<◌, ◌≡◌, ◌≢◌, refl, sym, ap, Bool, true, false, List, some, arith, leb, Bool-cases,
  Option-cases, inl, inr,
}
use rivet_cache.Prelude.Lists.{Bytes}
use rivet_cache.Prelude.Words.{sat_add, u64_max}
use rivet_cache.Prelude.Results.{Result-cases}
use rivet_cache.Control.{TenantQuota, TenantState, no_usage, validate_quota, validate_id}
use rivet_cache.Control.Quota.{
  none, QuotaManager, tenant_state, set_state, is_above, set_quota, RequestLease, with_inflight,
  begin_request, release_inner, release,
}
use rivet_cache.Control.Quota.Calls.{hold_lease}
use rivet_cache.Control.Quota.Calls.Accounts.{
  sum_of, lease_hold, IsBalanced, IsAccount, set_state-IsAccount, present_balances, absent_holds,
}

-- The usage that an account allows is below a quota that `set_quota` accepts for it.
with_quota-IsBalanced :
    (state : TenantState) (quota : TenantQuota) (n b e : ℕ)
    → quota.max_bytes < u64_max
    → quota.max_entries < u64_max
    → IsBalanced state n b e
    → is_above state.usage quota ≡ false
    → IsBalanced (record state { quota = quota }) n b e
unfolding is_above sat_add
with_quota-IsBalanced state quota n b e hb he is_ h =
    let p = is_.inflight in
    let q = is_.reserved_bytes in
    let r = is_.reserved_entries in
    let bb = is_.bytes-le in
    let ee = is_.entries-le in
    let bl = is_.bytes-lt in
    let el = is_.entries-lt in
    record {
      inflight = p;
      reserved_bytes = q;
      reserved_entries = r;
      inflight-le = ground arith;
      bytes-le = ground arith;
      entries-le = ground arith;
      bytes-lt = hb;
      entries-lt = he;
    }

new-IsBalanced :
    (quota : TenantQuota)
    → quota.max_bytes < u64_max
    → quota.max_entries < u64_max
    → IsBalanced (record { quota = quota; usage = no_usage }) 0 0 0
new-IsBalanced quota hb he = record {
  inflight = refl;
  reserved_bytes = refl;
  reserved_entries = refl;
  inflight-le = omega arith;
  bytes-le = omega arith;
  entries-le = omega arith;
  bytes-lt = hb;
  entries-lt = he;
}

begin-IsBalanced :
    (state : TenantState) (n b e : ℕ)
    → IsBalanced state n b e
    → leb state.quota.max_inflight state.usage.inflight ≡ false
    → IsBalanced (with_inflight (state.usage.inflight + 1) state) (1 + n) b e
begin-IsBalanced state n b e is_ h =
    let p = is_.inflight in
    record {
      inflight = omega arith;
      reserved_bytes = is_.reserved_bytes;
      reserved_entries = is_.reserved_entries;
      inflight-le = ground arith;
      bytes-le = is_.bytes-le;
      entries-le = is_.entries-le;
      bytes-lt = is_.bytes-lt;
      entries-lt = is_.entries-lt;
    }

end-IsBalanced :
    (state : TenantState) (n b e : ℕ)
    → IsBalanced state (1 + n) b e
    → IsBalanced (with_inflight (state.usage.inflight - 1) state) n b e
end-IsBalanced state n b e is_ =
    let p = is_.inflight in
    let q = is_.inflight-le in
    record {
      inflight = omega arith;
      reserved_bytes = is_.reserved_bytes;
      reserved_entries = is_.reserved_entries;
      inflight-le = omega arith;
      bytes-le = is_.bytes-le;
      entries-le = is_.entries-le;
      bytes-lt = is_.bytes-lt;
      entries-lt = is_.entries-lt;
    }

module _ (m : QuotaManager) (n b e : Bytes → ℕ)
    (before : (t : Bytes) → IsAccount (tenant_state t m) (n t) (b t) (e t)) where
  pub set_quota-IsAccount :
      (k : Bytes) (quota : TenantQuota)
      → quota.max_bytes < u64_max
      → quota.max_entries < u64_max
      → (t : Bytes) → IsAccount (tenant_state t (set_quota k quota m).1) (n t) (b t) (e t)
  unfolding set_quota
  set_quota-IsAccount k quota hb he = elim (Result-cases (validate_id k)) [
    | inr (x, q) ↦ rw (q, set_quota) before
    | inl (_, q) ↦ elim (Result-cases (validate_quota quota)) [
      | inr (x, q') ↦ rw (q, q', set_quota) before
      | inl (_, q') ↦ elim (Option-cases (tenant_state k m)) [
        | inl absent ↦
            let (x, y, z) = absent_holds m n b e before k absent in
            rw (q, q', absent, set_quota)
              (set_state-IsAccount m k _ n b e n b e before
                (rw (x, y, z) (new-IsBalanced quota hb he)) (λ t d. (refl, refl, refl)))
        | inr (state, there) ↦ elim (Bool-cases (is_above state.usage quota)) [
          | inl above ↦ rw (q, q', there, above, set_quota) before
          | inr below ↦
              rw (q, q', there, below, set_quota)
                (set_state-IsAccount m k _ n b e n b e before
                  (with_quota-IsBalanced state quota (n k) (b k) (e k) hb he
                    (present_balances m n b e before k state there) below)
                  (λ t d. (refl, refl, refl)))
        ]
      ]
    ]
  ]

lease_hold_self :
    (lease : RequestLease) → lease.released ≡ false → lease_hold lease.tenant lease ≡ 1
lease_hold_self lease h = ground arith

lease_hold_ne : (t : Bytes) (lease : RequestLease) → t ≢ lease.tenant → lease_hold t lease ≡ 0
lease_hold_ne t lease h = ground arith

lease_hold_done :
    (t : Bytes) (lease : RequestLease) → lease.released ≡ true → lease_hold t lease ≡ 0
lease_hold_done t lease h = ground arith

-- A lease that is released already, and one that is not.
pub release_done :
    (tenant : Bytes) (done : Bool) (m : QuotaManager)
    → done ≡ true
    → release (record { tenant = tenant; released = done }) m ≡ m
unfolding release
release_done tenant true m h = refl
release_done tenant false m h = absurd (ground arith)

pub release_absent :
    (tenant : Bytes) (m : QuotaManager)
    → tenant_state tenant m ≡ none
    → release (record { tenant = tenant; released = false }) m ≡ m
unfolding release
release_absent tenant m absent =
    let once : release_inner (record { tenant = tenant; released = false }) m
        ≡ (record { tenant = tenant; released = true }, m) =
      rw (absent, release_inner) in
    ap (λ p. (release_inner p.0 p.1).1) once

pub release_out :
    (tenant : Bytes) (done : Bool) (m : QuotaManager) (state : TenantState)
    → done ≡ false
    → tenant_state tenant m ≡ some state
    → release (record { tenant = tenant; released = done }) m
      ≡ set_state tenant (with_inflight (state.usage.inflight - 1) state) m
unfolding release
release_out tenant true m state h there = absurd (ground arith)
release_out tenant false m state h there =
    let once : release_inner (record { tenant = tenant; released = false }) m ≡ (
      record { tenant = tenant; released = true },
      set_state tenant (with_inflight (state.usage.inflight - 1) state) m,
    ) =
      rw (there, release_inner) in
    ap (λ p. (release_inner p.0 p.1).1) once

module _ (m : QuotaManager) (b e : Bytes → ℕ) where
  pub begin_request-IsAccount :
      (k : Bytes) (leases : List RequestLease)
      → ((t : Bytes) → IsAccount (tenant_state t m) (sum_of (lease_hold t) leases) (b t) (e t))
      → (t : Bytes)
      → IsAccount
          (tenant_state t (begin_request k m).1)
          (sum_of (lease_hold t) (hold_lease (begin_request k m).0 leases))
          (b t)
          (e t)
  unfolding begin_request
  begin_request-IsAccount k leases before = elim (Option-cases (tenant_state k m)) [
    | inl absent ↦ rw (absent, begin_request) before
    | inr (state, there) ↦ elim (Bool-cases (leb state.quota.max_inflight state.usage.inflight)) [
      | inl busy ↦ rw (there, busy, begin_request) before
      | inr free ↦
          let held = λ (t : Bytes). sum_of (lease_hold t) leases in
          let lease : RequestLease = record { tenant = k; released = false } in
          rw (there, free, begin_request)
            (set_state-IsAccount m k (with_inflight (state.usage.inflight + 1) state) held b e
              (λ t. lease_hold t lease + held t) b e before
              (rw (lease_hold_self lease refl) (
                begin-IsBalanced state (held k) (b k) (e k)
                  (present_balances m held b e before k state there) free))
              (λ t d. (rw (lease_hold_ne t lease d) (omega arith), refl, refl)))
    ]
  ]

  pub release-IsAccount :
      (lease : RequestLease) (n rest : Bytes → ℕ)
      → ((t : Bytes) → IsAccount (tenant_state t m) (n t) (b t) (e t))
      → ((t : Bytes) → lease_hold t lease + rest t ≡ n t)
      → (t : Bytes) → IsAccount (tenant_state t (release lease m)) (rest t) (b t) (e t)
  release-IsAccount lease n rest before held = elim (Bool-cases lease.released) [
    | inl done ↦ λ t.
        let none_held = lease_hold_done t lease done in
        let all_rest : n t ≡ rest t = omega (arith, held t) in
        subst (λ m'. IsAccount (tenant_state t m') (rest t) (b t) (e t))
          (sym (release_done lease.tenant lease.released m done))
          (subst (λ x. IsAccount (tenant_state t m) x (b t) (e t)) all_rest (before t))
    | inr out ↦
        let one_held = lease_hold_self lease out in
        let here = held lease.tenant in
        elim (Option-cases (tenant_state lease.tenant m)) [
          | inl absent ↦
              let (z, _, _) = absent_holds m n b e before lease.tenant absent in
              absurd (omega arith)
          | inr (state, there) ↦
              let suc_rest : n lease.tenant ≡ 1 + rest lease.tenant = omega arith in
              subst (λ m'. (t : Bytes) → IsAccount (tenant_state t m') (rest t) (b t) (e t))
                (sym (release_out lease.tenant lease.released m state out there))
                (set_state-IsAccount m lease.tenant (with_inflight (state.usage.inflight - 1) state)
                  n b e rest b e before
                  (end-IsBalanced state (rest lease.tenant) (b lease.tenant) (e lease.tenant) (
                    subst (λ x. IsBalanced state x (b lease.tenant) (e lease.tenant)) suc_rest
                      (present_balances m n b e before lease.tenant state there)))
                  (λ t d. (omega (arith, held t, lease_hold_ne t lease d), refl, refl)))
        ]
  ]
