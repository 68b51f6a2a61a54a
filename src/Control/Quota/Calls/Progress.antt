-- ===== src/Control/Quota/Calls/Progress.antt =====
-- What a quota manager admits, in terms of what is held.
use rivet_cache.Prelude.{
  ℕ, ◌+◌, ◌≤◌, ◌<◌, ◌≡◌, ◌↔◌, false, List, some, arith, leb, ltb, ◌==◌, Bool-cases, inl, inr, ◌||◌,
}
use rivet_cache.Prelude.Lists.{Bytes, All}
use rivet_cache.Prelude.Words.{sat_add, u64_max}
use rivet_cache.Prelude.Results.{ok, err≢ok}
use rivet_cache.Control.{TenantState}
use rivet_cache.Control.Quota.{tenant_state, pending, begin_request, reserve_storage}
use rivet_cache.Control.Quota.Calls.{Call, run, new_world}
use rivet_cache.Control.Quota.Calls.Accounts.{
  sum_of, lease_hold, bytes_hold, entries_hold, present_balances,
}
use rivet_cache.Control.Quota.Calls.Sound.{IsModest, run-IsAccounted}

-- After any calls that set only quotas below 2^64 - 1, a tenant that has a quota, and holds fewer
-- requests than it allows, can begin another one.
pub begin_request-progress :
    (calls : List Call) (tenant : Bytes) (state : TenantState)
    → All IsModest calls
    → tenant_state tenant (run calls new_world).manager ≡ some state
    → sum_of (lease_hold tenant) (run calls new_world).leases < state.quota.max_inflight
    → (begin_request tenant (run calls new_world).manager).0
      ≡ ok (record { tenant = tenant; released = false })
unfolding begin_request
begin_request-progress calls tenant state small there h =
    let is_ = run-IsAccounted calls small in
    let balanced =
      present_balances (run calls new_world).manager _ _ _ is_.accounts tenant state there in
    let exact = balanced.inflight in
    let free : leb state.quota.max_inflight state.usage.inflight ≡ false = ground arith in
    rw (there, free, begin_request)

-- A sum above a limit that is below the largest word is above it without saturation.
over :
    (used reserved held x limit : ℕ)
    → reserved ≡ held
    → limit < u64_max
    → ltb limit (sat_add (sat_add used reserved) x) ≡ ltb limit (used + held + x)
unfolding sat_add
over used reserved held x limit p small = ground arith

-- After any calls that set only quotas below 2^64 - 1, a tenant that has a quota can reserve a number
-- of bytes and of entries, both positive, if and only if they fit in the quota with what the tenant
-- uses and what its reservations hold.
pub reserve_storage-admits :
    (calls : List Call) (tenant : Bytes) (state : TenantState) (x y : ℕ)
    → All IsModest calls
    → tenant_state tenant (run calls new_world).manager ≡ some state
    → 0 < x
    → 0 < y
    → ((reserve_storage tenant x y (run calls new_world).manager).0
        ≡ ok (record { tenant = tenant; bytes = x; entries = y; state = pending }))
      ↔ ((state.usage.used_bytes + sum_of (bytes_hold tenant) (run calls new_world).reservations + x
            ≤ state.quota.max_bytes)
          × (state.usage.used_entries
                + sum_of (entries_hold tenant) (run calls new_world).reservations
                + y
              ≤ state.quota.max_entries))
unfolding reserve_storage
reserve_storage-admits calls tenant state x y small there px py =
    let is_ = run-IsAccounted calls small in
    let w = run calls new_world in
    let balanced = present_balances w.manager _ _ _ is_.accounts tenant state there in
    let b =
      over state.usage.used_bytes state.usage.reserved_bytes
        (sum_of (bytes_hold tenant) w.reservations) x state.quota.max_bytes balanced.reserved_bytes
        balanced.bytes-lt in
    let e =
      over state.usage.used_entries state.usage.reserved_entries
        (sum_of (entries_hold tenant) w.reservations) y state.quota.max_entries
        balanced.reserved_entries balanced.entries-lt in
    let full : x == 0 || y == 0 ≡ false = ground arith in
    elim (Bool-cases (
      ltb state.quota.max_bytes
        (sat_add (sat_add state.usage.used_bytes state.usage.reserved_bytes) x)
      || ltb state.quota.max_entries
          (sat_add (sat_add state.usage.used_entries state.usage.reserved_entries) y))) [
            | inl above ↦ (
              λ h. absurd (err≢ok (rw (full, there, above, reserve_storage) at h)),
              λ (p, q). absurd (ground arith),
            )
            | inr below ↦ (
              λ h. (ground arith, ground arith),
              λ (p, q). rw (full, there, below, reserve_storage),
            )
          ]
