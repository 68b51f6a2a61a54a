-- ===== src/Control/Quota.antt =====
-- src/control.rs: `QuotaManager`, `RequestLease` and `StorageReservation`. The manager is the map
-- from a tenant to its state; an operation of a lease or a reservation takes the manager it points
-- to. The mutex is not modelled: nothing panics while it is held.
pub mod Calls
use rivet_cache.Prelude.{
  ℕ, ◌+◌, ◌-◌, Bool, true, false, ◌||◌, List, [], ◌∷◌, Option, none, some, leb, ltb, ◌==◌,
  if◌then◌else◌,
}
use rivet_cache.Prelude.Lists.{Bytes, Bytes-discrete}
use rivet_cache.Prelude.Maps.{lookup, insert}
use rivet_cache.Prelude.Words.{sat_add}
use rivet_cache.Prelude.Results.{Result, ok, err, invalid_input, not_found, would_block, other}
use rivet_cache.Prelude.States.{Op}
use rivet_cache.Control.{
  TenantQuota, TenantUsage, TenantState, no_usage, validate_quota, validate_id,
}

abbrev pub QuotaManager : Type 0
QuotaManager = List (Bytes × TenantState)

abbrev pub tenant_state : Bytes → QuotaManager → Option TenantState
tenant_state tenant tenants = lookup Bytes-discrete tenant tenants

abbrev pub set_state : Bytes → TenantState → QuotaManager → QuotaManager
set_state tenant state tenants = insert Bytes-discrete tenant state tenants

-- Whether the usage is above the limits of the quota.
unfoldable pub is_above : TenantUsage → TenantQuota → Bool
is_above usage quota =
    ltb quota.max_bytes (sat_add usage.used_bytes usage.reserved_bytes)
    || ltb quota.max_entries (sat_add usage.used_entries usage.reserved_entries)
    || ltb quota.max_inflight usage.inflight

unfoldable pub set_quota : Bytes → TenantQuota → Op QuotaManager (Unit {0})
unfolding is_above
set_quota tenant quota tenants = elim (validate_id tenant) [
  | err x ↦ (err x, tenants)
  | ok _ ↦ elim (validate_quota quota) [
    | err x ↦ (err x, tenants)
    | ok _ ↦ elim (tenant_state tenant tenants) [
      | none ↦ (ok tt, set_state tenant (record { quota = quota; usage = no_usage }) tenants)
      | some state ↦
          if is_above state.usage quota
          then (err invalid_input, tenants)
          else (ok tt, set_state tenant (record state { quota = quota }) tenants)
    ]
  ]
]

pub record RequestLease : Type 0 where
  pub tenant : Bytes
  pub released : Bool

-- The usage with another number of requests in flight.
abbrev pub with_inflight : ℕ → TenantState → TenantState
with_inflight n state = record state { usage = record state.usage { inflight = n } }

unfoldable pub begin_request : Bytes → Op QuotaManager RequestLease
begin_request tenant tenants = elim (tenant_state tenant tenants) [
  | none ↦ (err not_found, tenants)
  | some state ↦
      if leb state.quota.max_inflight state.usage.inflight then (err would_block, tenants) else (
        ok (record { tenant = tenant; released = false }),
        set_state tenant (with_inflight (state.usage.inflight + 1) state) tenants,
      )
]

-- `RequestLease::release_inner`, which `drop` calls as well.
unfoldable pub release_inner : RequestLease → QuotaManager → RequestLease × QuotaManager
release_inner lease tenants = elim lease.released [
  | true ↦ (lease, tenants)
  | false ↦ elim (tenant_state lease.tenant tenants) [
    | none ↦ (record lease { released = true }, tenants)
    | some state ↦ (
      record lease { released = true },
      set_state lease.tenant (with_inflight (state.usage.inflight - 1) state) tenants,
    )
  ]
]

-- `RequestLease::release` consumes the lease, so that `drop` runs after it.
unfoldable pub release : RequestLease → QuotaManager → QuotaManager
unfolding release_inner
release lease tenants =
    let (lease', tenants') = release_inner lease tenants in (release_inner lease' tenants').1

pub data ReservationState : Type 0 where
  pending committed released : ReservationState

pub record StorageReservation : Type 0 where
  pub tenant : Bytes
  pub bytes : ℕ
  pub entries : ℕ
  pub state : ReservationState

unfoldable pub reserve_storage : Bytes → ℕ → ℕ → Op QuotaManager StorageReservation
reserve_storage tenant bytes entries tenants =
    if bytes == 0 || entries == 0
    then (err invalid_input, tenants)
    else elim (tenant_state tenant tenants) [
      | none ↦ (err not_found, tenants)
      | some state ↦
          let usage = state.usage in
          let total_bytes = sat_add (sat_add usage.used_bytes usage.reserved_bytes) bytes in
          let total_entries = sat_add (sat_add usage.used_entries usage.reserved_entries) entries in
          if ltb state.quota.max_bytes total_bytes || ltb state.quota.max_entries total_entries
          then (err other, tenants)
          else (
            ok (record { tenant = tenant; bytes = bytes; entries = entries; state = pending }),
            set_state tenant
                (record state {
                  usage = record usage {
                    reserved_bytes = sat_add usage.reserved_bytes bytes;
                    reserved_entries = sat_add usage.reserved_entries entries;
                  };
                })
                tenants,
          )
    ]

unfoldable pub release_storage : Bytes → ℕ → ℕ → Op QuotaManager (Unit {0})
release_storage tenant bytes entries tenants = elim (tenant_state tenant tenants) [
  | none ↦ (err not_found, tenants)
  | some state ↦
      let usage = state.usage in
      (
        ok tt,
        set_state tenant
            (record state {
              usage = record usage {
                used_bytes = usage.used_bytes - bytes;
                used_entries = usage.used_entries - entries;
              };
            })
            tenants,
      )
]

-- `StorageReservation::rollback`, which `drop` calls.
unfoldable pub rollback : StorageReservation → QuotaManager → StorageReservation × QuotaManager
rollback r tenants = elim r.state [
  | committed ↦ (r, tenants)
  | released ↦ (r, tenants)
  | pending ↦ elim (tenant_state r.tenant tenants) [
    | none ↦ (record r { state = released }, tenants)
    | some state ↦
        let usage = state.usage in
        (
          record r { state = released },
          set_state r.tenant
              (record state {
                usage = record usage {
                  reserved_bytes = usage.reserved_bytes - r.bytes;
                  reserved_entries = usage.reserved_entries - r.entries;
                };
              })
              tenants,
        )
  ]
]

-- `StorageReservation::commit` consumes the reservation, so that `drop` runs after it.
unfoldable pub commit : StorageReservation → Op QuotaManager (Unit {0})
unfolding rollback
commit r tenants = elim (tenant_state r.tenant tenants) [
  | none ↦ (err not_found, (rollback r tenants).1)
  | some state ↦
      let usage = state.usage in
      let tenants' =
        set_state r.tenant
          (record state {
            usage = record usage {
              reserved_bytes = usage.reserved_bytes - r.bytes;
              reserved_entries = usage.reserved_entries - r.entries;
              used_bytes = sat_add usage.used_bytes r.bytes;
              used_entries = sat_add usage.used_entries r.entries;
            };
          })
          tenants in
      (ok tt, (rollback (record r { state = committed }) tenants').1)
]
