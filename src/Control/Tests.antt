-- ===== src/Control/Tests.antt =====
-- Runs of src/control.rs, and its theorems at concrete inputs.
use rivet_cache.Prelude.{ℕ, ◌+◌, ◌≤◌, ◌<◌, ◌≡◌, ◌↔◌, refl, List, [], ◌∷◌, some, arith}
use rivet_cache.Prelude.Lists.{Bytes, Bytes-discrete, All, codes, retain}
use rivet_cache.Prelude.Maps.{lookup, insert, remove}
use rivet_cache.Prelude.Words.{sat_add}
use rivet_cache.Prelude.Results.{ok}
use rivet_cache.Control.{false, TenantQuota, TenantState, validate_id, validate_quota}
use rivet_cache.Control.Fleet.{hybrid, FleetNode, FleetRegistry, prune_stale}
use rivet_cache.Control.Quota.{
  tenant_state, pending, set_quota, begin_request, release, reserve_storage, release_storage,
  rollback, commit,
}
use rivet_cache.Control.Quota.Calls.{
  Call, setting, beginning, ending, reserving, committing, dropping, releasing, run, new_world,
}
use rivet_cache.Control.Quota.Calls.Accounts.{
  sum_of, lease_hold, bytes_hold, entries_hold, IsAccounted,
}
use rivet_cache.Control.Quota.Calls.Sound.{IsModest, run-IsAccounted}
use rivet_cache.Control.Quota.Calls.Progress.{begin_request-progress, reserve_storage-admits}

abbrev tenant : Bytes
tenant = codes "t"

abbrev quota : TenantQuota
quota = record { max_bytes = 100; max_entries = 10; max_inflight = 2 }

-- Two requests begin and one ends; one reservation is committed, one dropped and one kept.
abbrev calls : List Call
calls =
    setting tenant quota
    ∷ beginning tenant
    ∷ beginning tenant
    ∷ beginning tenant
    ∷ ending 0
    ∷ reserving tenant 30 1
    ∷ reserving tenant 40 2
    ∷ committing 1
    ∷ dropping 0
    ∷ reserving tenant 20 3
    ∷ reserving tenant 51 1
    ∷ releasing tenant 10 0
    ∷ []

abbrev left : TenantState
left = record {
  quota = quota;
  usage = record {
    used_bytes = 20;
    used_entries = 1;
    reserved_bytes = 20;
    reserved_entries = 3;
    inflight = 1;
  };
}

left_runs : tenant_state tenant (run calls new_world).manager ≡ some left
unfolding run set_quota begin_request release reserve_storage release_storage rollback commit lookup
    insert remove sat_add validate_id validate_quota Bytes-discrete
left_runs = refl

calls-IsModest : All IsModest calls
calls-IsModest = (
  (omega arith, omega arith),
  (tt, (tt, (tt, (tt, (tt, (tt, (tt, (tt, (tt, (tt, (tt, tt))))))))))),
)

run-IsAccounted_example : IsAccounted (run calls new_world)
run-IsAccounted_example = run-IsAccounted calls calls-IsModest

held_runs : sum_of (lease_hold tenant) (run calls new_world).leases < 2
unfolding run set_quota begin_request release reserve_storage release_storage rollback commit lookup
    insert remove sat_add validate_id validate_quota Bytes-discrete
held_runs = omega arith

begin_request-progress_example :
    (begin_request tenant (run calls new_world).manager).0
    ≡ ok (record { tenant = tenant; released = false })
begin_request-progress_example =
    begin_request-progress calls tenant left calls-IsModest left_runs held_runs

reserve_storage-admits_example :
    ((reserve_storage tenant 60 6 (run calls new_world).manager).0
      ≡ ok (record { tenant = tenant; bytes = 60; entries = 6; state = pending }))
    ↔ ((20 + sum_of (bytes_hold tenant) (run calls new_world).reservations + 60 ≤ 100)
        × (1 + sum_of (entries_hold tenant) (run calls new_world).reservations + 6 ≤ 10))
reserve_storage-admits_example =
    reserve_storage-admits calls tenant left 60 6 calls-IsModest left_runs (omega arith)
      (omega arith)

abbrev node : ℕ → FleetNode
node seen = record {
  id = tenant;
  endpoint = codes "e";
  role = hybrid;
  capacity_bytes = 9;
  used_bytes = 4;
  last_seen_epoch_secs = seen;
}

-- One node is too old, and one is not.
abbrev nodes : FleetRegistry
nodes = (codes "a", node 10) ∷ (codes "b", node 90) ∷ []

prune_runs : prune_stale 100 30 nodes ≡ (ok 1, (codes "b", node 90) ∷ [])
unfolding prune_stale retain
prune_runs = refl
