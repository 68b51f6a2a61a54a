-- ===== src/Control/Quota/Calls/Sound.antt =====
-- Whatever the callers do, the accounts of all tenants are exact.
use mathlib.Core.Path.{subst}
use rivet_cache.Prelude.{
  ℕ, zero, suc, ◌<◌, ◌≡◌, List, [], ◌∷◌, some, arith, get_elem?, Option-cases, inl, inr,
}
use rivet_cache.Prelude.Lists.{All}
use rivet_cache.Prelude.Words.{u64_max}
use rivet_cache.Control.Quota.Calls.{
  World, Call, setting, beginning, ending, reserving, committing, dropping, releasing, remove_at,
  step, run, new_world,
}
use rivet_cache.Control.Quota.Calls.Accounts.{
  sum_of, sum_of-remove_at, lease_hold, bytes_hold, entries_hold, IsHeld, IsAccounted,
  no_state-IsAccount,
}
use rivet_cache.Control.Quota.Calls.Requests.{
  set_quota-IsAccount, begin_request-IsAccount, release-IsAccount,
}
use rivet_cache.Control.Quota.Calls.Stored.{
  set_quota-usage, begin_request-usage, release-usage, reserve_storage-usage, rollback-usage,
  commit-usage, release_storage-usage, no_state-usage,
}
use rivet_cache.Control.Quota.Calls.Storage.{
  reserve_storage-IsAccount, release_storage-IsAccount, commit-IsAccount, commit_exact,
  rollback-IsAccount,
}

-- A quota that is set is below the largest word.
abbrev pub IsModest : Call → Type 0
IsModest (setting tenant quota) = (quota.max_bytes < u64_max) × (quota.max_entries < u64_max)
IsModest call = Unit

All-elem :
    {A : Type 0} (P : A → Type 0) (xs : List A) (i : ℕ) (x : A)
    → All P xs
    → get_elem? xs i ≡ some x
    → P x
All-elem P [] i x ps h = absurd (ground arith)
All-elem P (y ∷ ys) zero x (p, ps) h = let same : y ≡ x = cc in subst P same p
All-elem P (y ∷ ys) (suc i) x (p, ps) h = All-elem P ys i x ps h

All-remove_at :
    {A : Type 0} (P : A → Type 0) (i : ℕ) (xs : List A) → All P xs → All P (remove_at i xs)
unfolding remove_at
All-remove_at P i [] ps = tt
All-remove_at P zero (x ∷ xs) (p, ps) = ps
All-remove_at P (suc i) (x ∷ xs) (p, ps) = (p, All-remove_at P i xs ps)

step-IsAccounted :
    (call : Call) (w : World) → IsModest call → IsAccounted w → IsAccounted (step call w)
unfolding step
step-IsAccounted (setting tenant quota) w (hb, he) is_ = record {
  accounts = set_quota-IsAccount w.manager _ _ _ is_.accounts tenant quota hb he;
  held = is_.held;
  used = set_quota-usage w.manager _ is_.used tenant quota;
}
step-IsAccounted (beginning tenant) w small is_ = record {
  accounts = begin_request-IsAccount w.manager _ _ tenant w.leases is_.accounts;
  held = is_.held;
  used = begin_request-usage w.manager _ is_.used tenant;
}
step-IsAccounted (ending i) w small is_ = elim (Option-cases (get_elem? w.leases i)) [
  | inl out ↦ rw (out, step) is_
  | inr (lease, at) ↦
      rw (at, step)
        (record {
          accounts =
              release-IsAccount w.manager _ _ lease _
                (λ t. sum_of (lease_hold t) (remove_at i w.leases)) is_.accounts
                (λ t. sum_of-remove_at (lease_hold t) i lease w.leases at);
          held = is_.held;
          used = release-usage w.manager _ is_.used lease;
        })
]
step-IsAccounted (reserving tenant bytes entries) w small is_ =
    let (accounts, held) =
      reserve_storage-IsAccount w.manager (λ t. sum_of (lease_hold t) w.leases) w.reservations
        tenant bytes entries is_.accounts is_.held in
    record {
      accounts = accounts;
      held = held;
      used = reserve_storage-usage w.manager _ is_.used tenant bytes entries;
    }
step-IsAccounted (committing i) w small is_ = elim (Option-cases (get_elem? w.reservations i)) [
  | inl out ↦ rw (out, step) is_
  | inr (r, at) ↦
      rw (at, step)
        (record {
          accounts =
              commit-IsAccount w.manager _ _ _ is_.accounts r
                (All-elem IsHeld w.reservations i r is_.held at)
                (λ t. sum_of (bytes_hold t) (remove_at i w.reservations))
                (λ t. sum_of (entries_hold t) (remove_at i w.reservations))
                (λ t. sum_of-remove_at (bytes_hold t) i r w.reservations at)
                (λ t. sum_of-remove_at (entries_hold t) i r w.reservations at);
          held = All-remove_at IsHeld i w.reservations is_.held;
          used = commit-usage w.manager w.stored_bytes w.stored_entries is_.used r (
              commit_exact w.manager _ _ _ is_.accounts r
                (All-elem IsHeld w.reservations i r is_.held at)
                (λ t. sum_of (bytes_hold t) (remove_at i w.reservations))
                (λ t. sum_of (entries_hold t) (remove_at i w.reservations))
                (λ t. sum_of-remove_at (bytes_hold t) i r w.reservations at)
                (λ t. sum_of-remove_at (entries_hold t) i r w.reservations at));
        })
]
step-IsAccounted (dropping i) w small is_ = elim (Option-cases (get_elem? w.reservations i)) [
  | inl out ↦ rw (out, step) is_
  | inr (r, at) ↦
      rw (at, step)
        (record {
          accounts =
              rollback-IsAccount w.manager _ _ _ is_.accounts r
                (All-elem IsHeld w.reservations i r is_.held at)
                (λ t. sum_of (bytes_hold t) (remove_at i w.reservations))
                (λ t. sum_of (entries_hold t) (remove_at i w.reservations))
                (λ t. sum_of-remove_at (bytes_hold t) i r w.reservations at)
                (λ t. sum_of-remove_at (entries_hold t) i r w.reservations at);
          held = All-remove_at IsHeld i w.reservations is_.held;
          used = rollback-usage w.manager _ is_.used r;
        })
]
step-IsAccounted (releasing tenant bytes entries) w small is_ = record {
  accounts = release_storage-IsAccount w.manager _ _ _ is_.accounts tenant bytes entries;
  held = is_.held;
  used =
      release_storage-usage w.manager w.stored_bytes w.stored_entries is_.used tenant bytes entries;
}

run_keeps :
    (calls : List Call) (w : World) → All IsModest calls → IsAccounted w → IsAccounted (run calls w)
unfolding run
run_keeps [] w small is_ = is_
run_keeps (call ∷ calls) w (s, small) is_ =
    run_keeps calls (step call w) small (step-IsAccounted call w s is_)

new_world-IsAccounted : IsAccounted new_world
new_world-IsAccounted = record { accounts = no_state-IsAccount; held = tt; used = no_state-usage }

-- After any calls on a new manager that set only quotas below 2^64 - 1, the usage of every tenant
-- counts exactly the requests and the reservations that are still held, and the bytes and entries that
-- were committed less those released, and it stays within the tenant's quota.
pub run-IsAccounted : (calls : List Call) → All IsModest calls → IsAccounted (run calls new_world)
run-IsAccounted calls small = run_keeps calls new_world small new_world-IsAccounted
