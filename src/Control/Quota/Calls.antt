-- ===== src/Control/Quota/Calls.antt =====
-- The calls of src/control.rs in any order: what the callers hold of a quota manager, and how much they
-- have stored by their own books, and what one call makes of it. A caller names a lease or a reservation by its place among those that are held.
pub mod Accounts
pub mod Requests
pub mod Balances
pub mod Storage
pub mod Stored
pub mod Sound
pub mod Progress
use rivet_cache.Prelude.{
  ℕ, zero, suc, ◌+◌, ◌-◌, ite, ◌≡◌, refl, List, [], ◌∷◌, Option, none, some, arith, get_elem?,
}
use rivet_cache.Prelude.Lists.{Bytes, Bytes-discrete}
use rivet_cache.Prelude.Results.{Result, ok, err}
use rivet_cache.Control.{TenantQuota}
use rivet_cache.Control.Quota.{
  QuotaManager, RequestLease, StorageReservation, set_quota, begin_request, release,
  reserve_storage, release_storage, rollback, commit,
}

pub record World : Type 0 where
  pub manager : QuotaManager
  pub leases : List RequestLease
  pub reservations : List StorageReservation
  pub stored_bytes : Bytes → ℕ
  pub stored_entries : Bytes → ℕ

pub data Call : Type 0 where
  setting : Bytes → TenantQuota → Call
  beginning : Bytes → Call
  ending : ℕ → Call
  reserving : Bytes → ℕ → ℕ → Call
  committing dropping : ℕ → Call
  releasing : Bytes → ℕ → ℕ → Call

unfoldable pub remove_at {ℓ} : {A : Type ℓ} → ℕ → List A → List A
remove_at i [] = []
remove_at zero (x ∷ xs) = xs
remove_at (suc i) (x ∷ xs) = x ∷ remove_at i xs

-- What is handed out is held from then on.
abbrev pub hold_lease : Result RequestLease → List RequestLease → List RequestLease
hold_lease (err x) leases = leases
hold_lease (ok lease) leases = lease ∷ leases

abbrev pub hold_reservation :
    Result StorageReservation → List StorageReservation → List StorageReservation
hold_reservation (err x) reservations = reservations
hold_reservation (ok r) reservations = r ∷ reservations

-- `n` where the tenants are the same.
abbrev pub for_tenant : Bytes → Bytes → ℕ → ℕ
for_tenant t tenant n = ite (Bytes-discrete t tenant) n 0

-- The books of the callers: a commit that succeeds adds to what the tenant has stored, and a release
-- takes away from it, as far as there is something.
abbrev pub store_more : Result (Unit {0}) → Bytes → ℕ → (Bytes → ℕ) → Bytes → ℕ
store_more (err x) tenant n stored = stored
store_more (ok _) tenant n stored = λ t. stored t + for_tenant t tenant n

abbrev pub store_less : Bytes → ℕ → (Bytes → ℕ) → Bytes → ℕ
store_less tenant n stored = λ t. stored t - for_tenant t tenant n

unfoldable pub step : Call → World → World
unfolding remove_at
step (setting tenant quota) w = record w { manager = (set_quota tenant quota w.manager).1 }
step (beginning tenant) w =
    let (r, manager) = begin_request tenant w.manager in
    record w { manager = manager; leases = hold_lease r w.leases }
step (ending i) w = elim (get_elem? w.leases i) [
  | none ↦ w
  | some lease ↦ record w { manager = release lease w.manager; leases = remove_at i w.leases }
]
step (reserving tenant bytes entries) w =
    let (r, manager) = reserve_storage tenant bytes entries w.manager in
    record w { manager = manager; reservations = hold_reservation r w.reservations }
step (committing i) w = elim (get_elem? w.reservations i) [
  | none ↦ w
  | some r ↦ record w {
    manager = (commit r w.manager).1;
    reservations = remove_at i w.reservations;
    stored_bytes = store_more (commit r w.manager).0 r.tenant r.bytes w.stored_bytes;
    stored_entries = store_more (commit r w.manager).0 r.tenant r.entries w.stored_entries;
  }
]
step (dropping i) w = elim (get_elem? w.reservations i) [
  | none ↦ w
  | some r ↦ record w {
    manager = (rollback r w.manager).1;
    reservations = remove_at i w.reservations;
  }
]
step (releasing tenant bytes entries) w = record w {
  manager = (release_storage tenant bytes entries w.manager).1;
  stored_bytes = store_less tenant bytes w.stored_bytes;
  stored_entries = store_less tenant entries w.stored_entries;
}

unfoldable pub run : List Call → World → World
unfolding step
run [] w = w
run (call ∷ calls) w = run calls (step call w)

-- A new manager, of which nothing is held.
abbrev pub new_world : World
new_world = record {
  manager = [];
  leases = [];
  reservations = [];
  stored_bytes = λ t. 0;
  stored_entries = λ t. 0;
}
