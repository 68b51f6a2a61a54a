-- ===== src/Control/Quota/Calls/Accounts.antt =====
-- The account of a tenant: its usage counts what is held, and stays within its quota.
use mathlib.Core.Path.{subst}
use rivet_cache.Prelude.{
  All, ℕ, zero, suc, ◌+◌, ◌≤◌, ◌<◌, ◌≡◌, ◌≢◌, refl, sym, ap, true, false, List, [], ◌∷◌, Option,
  none, some, arith, get_elem?,
}
use rivet_cache.Prelude.Lists.{Bytes, Bytes-discrete}
use rivet_cache.Prelude.Maps.{lookup, lookup-insert_ne, lookup-insert_self}
use rivet_cache.Prelude.Words.{u64_max}
use rivet_cache.Control.{TenantState}
use rivet_cache.Control.Quota.{
  QuotaManager, tenant_state, set_state, RequestLease, StorageReservation, pending,
}
use rivet_cache.Control.Quota.Calls.{World, remove_at, for_tenant}

abbrev pub sum_of {ℓ} : {A : Type ℓ} → (A → ℕ) → List A → ℕ
sum_of f [] = 0
sum_of f (x ∷ xs) = f x + sum_of f xs

pub sum_of-remove_at {ℓ} :
    {A : Type ℓ} (f : A → ℕ) (i : ℕ) (x : A) (xs : List A)
    → get_elem? xs i ≡ some x
    → f x + sum_of f (remove_at i xs) ≡ sum_of f xs
unfolding remove_at
sum_of-remove_at f i x [] h = absurd (ground arith)
sum_of-remove_at f zero x (y ∷ ys) h =
    let same : y ≡ x = cc in ap (λ z. f z + sum_of f ys) (sym same)
sum_of-remove_at f (suc i) x (y ∷ ys) h = omega (arith, sum_of-remove_at f i x ys h)

-- What a lease, until it is released, and a reservation hold for the tenant.
abbrev pub lease_hold : Bytes → RequestLease → ℕ
lease_hold t lease = elim lease.released [ true ↦ 0 | false ↦ for_tenant t lease.tenant 1 ]

abbrev pub bytes_hold : Bytes → StorageReservation → ℕ
bytes_hold t r = for_tenant t r.tenant r.bytes

abbrev pub entries_hold : Bytes → StorageReservation → ℕ
entries_hold t r = for_tenant t r.tenant r.entries

-- A reservation that a caller holds is pending, and not empty.
abbrev pub IsHeld : StorageReservation → Type 0
IsHeld r = (r.state ≡ pending) × (0 < r.bytes)

-- The tenant's usage is that of the requests in flight and of the bytes and the entries that are
-- reserved, and it stays within the quota, which is below the largest word.
pub record IsBalanced (state : TenantState) (requests bytes entries : ℕ) : Type 0 where
  pub inflight : state.usage.inflight ≡ requests
  pub reserved_bytes : state.usage.reserved_bytes ≡ bytes
  pub reserved_entries : state.usage.reserved_entries ≡ entries
  pub inflight-le : requests ≤ state.quota.max_inflight
  pub bytes-le : state.usage.used_bytes + bytes ≤ state.quota.max_bytes
  pub entries-le : state.usage.used_entries + entries ≤ state.quota.max_entries
  pub bytes-lt : state.quota.max_bytes < u64_max
  pub entries-lt : state.quota.max_entries < u64_max

-- A tenant without a quota holds nothing.
pub IsAccount : Option TenantState → ℕ → ℕ → ℕ → Type 0
IsAccount none requests bytes entries = (requests ≡ 0) × (bytes ≡ 0) × (entries ≡ 0)
IsAccount (some state) requests bytes entries = IsBalanced state requests bytes entries

-- The bytes and the entries that a tenant uses.
unfoldable pub used_by : Option TenantState → ℕ × ℕ
used_by none = (0, 0)
used_by (some state) = (state.usage.used_bytes, state.usage.used_entries)

-- The account of every tenant counts what is held for it.
pub record IsAccounted (w : World) : Type 0 where
  pub accounts :
      (t : Bytes)
      → IsAccount
          (tenant_state t w.manager)
          (sum_of (lease_hold t) w.leases)
          (sum_of (bytes_hold t) w.reservations)
          (sum_of (entries_hold t) w.reservations)
  pub held : All IsHeld w.reservations
  pub used :
      (t : Bytes) → used_by (tenant_state t w.manager) ≡ (w.stored_bytes t, w.stored_entries t)

pub for_tenant_self : (t : Bytes) (n : ℕ) → for_tenant t t n ≡ n
for_tenant_self t n = ground arith

pub for_tenant_ne : (t k : Bytes) (n : ℕ) → t ≢ k → for_tenant t k n ≡ 0
for_tenant_ne t k n h = ground arith

-- One account changes, and the others stay.
pub set_state-IsAccount :
    (m : QuotaManager) (k : Bytes) (state : TenantState) (n b e n' b' e' : Bytes → ℕ)
    → ((t : Bytes) → IsAccount (tenant_state t m) (n t) (b t) (e t))
    → IsBalanced state (n' k) (b' k) (e' k)
    → ((t : Bytes) → t ≢ k → (n' t ≡ n t) × (b' t ≡ b t) × (e' t ≡ e t))
    → (t : Bytes) → IsAccount (tenant_state t (set_state k state m)) (n' t) (b' t) (e' t)
unfolding IsAccount
set_state-IsAccount m k state n b e n' b' e' before after others t = elim (Bytes-discrete t k) [
  | yes same ↦
      subst (λ j. IsAccount (tenant_state j (set_state k state m)) (n' j) (b' j) (e' j)) (sym same)
        (rw (lookup-insert_self Bytes-discrete k state m) after)
  | no differs ↦
      let (p, q, r) = others t differs in
      rw (lookup-insert_ne Bytes-discrete t k state m differs, p, q, r) (before t)
]

module _ (m : QuotaManager) (n b e : Bytes → ℕ)
    (before : (t : Bytes) → IsAccount (tenant_state t m) (n t) (b t) (e t)) where
  pub present_balances :
      (k : Bytes) (state : TenantState)
      → tenant_state k m ≡ some state
      → IsBalanced state (n k) (b k) (e k)
  unfolding IsAccount
  present_balances k state q = subst (λ o. IsAccount o (n k) (b k) (e k)) q (before k)

  pub absent_holds : (k : Bytes) → tenant_state k m ≡ none → (n k ≡ 0) × (b k ≡ 0) × (e k ≡ 0)
  unfolding IsAccount
  absent_holds k q = subst (λ o. IsAccount o (n k) (b k) (e k)) q (before k)

pub no_state-IsAccount : (t : Bytes) → IsAccount (tenant_state t []) 0 0 0
unfolding IsAccount lookup
no_state-IsAccount t = (refl, refl, refl)
