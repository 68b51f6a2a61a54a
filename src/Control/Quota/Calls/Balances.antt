-- ===== src/Control/Quota/Calls/Balances.antt =====
-- The account of a tenant through the operations on its storage.
use rivet_cache.Prelude.{ℕ, ◌+◌, ◌-◌, ◌≤◌, ◌<◌, ◌≡◌, Bool, false, arith, ltb, ◌||◌}
use rivet_cache.Prelude.Words.{sat_add, u64_max}
use rivet_cache.Control.{TenantState}
use rivet_cache.Control.Quota.Calls.Accounts.{IsBalanced}

-- The states that the operations leave.
abbrev pub reserve_in : ℕ → ℕ → TenantState → TenantState
reserve_in x y state = record state {
  usage = record state.usage {
    reserved_bytes = sat_add state.usage.reserved_bytes x;
    reserved_entries = sat_add state.usage.reserved_entries y;
  };
}

abbrev pub roll_back_in : ℕ → ℕ → TenantState → TenantState
roll_back_in x y state = record state {
  usage = record state.usage {
    reserved_bytes = state.usage.reserved_bytes - x;
    reserved_entries = state.usage.reserved_entries - y;
  };
}

abbrev pub commit_in : ℕ → ℕ → TenantState → TenantState
commit_in x y state = record state {
  usage = record state.usage {
    reserved_bytes = state.usage.reserved_bytes - x;
    reserved_entries = state.usage.reserved_entries - y;
    used_bytes = sat_add state.usage.used_bytes x;
    used_entries = sat_add state.usage.used_entries y;
  };
}

abbrev pub release_in : ℕ → ℕ → TenantState → TenantState
release_in x y state = record state {
  usage = record state.usage {
    used_bytes = state.usage.used_bytes - x;
    used_entries = state.usage.used_entries - y;
  };
}

-- Whether the reservation would go above the quota.
abbrev pub exceeds : ℕ → ℕ → TenantState → Bool
exceeds x y state =
    ltb state.quota.max_bytes
      (sat_add (sat_add state.usage.used_bytes state.usage.reserved_bytes) x)
    || ltb state.quota.max_entries
        (sat_add (sat_add state.usage.used_entries state.usage.reserved_entries) y)

-- Sums below a limit that is below the largest word are exact.
admitted :
    (used reserved held x limit : ℕ)
    → reserved ≡ held
    → limit < u64_max
    → used + held ≤ limit
    → sat_add (sat_add used reserved) x ≤ limit
    → (sat_add reserved x ≡ x + held) × (used + (x + held) ≤ limit)
unfolding sat_add
admitted used reserved held x limit p small le h = ground arith

settled :
    (used reserved held x limit : ℕ)
    → reserved ≡ x + held
    → limit < u64_max
    → used + (x + held) ≤ limit
    → (reserved - x ≡ held) × (sat_add used x + held ≤ limit) × (used + held ≤ limit)
unfolding sat_add
settled used reserved held x limit p small le = ground arith

pub reserve-IsBalanced :
    (state : TenantState) (n b e x y : ℕ)
    → IsBalanced state n b e
    → exceeds x y state ≡ false
    → IsBalanced (reserve_in x y state) n (x + b) (y + e)
reserve-IsBalanced state n b e x y is_ h =
    let (p, p') =
      admitted state.usage.used_bytes state.usage.reserved_bytes b x state.quota.max_bytes
        is_.reserved_bytes is_.bytes-lt is_.bytes-le (ground arith) in
    let (q, q') =
      admitted state.usage.used_entries state.usage.reserved_entries e y state.quota.max_entries
        is_.reserved_entries is_.entries-lt is_.entries-le (ground arith) in
    record {
      inflight = is_.inflight;
      reserved_bytes = p;
      reserved_entries = q;
      inflight-le = is_.inflight-le;
      bytes-le = p';
      entries-le = q';
      bytes-lt = is_.bytes-lt;
      entries-lt = is_.entries-lt;
    }

module _ (state : TenantState) (n b e x y : ℕ) (is_ : IsBalanced state n (x + b) (y + e)) where
  pub roll_back-IsBalanced : IsBalanced (roll_back_in x y state) n b e
  roll_back-IsBalanced =
      let (p, _, p') =
        settled state.usage.used_bytes state.usage.reserved_bytes b x state.quota.max_bytes
          is_.reserved_bytes is_.bytes-lt is_.bytes-le in
      let (q, _, q') =
        settled state.usage.used_entries state.usage.reserved_entries e y state.quota.max_entries
          is_.reserved_entries is_.entries-lt is_.entries-le in
      record {
        inflight = is_.inflight;
        reserved_bytes = p;
        reserved_entries = q;
        inflight-le = is_.inflight-le;
        bytes-le = p';
        entries-le = q';
        bytes-lt = is_.bytes-lt;
        entries-lt = is_.entries-lt;
      }

  pub commit-IsBalanced : IsBalanced (commit_in x y state) n b e
  commit-IsBalanced =
      let (p, p', _) =
        settled state.usage.used_bytes state.usage.reserved_bytes b x state.quota.max_bytes
          is_.reserved_bytes is_.bytes-lt is_.bytes-le in
      let (q, q', _) =
        settled state.usage.used_entries state.usage.reserved_entries e y state.quota.max_entries
          is_.reserved_entries is_.entries-lt is_.entries-le in
      record {
        inflight = is_.inflight;
        reserved_bytes = p;
        reserved_entries = q;
        inflight-le = is_.inflight-le;
        bytes-le = p';
        entries-le = q';
        bytes-lt = is_.bytes-lt;
        entries-lt = is_.entries-lt;
      }

pub release-IsBalanced :
    (state : TenantState) (n b e x y : ℕ)
    → IsBalanced state n b e
    → IsBalanced (release_in x y state) n b e
release-IsBalanced state n b e x y is_ =
    let p = is_.bytes-le in
    let q = is_.entries-le in
    record {
      inflight = is_.inflight;
      reserved_bytes = is_.reserved_bytes;
      reserved_entries = is_.reserved_entries;
      inflight-le = is_.inflight-le;
      bytes-le = omega arith;
      entries-le = omega arith;
      bytes-lt = is_.bytes-lt;
      entries-lt = is_.entries-lt;
    }
