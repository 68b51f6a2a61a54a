-- ===== src/Control.antt =====
-- src/control.rs: the records of the quota manager, and the ids.
pub mod Quota
pub mod Fleet
mod Tests
use rivet_cache.Prelude.{
  ℕ, Bool, true, false, not, ◌&&◌, ◌||◌, List, [], ◌∷◌, leb, ltb, ◌==◌, if◌then◌else◌, length,
}
use rivet_cache.Prelude.Lists.{Bytes}
use rivet_cache.Prelude.Results.{Result, ok, err, invalid_input}
use rivet_cache.Kv.Prefix.{is_empty}

pub record TenantQuota : Type 0 where
  pub max_bytes : ℕ
  pub max_entries : ℕ
  pub max_inflight : ℕ

-- `TenantQuota::validate`.
unfoldable pub validate_quota : TenantQuota → Result TenantQuota
validate_quota quota =
    if quota.max_bytes == 0 || quota.max_entries == 0 || quota.max_inflight == 0
    then err invalid_input
    else ok quota

pub record TenantUsage : Type 0 where
  pub used_bytes : ℕ
  pub used_entries : ℕ
  pub reserved_bytes : ℕ
  pub reserved_entries : ℕ
  pub inflight : ℕ

-- `TenantUsage::default`.
abbrev pub no_usage : TenantUsage
no_usage = record {
  used_bytes = 0;
  used_entries = 0;
  reserved_bytes = 0;
  reserved_entries = 0;
  inflight = 0;
}

pub record TenantState : Type 0 where
  pub quota : TenantQuota
  pub usage : TenantUsage

-- A letter, a digit or one of `-_.:`.
unfoldable pub is_id_byte : ℕ → Bool
is_id_byte b =
    (leb 48 b && leb b 57)
    || (leb 65 b && leb b 90)
    || (leb 97 b && leb b 122)
    || b == 45
    || b == 95
    || b == 46
    || b == 58

unfoldable pub all_id_bytes : Bytes → Bool
unfolding is_id_byte
all_id_bytes [] = true
all_id_bytes (b ∷ value) = is_id_byte b && all_id_bytes value

unfoldable pub validate_id : Bytes → Result Bytes
unfolding all_id_bytes
validate_id value =
    if is_empty value || ltb 128 (length value) || not (all_id_bytes value)
    then err invalid_input
    else ok value
