-- ===== src/Store.antt =====
-- src/store.rs: the records of the persistent tier and its trait `PersistentStore`, as a record of
-- operations over a backend's state `S`. Locks are not modelled: no operation panics while it
-- holds one, so none is ever poisoned.
pub mod Volatile
pub mod Layered
pub mod Contract
mod Tests
use rivet_cache.Prelude.{ℕ, Bool, List, Option}
use rivet_cache.Prelude.Lists.{Bytes}
use rivet_cache.Prelude.States.{Op}

pub record StoredEntry : Type 0 where
  pub value : Bytes
  pub expires_at : ℕ
  pub pinned : Bool

pub record StoreRecord : Type 0 where
  pub key : Bytes
  pub stored_bytes : ℕ
  pub expires_at : ℕ
  pub pinned : Bool
  pub last_access : ℕ

pub record StoreSnapshot : Type 0 where
  pub entries : List StoreRecord
  pub corruptions : ℕ

pub record PutOutcome : Type 0 where
  pub inserted : Bool
  pub stored_bytes : ℕ

pub record PersistentStore (S : Type 0) : Type 0 where
  pub load_index : Op S StoreSnapshot
  pub get : Bytes → Op S (Option StoredEntry)
  pub put_if_absent : Bytes → StoredEntry → Op S PutOutcome
  pub remove : Bytes → Op S (Unit {0})
  pub clear : Op S (Unit {0})
