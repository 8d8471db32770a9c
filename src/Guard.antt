-- ===== src/Guard.antt =====
-- custom_components/hass_questdb_writer/storage_guard.py. `share` is the product
-- `math.ceil(total_bytes * min_free_ratio)` of Python's floats, and `usage` what `usage_source`
-- answers: `none` where it raises OSError.
pub mod Reserve
mod Tests
use hass_questdb_writer.Prelude.{ℕ, Bool, true, false, ◌||◌, Option, none, some, ltb, if◌then◌else◌}

pub record StorageUsage : Type 0 where
  pub total_bytes : ℕ
  pub free_bytes : ℕ

-- `failed` stands for an `error` that is not None.
pub record StorageStatus : Type 0 where
  pub free_bytes : ℕ
  pub total_bytes : ℕ
  pub reserve_bytes : ℕ
  pub failed : Bool

-- `StorageStatus.blocked`
unfoldable pub is_blocked : StorageStatus → Bool
is_blocked s = s.failed || ltb s.free_bytes s.reserve_bytes

-- `max(min_free_bytes, math.ceil(total_bytes * min_free_ratio))`
unfoldable pub reserve_bytes_for : (ℕ → ℕ) → ℕ → ℕ → ℕ
reserve_bytes_for share min_free_bytes total_bytes =
    if ltb min_free_bytes (share total_bytes) then share total_bytes else min_free_bytes

-- `FilesystemGuard.check`
unfoldable pub check : (ℕ → ℕ) → ℕ → Option StorageUsage → StorageStatus
unfolding reserve_bytes_for
check share min_free_bytes usage = elim usage [
  | none ↦ record { free_bytes = 0; total_bytes = 0; reserve_bytes = min_free_bytes; failed = true }
  | some u ↦ record {
    free_bytes = u.free_bytes;
    total_bytes = u.total_bytes;
    reserve_bytes = reserve_bytes_for share min_free_bytes u.total_bytes;
    failed = false;
  }
]
