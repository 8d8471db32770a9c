-- ===== src/Guard/Tests.antt =====
-- A measurement below the reserve.
use hass_questdb_writer.Prelude.{◌≡◌, ◌⊎◌, ◌<◌, ◌≤◌, none, some, true, false}
use hass_questdb_writer.Guard.{StorageUsage, is_blocked, check}
use hass_questdb_writer.Guard.Reserve.{check-is_blocked}

abbrev nearly_full : StorageUsage
nearly_full = record { total_bytes = 100; free_bytes = 6 }

check-is_blocked_example :
    ((is_blocked (check (λ n. 5) 7 (some nearly_full)) ≡ false)
      × ((u : StorageUsage) × (some nearly_full ≡ some u)
          × (7 ≤ u.free_bytes)
          × (5 ≤ u.free_bytes)))
    ⊎ ((is_blocked (check (λ n. 5) 7 (some nearly_full)) ≡ true)
        × ((some nearly_full ≡ none)
            ⊎ ((u : StorageUsage) × (some nearly_full ≡ some u)
                × ((u.free_bytes < 7) ⊎ (u.free_bytes < 5)))))
check-is_blocked_example = check-is_blocked (λ n. 5) 7 (some nearly_full)
