-- ===== src/Guard/Reserve.antt =====
-- The decision of `FilesystemGuard.check`.
use hass_questdb_writer.Prelude.{
  ℕ, ◌≤◌, ◌<◌, ◌≡◌, refl, ◌⊎◌, inl, inr, true, false, Option, none, some, ltb, arith, Bool-cases,
}
use hass_questdb_writer.Guard.{StorageUsage, is_blocked, check, reserve_bytes_for}

-- A check lets the writer go on exactly where the filesystem could be read and its free space is at
-- least the floor and at least the share.
pub check-is_blocked :
    (share : ℕ → ℕ) (min_free_bytes : ℕ) (usage : Option StorageUsage)
    → ((is_blocked (check share min_free_bytes usage) ≡ false)
        × ((u : StorageUsage) × (usage ≡ some u)
            × (min_free_bytes ≤ u.free_bytes)
            × (share u.total_bytes ≤ u.free_bytes)))
      ⊎ ((is_blocked (check share min_free_bytes usage) ≡ true)
          × ((usage ≡ none)
              ⊎ ((u : StorageUsage) × (usage ≡ some u)
                  × ((u.free_bytes < min_free_bytes) ⊎ (u.free_bytes < share u.total_bytes)))))
unfolding is_blocked check reserve_bytes_for
check-is_blocked share min_free_bytes none = inr (refl, inl refl)
check-is_blocked share min_free_bytes (some u) =
    elim (Bool-cases (ltb min_free_bytes (share u.total_bytes))) [
      | inl over ↦ elim (Bool-cases (ltb u.free_bytes (share u.total_bytes))) [
        | inl low ↦ inr (ground (arith, over, low), inr (u, refl, inr (ground (arith, low))))
        | inr enough ↦ inl (
          ground (arith, over, enough),
          (u, refl, ground (arith, over, enough), ground (arith, enough)),
        )
      ]
      | inr under ↦ elim (Bool-cases (ltb u.free_bytes min_free_bytes)) [
        | inl low ↦ inr (ground (arith, under, low), inr (u, refl, inl (ground (arith, low))))
        | inr enough ↦ inl (
          ground (arith, under, enough),
          (u, refl, ground (arith, enough), ground (arith, under, enough)),
        )
      ]
    ]
