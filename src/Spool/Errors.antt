-- ===== src/Spool/Errors.antt =====
-- `classify_storage_error` of custom_components/hass_questdb_writer/spool.py, and the handlers
-- around each transaction. The numbers are SQLite's documented result codes.
use hass_questdb_writer.Prelude.{
  ℕ, ◌*◌, ◌%◌, Bool, false, ◌&&◌, Option, none, some, List, [], ◌∷◌, map, ltb, ◌==◌, any_of,
  if◌then◌else◌, Result, err,
}
use hass_questdb_writer.Spool.Types.{SqliteError, Error, sqlite, spool_error, disk_full, read_only}

-- `code & 0xFF`
unfoldable pub primary_sqlite_code : ℕ → ℕ
primary_sqlite_code code = code % 256

abbrev pub sqlite_full : ℕ
sqlite_full = 13

-- SQLITE_READONLY and its extended codes
unfoldable pub read_only_sqlite_codes : List ℕ
unfolding primary_sqlite_code
read_only_sqlite_codes = map primary_sqlite_code (8 ∷ 264 ∷ 520 ∷ 776 ∷ 1032 ∷ 1288 ∷ 1544 ∷ [])

-- SQLITE_CANTOPEN and SQLITE_IOERR
unfoldable pub out_of_space_sqlite_codes : List ℕ
unfolding primary_sqlite_code
out_of_space_sqlite_codes = map primary_sqlite_code (14 ∷ 10 ∷ [])

abbrev pub out_of_space_free_bytes : ℕ
out_of_space_free_bytes = 64 * 1024

-- `free_bytes is not None and free_bytes < _OUT_OF_SPACE_FREE_BYTES`
abbrev pub no_room : Option ℕ → Bool
no_room none = false
no_room (some free) = ltb free out_of_space_free_bytes

unfoldable pub classify_code : ℕ → Option ℕ → Error
unfolding read_only_sqlite_codes out_of_space_sqlite_codes any_of
classify_code primary free =
    if primary == sqlite_full
    then disk_full
    else if any_of (λ c. c == primary) read_only_sqlite_codes
    then read_only
    else if any_of (λ c. c == primary) out_of_space_sqlite_codes && no_room free
    then disk_full
    else spool_error

unfoldable pub classify_storage_error : SqliteError → Option ℕ → Error
unfolding classify_code primary_sqlite_code
classify_storage_error e free = elim e.code [
  | none ↦ spool_error
  | some code ↦ classify_code (primary_sqlite_code code) free
]

-- `except SpoolError: raise` and `except sqlite3.Error: raise classify_storage_error(...)`
unfoldable pub classified : {A : Type 0} → Result Error A → Result Error A
classified (err (sqlite e)) = err (classify_storage_error e none)
classified r = r

-- `except sqlite3.Error: raise SpoolError(...)`
unfoldable pub wrapped : {A : Type 0} → Result Error A → Result Error A
wrapped (err (sqlite e)) = err spool_error
wrapped r = r
