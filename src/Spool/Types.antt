-- ===== src/Spool/Types.antt =====
-- The data of custom_components/hass_questdb_writer/spool.py: its exceptions, its records and the
-- rows of its three tables. Message texts are not modelled.
use hass_questdb_writer.Prelude.{ℕ, Bool, Option, List, ℤ, Text, Bytes, Exec}

-- A `sqlite3.Error`: its `sqlite_errorcode`, if it carries one.
pub record SqliteError : Type 0 where
  pub code : Option ℕ

-- The exceptions that the spool raises or meets.
pub data Error : Type 0 where
  value_error : Error
  sqlite : SqliteError → Error
  spool_error spool_closed spool_state unsupported_version spool_full disk_full read_only : Error
  dead_letter_full event_too_large batch_limit_too_small : Error

pub record NewEvent : Type 0 where
  pub event_id : Text
  pub payload : Bytes
  pub created_ns : ℤ

pub record Row : Type 0 where
  pub sequence : ℕ
  pub event_id : Text
  pub payload : Bytes
  pub created_ns : ℤ
  pub attempt_count : ℕ
  pub last_error : Option Text
  pub delivery_uncertain : Bool

pub record DeadRow : Type 0 where
  pub dead_letter_id : ℕ
  pub original_sequence : ℕ
  pub event_id : Text
  pub payload : Bytes
  pub created_ns : ℤ
  pub failed_ns : ℤ
  pub attempt_count : ℕ
  pub last_error : Text
  pub delivery_uncertain : Bool

pub record Stats : Type 0 where
  pub pending_rows : ℕ
  pub pending_bytes : ℕ
  pub dead_letter_rows : ℕ
  pub dead_letter_bytes : ℕ

-- The database file. A table is the list of its rows in the order of its primary key; `last_…` is
-- the AUTOINCREMENT counter of the table.
pub record Db : Type 0 where
  pub pending : List Row
  pub last_sequence : ℕ
  pub dead_letter : List DeadRow
  pub last_dead_letter_id : ℕ
  pub stats : Option Stats
  pub user_version : ℕ

-- The arguments of `SQLiteSpool` that bound it.
pub record Limits : Type 0 where
  pub max_pending_rows : ℕ
  pub max_pending_bytes : ℕ
  pub max_event_bytes : ℕ
  pub max_dead_letter_rows : ℕ
  pub max_dead_letter_bytes : ℕ

-- `SQLiteSpool`: whether its connection is open, the vacuum mode it read, and the database.
pub record Spool : Type 0 where
  pub is_open : Bool
  pub auto_vacuum : ℕ
  pub db : Db

-- A statement, or a block of statements, run on the database.
abbrev pub Sql : Type 0 → Type 0
Sql A = Exec Error Db A
