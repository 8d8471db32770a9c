-- ===== src/Schema/Manager.antt =====
-- `IlpSchemaManager` of custom_components/hass_questdb_writer/schema.py: the queries of `ensure` in
-- order, by the answers that `exec_query` gives them.
pub mod Ensured
pub mod Retained
use hass_questdb_writer.Prelude.{
  ℕ, zero, suc, Bool, true, false, not, ◌&&◌, ◌||◌, Option, none, some, List, [], ◌∷◌, ◌++◌, ◌==◌,
  if◌then◌else◌, Text, is_empty, has_nul, Result, ok, err, codes, replace, decimal, ℤ, pos, negsuc,
}
use hass_questdb_writer.Transport.{TransportError, Kind, authentication, retryable, permanent}
use hass_questdb_writer.Schema.{
  Column, SchemaError, malformed, mismatch, quote_identifier, create_table_ddl,
  validate_table_columns,
}

-- What `ensure` raises.
pub data Raised : Type 0 where
  value_error : Raised
  schema_error : SchemaError → Raised
  transport_error : TransportError → Raised

-- The answer to SHOW COLUMNS: an error, and whether its text has `_TABLE_MISSING_MARKER`, or a
-- document, `none` where it is no dict.
pub data Shown : Type 0 where
  show_failed : TransportError → Bool → Shown
  shown : Option (Option (List (Option Column))) → Shown

-- The answer to the query for the TTL: an error, a document without a number at its place, or
-- `int(value)`.
pub data Ttl : Type 0 where
  ttl_failed : TransportError → Ttl
  ttl_malformed : Ttl
  ttl_value : ℤ → Ttl

-- The answers to the four queries, in case they are sent.
pub record Answers : Type 0 where
  pub created : Result TransportError (Unit {0})
  pub columns : Shown
  pub ttl : Ttl
  pub altered : Result TransportError (Unit {0})

-- `IlpSchemaManager`: its fields, and the queries it sent.
pub record Manager : Type 0 where
  pub retention_days : ℕ
  pub ttl_rejected : Bool
  pub sent : List Text

abbrev pub send : Text → Manager → Manager
send query m = record m { sent = m.sent ++ query ∷ [] }

-- `except PermanentIlpError`, which AuthenticationIlpError is too
abbrev pub is_permanent : Kind → Bool
is_permanent permanent = true
is_permanent authentication = true
is_permanent retryable = false

unfoldable pub show_columns_query : Text → Text
unfolding quote_identifier
show_columns_query table = codes "SHOW COLUMNS FROM " ++ quote_identifier table

unfoldable pub ttl_query : Text → Text
unfolding replace
ttl_query table =
    codes "SELECT table_name, ttlValue, ttlUnit FROM tables() WHERE table_name = '"
    ++ (replace b'\'' (codes "''") table ++ codes "'")

unfoldable pub set_ttl_query : Text → ℕ → Text
unfolding quote_identifier decimal
set_ttl_query table days =
    codes "ALTER TABLE "
    ++ (quote_identifier table ++ (codes " SET TTL " ++ (decimal days ++ codes " DAYS")))

-- `ttl if ttl > 0 else None`
abbrev pub positive : ℤ → Option ℕ
positive (pos (suc n)) = some (suc n)
positive _ = none

-- `desired or None`
abbrev pub or_none : ℕ → Option ℕ
or_none zero = none
or_none (suc n) = some (suc n)

abbrev pub same_ttl : Option ℕ → Option ℕ → Bool
same_ttl none none = true
same_ttl (some a) (some b) = a == b
same_ttl _ _ = false

-- `_read_ttl_days`
unfoldable pub read_ttl_days : Ttl → Result Raised (Option ℕ)
read_ttl_days (ttl_failed e) = err (transport_error e)
read_ttl_days ttl_malformed = err (schema_error malformed)
read_ttl_days (ttl_value n) = ok (positive n)

-- After ALTER TABLE with a number of days that is not zero.
unfoldable pub after_alter :
    Result TransportError (Unit {0}) → Manager → Result Raised (Unit {0}) × Manager
after_alter (ok _) m = (ok tt, m)
after_alter (err e) m =
    if is_permanent e.kind
    then (ok tt, record m { ttl_rejected = true })
    else (err (transport_error e), m)

-- After ALTER TABLE with TTL 0.
unfoldable pub after_clear :
    Result TransportError (Unit {0}) → Manager → Result Raised (Unit {0}) × Manager
after_clear (ok _) m = (ok tt, m)
after_clear (err e) m = (err (transport_error e), m)

unfoldable pub after_ttl :
    Text
    → Result TransportError (Unit {0})
    → Result Raised (Option ℕ)
    → Manager
    → Result Raised (Unit {0}) × Manager
unfolding after_alter after_clear set_ttl_query
after_ttl table altered (err x) m = (err x, m)
after_ttl table altered (ok current) m =
    if same_ttl current (or_none m.retention_days)
    then (ok tt, m)
    else if m.retention_days == 0
    then after_clear altered (send (set_ttl_query table 0) m)
    else after_alter altered (send (set_ttl_query table m.retention_days) m)

-- `_apply_retention`
unfoldable pub apply_retention : Text → Answers → Manager → Result Raised (Unit {0}) × Manager
unfolding after_ttl read_ttl_days ttl_query
apply_retention table answers m =
    if m.ttl_rejected
    then (ok tt, m)
    else after_ttl table answers.altered (read_ttl_days answers.ttl) (send (ttl_query table) m)

unfoldable pub after_validate :
    Text → Answers → Result SchemaError (Unit {0}) → Manager → Result Raised (Unit {0}) × Manager
unfolding apply_retention
after_validate table answers (err x) m = (err (schema_error x), m)
after_validate table answers (ok _) m = apply_retention table answers m

-- The error for a table that disappeared.
abbrev pub disappeared : TransportError
disappeared = record { kind = retryable; delivery_uncertain = false; status_code = none }

unfoldable pub after_show : Text → Answers → Shown → Manager → Result Raised (Unit {0}) × Manager
unfolding after_validate validate_table_columns
after_show table answers (show_failed e has_marker) m =
    if is_permanent e.kind && has_marker
    then (err (transport_error disappeared), m)
    else (err (transport_error e), m)
after_show table answers (shown none) m = (err (schema_error malformed), m)
after_show table answers (shown (some dataset)) m =
    after_validate table answers (validate_table_columns dataset) m

unfoldable pub after_create :
    Text → Answers → Result TransportError (Unit {0}) → Manager → Result Raised (Unit {0}) × Manager
unfolding after_show show_columns_query
after_create table answers (err e) m = (err (transport_error e), m)
after_create table answers (ok _) m =
    after_show table answers answers.columns (send (show_columns_query table) m)

-- `ensure`
unfoldable pub ensure : Text → Answers → Manager → Result Raised (Unit {0}) × Manager
unfolding after_create create_table_ddl has_nul
ensure table answers m =
    if is_empty table || has_nul table
    then (err value_error, m)
    else after_create table answers answers.created (send (create_table_ddl table) m)
