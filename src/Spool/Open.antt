-- ===== src/Spool/Open.antt =====
-- `_initialize_schema` and `_reconcile_stats` of custom_components/hass_questdb_writer/spool.py, on
-- a file whose tables are there.
pub mod Restores
use hass_questdb_writer.Prelude.{
  ℕ, Bool, true, false, not, ◌||◌, Option, none, some, List, ◌==◌, any_of, if◌then◌else◌, text_eq,
  Result, ok, err, Exec,
}
use hass_questdb_writer.Spool.Types.{
  SqliteError, Error, unsupported_version, spool_state, Row, DeadRow, Stats, Db, Spool, Sql,
}
use hass_questdb_writer.Spool.Invariant.{count_stats}
use hass_questdb_writer.Spool.Transaction.{transaction}

abbrev pub schema_version : ℕ
schema_version = 1

-- INSERT INTO spool_stats ... VALUES (1, 0, 0, 0, 0) ON CONFLICT(singleton) DO NOTHING
abbrev pub stats_or_zero : Option Stats → Stats
stats_or_zero (some s) = s
stats_or_zero none = record {
  pending_rows = 0;
  pending_bytes = 0;
  dead_letter_rows = 0;
  dead_letter_bytes = 0;
}

-- The condition of the join of the two tables.
abbrev pub is_same : Row → DeadRow → Bool
is_same r x = text_eq x.event_id r.event_id || (x.original_sequence == r.sequence)

-- Whether the join finds a row.
unfoldable pub overlap : Db → Bool
unfolding any_of
overlap d = any_of (λ r. any_of (is_same r) d.dead_letter) d.pending

-- `_reconcile_stats`: COUNT(*) and SUM(length(payload)) of both tables, stored where the row is.
unfoldable pub reconcile_stats : Db → Db
reconcile_stats d = elim d.stats [
  | none ↦ d
  | some _ ↦ record d { stats = some (count_stats d.pending d.dead_letter) }
]

-- The body of the transaction.
unfoldable pub initialize_body : Sql (Unit {0})
unfolding overlap reconcile_stats
initialize_body d =
    if not ((d.user_version == 0) || (d.user_version == schema_version))
    then (err unsupported_version, d)
    else let d' : Db = record d { stats = some (stats_or_zero d.stats) } in
      if overlap d'
      then (err spool_state, d')
      else (ok tt, record (reconcile_stats d') { user_version = schema_version })

-- `_initialize_schema`
unfoldable pub initialize_schema : Option SqliteError → Exec Error Spool (Unit {0})
unfolding transaction initialize_body
initialize_schema fault s = transaction fault initialize_body s
