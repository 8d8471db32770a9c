-- ===== src/Spool/Peek.antt =====
-- The readers of custom_components/hass_questdb_writer/spool.py: `peek_batch`,
-- `peek_dead_letters` and `stats`.
pub mod Batch
use hass_questdb_writer.Prelude.{
  ℕ, ◌+◌, Bool, true, false, Option, none, some, List, [], ◌∷◌, length, take, ltb, if◌then◌else◌,
  Result, ok, err,
}
use hass_questdb_writer.Spool.Types.{
  SqliteError, Error, value_error, sqlite, spool_closed, batch_limit_too_small, Row, DeadRow, Stats,
  Db, Spool, Sql,
}
use hass_questdb_writer.Spool.Errors.{wrapped}
use hass_questdb_writer.Spool.Table.{stats_row}

-- A SELECT outside a transaction: it fails as a whole, or answers from the database.
unfoldable pub query :
    {A : Type 0} → Option SqliteError → Spool → (Db → Result Error A) → Result Error A
unfolding wrapped
query fault s read =
    if s.is_open
    then wrapped (elim fault [ some e ↦ err (sqlite e) | none ↦ read s.db ])
    else err spool_closed

-- The loop over the rows: `used` bytes are in the batch, which is empty while `first` holds.
unfoldable pub take_batch : ℕ → Bool → ℕ → List Row → Result Error (List Row)
take_batch max_bytes first used [] = ok []
take_batch max_bytes first used (r ∷ rs) =
    let rest = take_batch max_bytes false (used + length r.payload) rs in
    if ltb max_bytes (used + length r.payload)
    then (if first then err batch_limit_too_small else ok [])
    else elim rest [ err x ↦ err x | ok batch ↦ ok (r ∷ batch) ]

unfoldable pub peek_batch : Option SqliteError → ℕ → ℕ → Spool → Result Error (List Row)
unfolding take_batch query
peek_batch fault max_rows max_bytes s =
    if ltb 0 max_rows
    then (if ltb 0 max_bytes
        then elim (query fault s (λ d. ok (take max_rows d.pending))) [
          | err x ↦ err x
          | ok rows ↦ take_batch max_bytes true 0 rows
        ]
        else err value_error)
    else err value_error

unfoldable pub peek_dead_letters : Option SqliteError → ℕ → Spool → Result Error (List DeadRow)
unfolding query
peek_dead_letters fault limit s =
    if ltb 0 limit then query fault s (λ d. ok (take limit d.dead_letter)) else err value_error

-- `stats`
unfoldable pub stats : Option SqliteError → Spool → Result Error Stats
unfolding query stats_row
stats fault s = query fault s (λ d. (stats_row d).0)
