-- ===== src/Spool/Invariant.antt =====
-- What holds of the database between two calls of the spool.
pub mod Rows
pub mod Keys
pub mod Statements
pub mod Updates
use mathlib.Core.List.{Nodup}
use hass_questdb_writer.Prelude.{
  ℕ, ◌+◌, ◌≤◌, ◌<◌, ◌≡◌, some, List, [], ◌∷◌, ◌++◌, map, length, All, Text, is_empty, false,
}
use hass_questdb_writer.Spool.Types.{Row, DeadRow, Stats, Db, Limits, Spool}

unfoldable pub payload_bytes : List Row → ℕ
payload_bytes [] = 0
payload_bytes (r ∷ rs) = length r.payload + payload_bytes rs

unfoldable pub dead_payload_bytes : List DeadRow → ℕ
dead_payload_bytes [] = 0
dead_payload_bytes (r ∷ rs) = length r.payload + dead_payload_bytes rs

-- What the four counters stand for.
abbrev pub count_stats : List Row → List DeadRow → Stats
count_stats rows dead = record {
  pending_rows = length rows;
  pending_bytes = payload_bytes rows;
  dead_letter_rows = length dead;
  dead_letter_bytes = dead_payload_bytes dead;
}

-- The sequence numbers grow along the table, above `lo` and up to `hi`.
abbrev pub Ascending : ℕ → List Row → ℕ → Type 0
Ascending lo [] hi = lo ≤ hi
Ascending lo (r ∷ rs) hi = (lo < r.sequence) × Ascending r.sequence rs hi

abbrev pub event_ids : List Row → List DeadRow → List Text
event_ids rows dead = map (λ r. r.event_id) rows ++ map (λ r. r.event_id) dead

abbrev pub sequence_numbers : List Row → List DeadRow → List ℕ
sequence_numbers rows dead = map (λ r. r.sequence) rows ++ map (λ r. r.original_sequence) dead

-- The CHECK constraints of the table of pending rows.
abbrev pub HasContent : Row → Type 0
HasContent r = (is_empty r.event_id ≡ false) × (is_empty r.payload ≡ false)

-- The counters are exact, an event ID and a sequence number stand in one row of one table, and
-- the pending rows stand in the order in which their numbers were issued, each with an ID and a
-- payload.
pub record IsConsistent (d : Db) : Type 0 where
  pub counted : d.stats ≡ some (count_stats d.pending d.dead_letter)
  pub ids : Nodup (event_ids d.pending d.dead_letter)
  pub sequences : Nodup (sequence_numbers d.pending d.dead_letter)
  pub ordered : Ascending 0 d.pending d.last_sequence
  pub issued : All (λ r. r.original_sequence ≤ d.last_sequence) d.dead_letter
  pub checked : All HasContent d.pending

-- Both tables are within their limits, and so is every payload.
pub record IsWithin (limits : Limits) (d : Db) : Type 0 where
  pub rows : length d.pending ≤ limits.max_pending_rows
  pub bytes : payload_bytes d.pending ≤ limits.max_pending_bytes
  pub dead_rows : length d.dead_letter ≤ limits.max_dead_letter_rows
  pub dead_bytes : dead_payload_bytes d.dead_letter ≤ limits.max_dead_letter_bytes
  pub payloads : All (λ r. length r.payload ≤ limits.max_event_bytes) d.pending
