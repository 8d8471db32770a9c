-- ===== src/Spool/Enqueue.antt =====
-- `enqueue` and `enqueue_many` of custom_components/hass_questdb_writer/spool.py.
pub mod Inserts
pub mod Selection
pub mod Stored
pub mod Outcome
pub mod Guarantees
use hass_questdb_writer.Prelude.{
  ℕ, ◌+◌, Bool, true, false, not, ◌&&◌, Option, none, some, List, [], ◌∷◌, length, ltb, leb, ◌==◌,
  any_of, find_by, if◌then◌else◌, Text, Bytes, is_empty, text_eq, eq_ℤ, ℤ, Result, ok, err, ◌>>=◌,
  ◌>>◌, require, pure, lift, gets, Exec, ◌++◌, map,
}
use hass_questdb_writer.Spool.Types.{
  SqliteError, Error, spool_state, spool_full, NewEvent, Db, Limits, Spool, Sql,
}
use hass_questdb_writer.Spool.Table.{same_event, same_dead_event, insert_pending, stats_row}
use hass_questdb_writer.Spool.Transaction.{classified_transaction, validate_events}

abbrev pub same_content : Bytes → ℤ → NewEvent → Bool
same_content payload created_ns e = text_eq payload e.payload && eq_ℤ created_ns e.created_ns

-- `distinct_events`: the events in first-seen order, one for each ID. `seen` is the dict so far.
unfoldable pub distinct : List NewEvent → List NewEvent → Result Error (List NewEvent)
unfolding find_by
distinct seen [] = ok seen
distinct seen (e ∷ es) = elim (find_by (λ p. text_eq p.event_id e.event_id) seen) [
  | none ↦ distinct (seen ++ e ∷ []) es
  | some p ↦
      let rest = distinct seen es in
      if same_content p.payload p.created_ns e then rest else err spool_state
]

-- SELECT payload, created_ns FROM pending ... UNION ALL ... FROM dead_letter ... LIMIT 1
unfoldable pub existing : Db → Text → Option (Bytes × ℤ)
unfolding find_by
existing d i = elim (find_by (same_event i) d.pending) [
  | some r ↦ some (r.payload, r.created_ns)
  | none ↦ elim (find_by (same_dead_event i) d.dead_letter) [
    | some r ↦ some (r.payload, r.created_ns)
    | none ↦ none
  ]
]

-- `new_events`: those whose ID is in neither table
unfoldable pub new_events : Db → List NewEvent → Result Error (List NewEvent)
unfolding existing
new_events d [] = ok []
new_events d (e ∷ es) = elim (existing d e.event_id) [
  | some (payload, created_ns) ↦
      let rest = new_events d es in
      if same_content payload created_ns e then rest else err spool_state
  | none ↦ elim (new_events d es) [ err x ↦ err x | ok fresh ↦ ok (e ∷ fresh) ]
]

-- `sum(len(event.payload) for event in new_events)`
unfoldable pub added_bytes : List NewEvent → ℕ
added_bytes [] = 0
added_bytes (e ∷ es) = length e.payload + added_bytes es

-- `executemany`
unfoldable pub insert_all : List NewEvent → Sql (Unit {0})
insert_all [] = pure tt
insert_all (e ∷ es) = do insert_pending e; insert_all es

-- The checks on the two limits, and the inserts.
unfoldable pub insert_within : Limits → List NewEvent → Sql ℕ
insert_within limits fresh = do
  stats ← stats_row
  require (leb (stats.pending_rows + length fresh) limits.max_pending_rows) spool_full
  require (leb (stats.pending_bytes + added_bytes fresh) limits.max_pending_bytes) spool_full
  insert_all fresh
  pure (length fresh)

-- The body of the transaction.
unfoldable pub enqueue_body : Limits → List NewEvent → Sql ℕ
unfolding insert_within new_events
enqueue_body limits events d = elim (new_events d events) [
  | err x ↦ (err x, d)
  | ok fresh ↦ insert_within limits fresh d
]

unfoldable pub enqueue_many : Limits → Option SqliteError → List NewEvent → Exec Error Spool ℕ
unfolding validate_events distinct classified_transaction
enqueue_many limits fault events s = elim (validate_events limits events) [
  | err x ↦ (err x, s)
  | ok _ ↦ if is_empty events then (ok 0, s) else elim (distinct [] events) [
    | err x ↦ (err x, s)
    | ok values ↦ classified_transaction fault (enqueue_body limits values) s
  ]
]

-- `enqueue`: one event; `true` where it was inserted
unfoldable pub enqueue : Limits → Option SqliteError → NewEvent → Exec Error Spool Bool
unfolding enqueue_many
enqueue limits fault e = do n ← enqueue_many limits fault (e ∷ []); pure (n == 1)
