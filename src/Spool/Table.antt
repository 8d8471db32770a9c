-- ===== src/Spool/Table.antt =====
-- The SQL statements of custom_components/hass_questdb_writer/spool.py on its tables, with the
-- CHECK and UNIQUE constraints and the triggers of its schema.
use hass_questdb_writer.Prelude.{
  ℕ, suc, ◌+◌, ◌-◌, Bool, false, ◌||◌, Option, none, some, List, [], ◌∷◌, ◌++◌, length, ltb, ◌==◌,
  any_of, if◌then◌else◌, ℤ, Text, is_empty, text_eq, Result, ok, err,
}
use hass_questdb_writer.Spool.Types.{Error, sqlite, spool_state, NewEvent, Row, DeadRow, Stats, Sql}

-- SQLITE_CONSTRAINT
abbrev pub constraint : Error
constraint = sqlite (record { code = some 19 })

-- `DELETE ... WHERE` on a unique column: the row, and the table without it.
unfoldable pub remove_by : {A : Type 0} → (A → Bool) → List A → Option (A × List A)
remove_by test [] = none
remove_by test (x ∷ xs) =
    let rest = remove_by test xs in
    if test x then some (x, xs) else elim rest [ none ↦ none | some (y, ys) ↦ some (y, x ∷ ys) ]

abbrev pub same_sequence : ℕ → Row → Bool
same_sequence q r = r.sequence == q

abbrev pub same_event : Text → Row → Bool
same_event i r = text_eq r.event_id i

abbrev pub same_original : ℕ → DeadRow → Bool
same_original q r = r.original_sequence == q

abbrev pub same_dead_event : Text → DeadRow → Bool
same_dead_event i r = text_eq r.event_id i

-- The four triggers. A counter that would fall below 0 violates its CHECK.
abbrev pub pending_stats_after_insert : ℕ → Option Stats → Option Stats
pending_stats_after_insert n none = none
pending_stats_after_insert n (some s) =
    some (record s { pending_rows = s.pending_rows + 1; pending_bytes = s.pending_bytes + n })

abbrev pub pending_stats_after_delete : ℕ → Option Stats → Result Error (Option Stats)
pending_stats_after_delete n none = ok none
pending_stats_after_delete n (some s) =
    if ltb s.pending_rows 1 || ltb s.pending_bytes n
    then err constraint
    else ok
        (some (record s { pending_rows = s.pending_rows - 1; pending_bytes = s.pending_bytes - n }))

abbrev pub dead_letter_stats_after_insert : ℕ → Option Stats → Option Stats
dead_letter_stats_after_insert n none = none
dead_letter_stats_after_insert n (some s) = some (record s {
  dead_letter_rows = s.dead_letter_rows + 1;
  dead_letter_bytes = s.dead_letter_bytes + n;
})

abbrev pub dead_letter_stats_after_delete : ℕ → Option Stats → Result Error (Option Stats)
dead_letter_stats_after_delete n none = ok none
dead_letter_stats_after_delete n (some s) =
    if ltb s.dead_letter_rows 1 || ltb s.dead_letter_bytes n
    then err constraint
    else ok (
        some (record s {
          dead_letter_rows = s.dead_letter_rows - 1;
          dead_letter_bytes = s.dead_letter_bytes - n;
        }))

abbrev pub new_row : NewEvent → ℕ → Row
new_row e q = record {
  sequence = q;
  event_id = e.event_id;
  payload = e.payload;
  created_ns = e.created_ns;
  attempt_count = 0;
  last_error = none;
  delivery_uncertain = false;
}

abbrev pub attempted : Text → Bool → Row → Row
attempted last_error delivery_uncertain r = record r {
  attempt_count = r.attempt_count + 1;
  last_error = some last_error;
  delivery_uncertain = r.delivery_uncertain || delivery_uncertain;
}

-- INSERT INTO pending (event_id, payload, created_ns) VALUES (?, ?, ?)
unfoldable pub insert_pending : NewEvent → Sql (Unit {0})
unfolding any_of
insert_pending e d =
    if is_empty e.event_id || is_empty e.payload || any_of (same_event e.event_id) d.pending
    then (err constraint, d)
    else (
      ok tt,
      record d {
        pending = d.pending ++ new_row e (suc d.last_sequence) ∷ [];
        last_sequence = suc d.last_sequence;
        stats = pending_stats_after_insert (length e.payload) d.stats;
      },
    )

-- DELETE FROM pending WHERE sequence = ?, with its row count
unfoldable pub delete_pending : ℕ → Sql ℕ
delete_pending q d = elim (remove_by (same_sequence q) d.pending) [
  | none ↦ (ok 0, d)
  | some (row, rest) ↦ elim (pending_stats_after_delete (length row.payload) d.stats) [
    | err e ↦ (err e, d)
    | ok stats ↦ (ok 1, record d { pending = rest; stats = stats })
  ]
]

-- The row that a permanently failed row becomes.
abbrev pub dead_row : Row → ℤ → Text → Bool → ℕ → DeadRow
dead_row r failed_ns last_error delivery_uncertain id = record {
  dead_letter_id = id;
  original_sequence = r.sequence;
  event_id = r.event_id;
  payload = r.payload;
  created_ns = r.created_ns;
  failed_ns = failed_ns;
  attempt_count = r.attempt_count + 1;
  last_error = last_error;
  delivery_uncertain = r.delivery_uncertain || delivery_uncertain;
}

-- INSERT INTO dead_letter (...) VALUES (...), where `last_error` does not begin with NUL: SQLite's
-- `length`, which a CHECK wants positive, stops at the first NUL. The worker replaces NUL in the texts.
unfoldable pub insert_dead_letter : Row → ℤ → Text → Bool → Sql (Unit {0})
unfolding any_of
insert_dead_letter r failed_ns last_error delivery_uncertain d =
    if is_empty r.event_id
      || is_empty r.payload
      || is_empty last_error
      || any_of (same_original r.sequence) d.dead_letter
      || any_of (same_dead_event r.event_id) d.dead_letter
    then (err constraint, d)
    else (
      ok tt,
      record d {
        dead_letter =
            d.dead_letter
            ++ dead_row r failed_ns last_error delivery_uncertain (suc d.last_dead_letter_id) ∷ [];
        last_dead_letter_id = suc d.last_dead_letter_id;
        stats = dead_letter_stats_after_insert (length r.payload) d.stats;
      },
    )

-- DELETE FROM dead_letter WHERE original_sequence = ?, with its row count
unfoldable pub delete_dead_letter : ℕ → Sql ℕ
delete_dead_letter q d = elim (remove_by (same_original q) d.dead_letter) [
  | none ↦ (ok 0, d)
  | some (row, rest) ↦ elim (dead_letter_stats_after_delete (length row.payload) d.stats) [
    | err e ↦ (err e, d)
    | ok stats ↦ (ok 1, record d { dead_letter = rest; stats = stats })
  ]
]

-- The oldest dead letter: SELECT ... ORDER BY dead_letter_id LIMIT 1, and its DELETE; `none` where
-- the table is empty, else the bytes that it gave back.
unfoldable pub evict_oldest : Sql (Option ℕ)
evict_oldest d = elim d.dead_letter [
  | [] ↦ (ok none, d)
  | row ∷ rest ↦ elim (dead_letter_stats_after_delete (length row.payload) d.stats) [
    | err e ↦ (err e, d)
    | ok stats ↦ (ok (some (length row.payload)), record d { dead_letter = rest; stats = stats })
  ]
]

-- The UPDATE of `record_attempt` on the first row with the sequence; `none` where there is none.
unfoldable pub bump_attempt : ℕ → Text → Bool → List Row → Option (List Row)
bump_attempt q last_error delivery_uncertain [] = none
bump_attempt q last_error delivery_uncertain (r ∷ rs) =
    let rest = bump_attempt q last_error delivery_uncertain rs in
    if same_sequence q r
    then some (attempted last_error delivery_uncertain r ∷ rs)
    else elim rest [ none ↦ none | some rs' ↦ some (r ∷ rs') ]

-- UPDATE pending SET attempt_count = attempt_count + 1, ... WHERE sequence = ?, with its row count
unfoldable pub update_attempt : ℕ → Text → Bool → Sql ℕ
update_attempt q last_error delivery_uncertain d =
    elim (bump_attempt q last_error delivery_uncertain d.pending) [
      | none ↦ (ok 0, d)
      | some rows ↦ (ok 1, record d { pending = rows })
    ]

-- `_stats_row`
unfoldable pub stats_row : Sql Stats
stats_row d = elim d.stats [ none ↦ (err spool_state, d) | some s ↦ (ok s, d) ]
