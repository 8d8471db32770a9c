-- ===== src/Spool/DeadLetters.antt =====
-- `move_to_dead_letter` and `delete_dead_letters` of
-- custom_components/hass_questdb_writer/spool.py.
pub mod Room
pub mod Moves
pub mod Batch
pub mod Guarantees
use hass_questdb_writer.Prelude.{
  ℕ, zero, suc, ◌+◌, ◌-◌, Bool, true, false, not, ◌||◌, Option, none, some, List, [], ◌∷◌, length,
  ltb, ◌==◌, find_by, if◌then◌else◌, ℤ, Text, is_empty, Result, ok, err, ◌>>=◌, ◌>>◌, require, pure,
  raise, gets, lift, Exec,
}
use hass_questdb_writer.Spool.Types.{
  SqliteError, Error, value_error, spool_state, dead_letter_full, Row, Db, Limits, Spool, Sql,
}
use hass_questdb_writer.Spool.Errors.{wrapped}
use hass_questdb_writer.Spool.Table.{
  same_sequence, delete_pending, insert_dead_letter, delete_dead_letter, evict_oldest, stats_row,
}
use hass_questdb_writer.Spool.Transaction.{
  transaction, classified_transaction, sequence_tuple, error_text, in_sqlite_range,
}

-- The variables of the loop of `move_to_dead_letter`.
pub record Progress : Type 0 where
  pub current_rows : ℕ
  pub current_bytes : ℕ
  pub moved : ℕ
  pub evicted : ℕ

-- SELECT ... FROM pending WHERE sequence = ?, for each sequence
unfoldable pub select_rows : List ℕ → Db → Result Error (List Row)
unfolding find_by
select_rows [] d = ok []
select_rows (q ∷ qs) d = elim (find_by (same_sequence q) d.pending) [
  | none ↦ err spool_state
  | some r ↦ elim (select_rows qs d) [ err x ↦ err x | ok rows ↦ ok (r ∷ rows) ]
]

-- The condition of the inner `while`.
abbrev pub lacks_room : Limits → Row → Progress → Bool
lacks_room limits r p =
    ltb limits.max_dead_letter_rows (p.current_rows + 1)
    || ltb limits.max_dead_letter_bytes (p.current_bytes + length r.payload)

abbrev pub one_evicted : ℕ → Progress → Progress
one_evicted n p = record p {
  current_rows = p.current_rows - 1;
  current_bytes = p.current_bytes - n;
  evicted = p.evicted + 1;
}

-- The inner `while`: a round evicts one dead letter, so as many rounds as there are dead letters,
-- and the one that finds the table empty, are fuel enough.
unfoldable pub make_room : ℕ → Limits → Row → Progress → Sql Progress
make_room zero limits r p d = (err dead_letter_full, d)
make_room (suc fuel) limits r p d = elim (lacks_room limits r p) [
  | false ↦ (ok p, d)
  | true ↦
      let (r', d') = evict_oldest d in
      elim r' [
        | err x ↦ (err x, d')
        | ok gone ↦ elim gone [
          | none ↦ (err dead_letter_full, d')
          | some n ↦ make_room fuel limits r (one_evicted n p) d'
        ]
      ]
]

abbrev pub one_moved : Row → Progress → Progress
one_moved r p = record p {
  current_rows = p.current_rows + 1;
  current_bytes = p.current_bytes + length r.payload;
  moved = p.moved + 1;
}

-- One round of the outer loop.
unfoldable pub move_one : Limits → Row → ℤ → Text → Bool → Progress → Sql Progress
move_one limits r failed_ns last_error delivery_uncertain p = do
  fuel ← gets (λ d. suc (length d.dead_letter))
  p' ← make_room fuel limits r p
  insert_dead_letter r failed_ns last_error delivery_uncertain
  rowcount ← delete_pending r.sequence
  require (rowcount == 1) spool_state
  pure (one_moved r p')

unfoldable pub move_all : Limits → List Row → ℤ → Text → Bool → Progress → Sql Progress
move_all limits [] failed_ns last_error delivery_uncertain p = pure p
move_all limits (r ∷ rs) failed_ns last_error delivery_uncertain p = do
  p' ← move_one limits r failed_ns last_error delivery_uncertain p
  move_all limits rs failed_ns last_error delivery_uncertain p'

-- The body of the transaction: the numbers of moved and of evicted rows.
unfoldable pub move_body : Limits → List ℕ → ℤ → Text → Bool → Sql (ℕ × ℕ)
move_body limits qs failed_ns last_error delivery_uncertain = do
  selected ← gets (select_rows qs)
  records ← lift selected
  stats ← stats_row
  p ← move_all limits records failed_ns last_error delivery_uncertain (record {
    current_rows = stats.dead_letter_rows;
    current_bytes = stats.dead_letter_bytes;
    moved = 0;
    evicted = 0;
  })
  pure (p.moved, p.evicted)

unfoldable pub move_to_dead_letter :
    Limits → Option SqliteError → List ℕ → Text → ℤ → Bool → Exec Error Spool (ℕ × ℕ)
unfolding classified_transaction sequence_tuple error_text in_sqlite_range
move_to_dead_letter limits fault sequences last_error failed_ns delivery_uncertain s =
    elim (sequence_tuple sequences) [
      | err x ↦ (err x, s)
      | ok values ↦ elim (error_text last_error) [
        | err x ↦ (err x, s)
        | ok text ↦
            if not (in_sqlite_range failed_ns)
            then (err value_error, s)
            else if is_empty values
            then (ok (0, 0), s)
            else classified_transaction fault
                (move_body limits values failed_ns text delivery_uncertain) s
      ]
    ]

unfoldable pub delete_originals : List ℕ → Sql (Unit {0})
delete_originals [] = pure tt
delete_originals (q ∷ qs) = do
  rowcount ← delete_dead_letter q
  require (rowcount == 1) spool_state
  delete_originals qs

unfoldable pub originals_body : List ℕ → Sql ℕ
originals_body values = do delete_originals values; pure (length values)

unfoldable pub delete_dead_letters : Option SqliteError → List ℕ → Exec Error Spool ℕ
unfolding wrapped transaction sequence_tuple originals_body
delete_dead_letters fault sequences s = elim (sequence_tuple sequences) [
  | err x ↦ (err x, s)
  | ok values ↦
      if is_empty values
      then (ok 0, s)
      else let (r, s') = transaction fault (originals_body values) s in (wrapped r, s')
]
