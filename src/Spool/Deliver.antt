-- ===== src/Spool/Deliver.antt =====
-- `mark_delivered` and `record_attempt` of custom_components/hass_questdb_writer/spool.py.
pub mod Marks
pub mod Attempts
use hass_questdb_writer.Prelude.{
  ℕ, Bool, Option, List, [], ◌∷◌, length, ◌==◌, if◌then◌else◌, Text, is_empty, Result, ok, err,
  ◌>>=◌, ◌>>◌, require, pure, Exec,
}
use hass_questdb_writer.Spool.Types.{SqliteError, Error, spool_state, Spool, Sql}
use hass_questdb_writer.Spool.Table.{delete_pending, update_attempt}
use hass_questdb_writer.Spool.Transaction.{classified_transaction, sequence_tuple, error_text}

unfoldable pub delete_all : List ℕ → Sql (Unit {0})
delete_all [] = pure tt
delete_all (q ∷ qs) = do
  rowcount ← delete_pending q
  require (rowcount == 1) spool_state
  delete_all qs

unfoldable pub delete_body : List ℕ → Sql ℕ
delete_body values = do delete_all values; pure (length values)

unfoldable pub mark_delivered : Option SqliteError → List ℕ → Exec Error Spool ℕ
unfolding classified_transaction sequence_tuple delete_body
mark_delivered fault sequences s = elim (sequence_tuple sequences) [
  | err x ↦ (err x, s)
  | ok values ↦
      if is_empty values then (ok 0, s) else classified_transaction fault (delete_body values) s
]

unfoldable pub attempt_all : List ℕ → Text → Bool → Sql (Unit {0})
attempt_all [] last_error delivery_uncertain = pure tt
attempt_all (q ∷ qs) last_error delivery_uncertain = do
  rowcount ← update_attempt q last_error delivery_uncertain
  require (rowcount == 1) spool_state
  attempt_all qs last_error delivery_uncertain

unfoldable pub attempt_body : List ℕ → Text → Bool → Sql ℕ
attempt_body values last_error delivery_uncertain = do
  attempt_all values last_error delivery_uncertain
  pure (length values)

unfoldable pub record_attempt : Option SqliteError → List ℕ → Text → Bool → Exec Error Spool ℕ
unfolding classified_transaction sequence_tuple error_text attempt_body
record_attempt fault sequences last_error delivery_uncertain s = elim (sequence_tuple sequences) [
  | err x ↦ (err x, s)
  | ok values ↦ elim (error_text last_error) [
    | err x ↦ (err x, s)
    | ok text ↦
        if is_empty values
        then (ok 0, s)
        else classified_transaction fault (attempt_body values text delivery_uncertain) s
  ]
]
