-- ===== src/Spool/Transaction.antt =====
-- `_transaction`, and the argument checks that stand before each transaction of
-- custom_components/hass_questdb_writer/spool.py.
pub mod Outcome
use hass_questdb_writer.Prelude.{
  ℕ, Bool, true, false, not, ◌&&◌, ◌||◌, Option, none, some, List, [], ◌∷◌, length, leb, ltb, ◌==◌,
  any_of, if◌then◌else◌, Text, is_empty, has_nul, ℤ, pos, negsuc, ◌^◌, Result, ok, err, ◌>>=◌, ◌>>◌,
  require, pure, Exec, ◌≤◌, ◌<◌,
}
use hass_questdb_writer.Spool.Types.{
  SqliteError, Error, value_error, event_too_large, sqlite, spool_closed, NewEvent, Db, Limits,
  Spool, Sql,
}
use hass_questdb_writer.Spool.Errors.{classified}

-- COMMIT keeps what the block wrote; an exception rolls it back.
abbrev pub settle : {A : Type 0} → Spool → Result Error A × Db → Result Error A × Spool
settle s (ok a, d) = (ok a, record s { db = d })
settle s (err e, d) = (err e, record s { db = s.db })

-- `with self._transaction()`: `fault` is the failure of one statement of it, BEGIN and COMMIT
-- included, if one fails. SQLite restores the database wherever in the block that happens.
unfoldable pub transaction : {A : Type 0} → Option SqliteError → Sql A → Exec Error Spool A
transaction fault body s =
    if s.is_open
    then elim fault [ some e ↦ (err (sqlite e), s) | none ↦ settle s (body s.db) ]
    else (err spool_closed, s)

-- The `try` around a transaction that may fail for its storage.
unfoldable pub classified_transaction :
    {A : Type 0} → Option SqliteError → Sql A → Exec Error Spool A
unfolding transaction classified
classified_transaction fault body s = let (r, s') = transaction fault body s in (classified r, s')

-- `_sqlite_integer`: a signed 64-bit integer
unfoldable pub in_sqlite_range : ℤ → Bool
in_sqlite_range (pos n) = ltb n (2 ^ 63)
in_sqlite_range (negsuc n) = ltb n (2 ^ 63)

-- `_validate_new_event`
unfoldable pub validate_new_event : Limits → NewEvent → Result Error (Unit {0})
unfolding has_nul in_sqlite_range
validate_new_event limits e =
    if is_empty e.event_id || has_nul e.event_id
    then err value_error
    else if is_empty e.payload
    then err value_error
    else if not (in_sqlite_range e.created_ns)
    then err value_error
    else if ltb limits.max_event_bytes (length e.payload)
    then err event_too_large
    else ok tt

unfoldable pub validate_events : Limits → List NewEvent → Result Error (Unit {0})
unfolding validate_new_event
validate_events limits [] = ok tt
validate_events limits (e ∷ es) = elim (validate_new_event limits e) [
  | err x ↦ err x
  | ok _ ↦ validate_events limits es
]

-- `_positive_integer` on each sequence
unfoldable pub all_positive : List ℕ → Bool
all_positive [] = true
all_positive (q ∷ qs) = ltb 0 q && all_positive qs

-- `len(set(result)) == len(result)`
unfoldable pub no_duplicates : List ℕ → Bool
unfolding any_of
no_duplicates [] = true
no_duplicates (q ∷ qs) = not (any_of (λ p. p == q) qs) && no_duplicates qs

-- `_sequence_tuple`
unfoldable pub sequence_tuple : List ℕ → Result Error (List ℕ)
unfolding all_positive no_duplicates
sequence_tuple qs = if all_positive qs && no_duplicates qs then ok qs else err value_error

-- `_error_text`
unfoldable pub error_text : Text → Result Error Text
error_text t = if is_empty t then err value_error else ok t
