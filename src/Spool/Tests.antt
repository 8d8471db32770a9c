-- ===== src/Spool/Tests.antt =====
-- Runs of the spool at small inputs.
use mathlib.Core.List.{Nodup-nil}
use hass_questdb_writer.Prelude.{
  Member, inl, true, false, none, some, [], ◌∷◌, ◌≡◌, ◌⊎◌, if◌then◌else◌, refl, arith, pos, ok, err,
  text_eq,
}
use hass_questdb_writer.Spool.Types.{
  Error, NewEvent, Row, Stats, Db, Limits, Spool, Error, spool_state, spool_full,
}
use hass_questdb_writer.Spool.Enqueue.{
  enqueue_many, enqueue_body, insert_within, insert_all, new_events, distinct, added_bytes,
}
use hass_questdb_writer.Spool.DeadLetters.{
  move_to_dead_letter, move_body, move_all, move_one, make_room, select_rows,
}
use hass_questdb_writer.Spool.Deliver.{mark_delivered, delete_all}
use hass_questdb_writer.Spool.Table.{
  insert_pending, delete_pending, stats_row, remove_by, insert_dead_letter, evict_oldest,
}
use hass_questdb_writer.Spool.Table.{new_row}
use hass_questdb_writer.Spool.Transaction.{
  in_sqlite_range, sequence_tuple, all_positive, no_duplicates,
}
use hass_questdb_writer.Spool.Types.{dead_letter_full}
use hass_questdb_writer.Spool.Deliver.{record_attempt}
use hass_questdb_writer.Spool.Enqueue.Outcome.{has_room}
use hass_questdb_writer.Spool.Enqueue.Inserts.{all_inserted}
use hass_questdb_writer.Spool.Enqueue.Guarantees.{
  InsertedWhole, enqueue_many_lem, enqueue_many-room, enqueue_many_again, enqueue_many-IsConsistent,
}
use hass_questdb_writer.Spool.Deliver.Marks.{
  all_present, without, mark_delivered_lem, mark_delivered-IsConsistent,
}
use hass_questdb_writer.Spool.Deliver.Attempts.{
  attempted_on, record_attempt_lem, record_attempt-IsConsistent,
}
use hass_questdb_writer.Spool.DeadLetters.Room.{fits, FewestEvicted, make_room_lem}
use hass_questdb_writer.Spool.DeadLetters.Guarantees.{
  MovedAll, MovedNone, move_to_dead_letter_lem, move_to_dead_letter-never_full,
  move_to_dead_letter-IsConsistent,
}
use hass_questdb_writer.Spool.Types.{unsupported_version}
use hass_questdb_writer.Spool.Open.{initialize_schema}
use hass_questdb_writer.Spool.Open.Restores.{IsOpened, IsKnown, IsShared, initialize_schema_lem}
use hass_questdb_writer.Spool.Peek.{peek_batch, query, take_batch}
use hass_questdb_writer.Spool.Errors.{wrapped}
use hass_questdb_writer.Spool.Peek.Batch.{PeekedLongest, FirstTooLarge, peek_batch_lem}
use hass_questdb_writer.Spool.Invariant.{IsConsistent, IsWithin, payload_bytes, dead_payload_bytes}

unfoldable pub program : Unit {0}
unfolding text_eq enqueue_many enqueue_body insert_within insert_all new_events distinct added_bytes
    insert_pending stats_row move_to_dead_letter move_body move_all move_one make_room select_rows
    mark_delivered delete_all delete_pending remove_by insert_dead_letter evict_oldest all_present
    in_sqlite_range sequence_tuple all_positive no_duplicates payload_bytes dead_payload_bytes
    peek_batch query take_batch wrapped
program = tt

abbrev pub no_stats : Stats
no_stats = record {
  pending_rows = 0;
  pending_bytes = 0;
  dead_letter_rows = 0;
  dead_letter_bytes = 0;
}

abbrev pub empty_db : Db
empty_db = record {
  pending = [];
  last_sequence = 0;
  dead_letter = [];
  last_dead_letter_id = 0;
  stats = some no_stats;
  user_version = 1;
}

abbrev pub empty_spool : Spool
empty_spool = record { is_open = true; auto_vacuum = 2; db = empty_db }

abbrev pub small : Limits
small = record {
  max_pending_rows = 2;
  max_pending_bytes = 10;
  max_event_bytes = 4;
  max_dead_letter_rows = 1;
  max_dead_letter_bytes = 8;
}

abbrev pub event_a : NewEvent
event_a = record { event_id = 97 ∷ []; payload = 1 ∷ 2 ∷ []; created_ns = pos 5 }

abbrev pub event_b : NewEvent
event_b = record { event_id = 98 ∷ []; payload = 3 ∷ []; created_ns = pos 6 }

abbrev pub two : Spool
two = (enqueue_many small none (event_a ∷ event_b ∷ event_a ∷ []) empty_spool).1

enqueue_two : (enqueue_many small none (event_a ∷ event_b ∷ event_a ∷ []) empty_spool).0 ≡ ok 2
unfolding program
enqueue_two = refl

enqueue_again : enqueue_many small none (event_a ∷ []) two ≡ (ok 0, two)
unfolding program
enqueue_again = refl

moved : (move_to_dead_letter small none (1 ∷ 2 ∷ []) (120 ∷ []) (pos 9) true two).0 ≡ ok (2, 1)
unfolding program
moved = refl

delivered : (mark_delivered none (1 ∷ 3 ∷ []) two).0 ≡ err spool_state
unfolding program
delivered = refl

pub empty-IsConsistent : IsConsistent empty_db
unfolding payload_bytes dead_payload_bytes
empty-IsConsistent = record {
  counted = refl;
  ids = Nodup-nil;
  sequences = Nodup-nil;
  ordered = omega arith;
  issued = tt;
  checked = tt;
}

pub empty-IsWithin : IsWithin small empty_db
unfolding payload_bytes dead_payload_bytes
empty-IsWithin = record {
  rows = omega arith;
  bytes = omega arith;
  dead_rows = omega arith;
  dead_bytes = omega arith;
  payloads = tt;
}

pub two-IsConsistent : IsConsistent two.db
two-IsConsistent =
    (enqueue_many-IsConsistent small none (event_a ∷ event_b ∷ event_a ∷ []) empty_spool
      empty-IsConsistent empty-IsWithin).0

pub two-IsWithin : IsWithin small two.db
two-IsWithin =
    (enqueue_many-IsConsistent small none (event_a ∷ event_b ∷ event_a ∷ []) empty_spool
      empty-IsConsistent empty-IsWithin).1

enqueue_many_lem_example :
    InsertedWhole small none (event_a ∷ event_b ∷ event_a ∷ []) empty_spool
    ⊎ ((x : Error) × (enqueue_many small none (event_a ∷ event_b ∷ event_a ∷ []) empty_spool
          ≡ (err x, empty_spool)))
enqueue_many_lem_example =
    enqueue_many_lem small none (event_a ∷ event_b ∷ event_a ∷ []) empty_spool empty-IsConsistent

enqueue_many-room_example : enqueue_many small none (event_a ∷ event_b ∷ []) empty_spool ≡ (
    if has_room small empty_db (event_a ∷ event_b ∷ [])
    then (ok 2, record empty_spool { db = all_inserted (event_a ∷ event_b ∷ []) empty_db })
    else (err spool_full, empty_spool))
unfolding program
enqueue_many-room_example =
    enqueue_many-room small (event_a ∷ event_b ∷ []) (event_a ∷ event_b ∷ [])
      (event_a ∷ event_b ∷ []) empty_spool empty-IsConsistent refl refl refl refl refl

enqueue_many_again_example :
    enqueue_many small none (event_a ∷ event_b ∷ event_a ∷ []) two ≡ (ok 0, two)
unfolding program
enqueue_many_again_example =
    enqueue_many_again small none (event_a ∷ event_b ∷ event_a ∷ []) empty_spool 2 two
      empty-IsConsistent empty-IsWithin refl refl

enqueue_many-IsConsistent_example :
    IsConsistent (enqueue_many small none (event_a ∷ []) two).1.db
    × IsWithin small (enqueue_many small none (event_a ∷ []) two).1.db
enqueue_many-IsConsistent_example =
    enqueue_many-IsConsistent small none (event_a ∷ []) two two-IsConsistent two-IsWithin

mark_delivered_lem_example : mark_delivered none (2 ∷ 1 ∷ []) two ≡ (
    if all_present (2 ∷ 1 ∷ []) two.db.pending
    then (ok 2, record two { db = without (2 ∷ 1 ∷ []) two.db })
    else (err spool_state, two))
unfolding program
mark_delivered_lem_example = mark_delivered_lem (2 ∷ 1 ∷ []) two two-IsConsistent refl refl

mark_delivered-IsConsistent_example :
    IsConsistent (mark_delivered none (1 ∷ []) two).1.db
    × IsWithin small (mark_delivered none (1 ∷ []) two).1.db
mark_delivered-IsConsistent_example =
    mark_delivered-IsConsistent small none (1 ∷ []) two two-IsConsistent two-IsWithin

record_attempt_lem_example : record_attempt none (2 ∷ []) (120 ∷ []) true two ≡ (
    if all_present (2 ∷ []) two.db.pending
    then (ok 1, record two { db = attempted_on (120 ∷ []) true (2 ∷ []) two.db })
    else (err spool_state, two))
unfolding program
record_attempt_lem_example =
    record_attempt_lem (120 ∷ []) true (2 ∷ []) two two-IsConsistent refl refl refl

record_attempt-IsConsistent_example :
    IsConsistent (record_attempt none (1 ∷ []) (120 ∷ []) true two).1.db
    × IsWithin small (record_attempt none (1 ∷ []) (120 ∷ []) true two).1.db
record_attempt-IsConsistent_example =
    record_attempt-IsConsistent (120 ∷ []) true small none (1 ∷ []) two two-IsConsistent
      two-IsWithin

move_to_dead_letter_lem_example :
    MovedAll small (pos 9) (120 ∷ []) true (1 ∷ 2 ∷ []) two
    ⊎ MovedNone small (pos 9) (120 ∷ []) true (1 ∷ 2 ∷ []) two
unfolding program
move_to_dead_letter_lem_example =
    move_to_dead_letter_lem small (pos 9) (120 ∷ []) true (1 ∷ 2 ∷ []) two two-IsConsistent refl
      refl refl refl refl

move_to_dead_letter-never_full_example : MovedAll small (pos 9) (120 ∷ []) true (1 ∷ 2 ∷ []) two
unfolding program
move_to_dead_letter-never_full_example =
    move_to_dead_letter-never_full small (1 ∷ 2 ∷ []) (120 ∷ []) (pos 9) true two
      (omega arith, omega arith) two-IsConsistent two-IsWithin refl refl refl refl refl refl

move_to_dead_letter-IsConsistent_example :
    IsConsistent (move_to_dead_letter small none (1 ∷ []) (120 ∷ []) (pos 9) true two).1.db
    × IsWithin small (move_to_dead_letter small none (1 ∷ []) (120 ∷ []) (pos 9) true two).1.db
move_to_dead_letter-IsConsistent_example =
    move_to_dead_letter-IsConsistent small none (1 ∷ []) (120 ∷ []) (pos 9) true two
      two-IsConsistent two-IsWithin

peek_batch_lem_example : PeekedLongest 5 2 two ⊎ FirstTooLarge 5 2 two
unfolding program
peek_batch_lem_example = peek_batch_lem 5 2 two refl (omega arith) (omega arith)

abbrev row_a : Row
row_a = new_row event_a 1

make_room_lem_example :
    FewestEvicted 1 small row_a
      (record { current_rows = 0; current_bytes = 0; moved = 0; evicted = 0 })
      empty_db
    ⊎ ((d' : Db) × (make_room 1 small row_a
            (record { current_rows = 0; current_bytes = 0; moved = 0; evicted = 0 })
            empty_db
          ≡ (err dead_letter_full, d'))
        × (fits small 2 [] ≡ false))
unfolding program
make_room_lem_example =
    make_room_lem 1 small row_a
      (record { current_rows = 0; current_bytes = 0; moved = 0; evicted = 0 }) empty_db
      (omega arith) empty-IsConsistent (record { rows = refl; bytes = refl })

pub two-Member : Member (new_row event_a 1) two.db.pending
unfolding program
two-Member = inl refl

-- A file that lost its counters.
abbrev uncounted : Spool
uncounted = record empty_spool { db = record empty_db { stats = none; user_version = 0 } }

-- A file of a later version is left alone.
abbrev later : Spool
later = record empty_spool { db = record empty_db { user_version = 2 } }

rejects_later : initialize_schema none later ≡ (err unsupported_version, later)
unfolding initialize_schema
rejects_later = refl

initialize_schema_lem_example :
    (¬ IsKnown uncounted.db.user_version)
      × (initialize_schema none uncounted ≡ (err unsupported_version, uncounted))
    ⊎ IsKnown uncounted.db.user_version
      × IsShared uncounted.db
      × (initialize_schema none uncounted ≡ (err spool_state, uncounted))
    ⊎ IsKnown uncounted.db.user_version
      × (¬ IsShared uncounted.db)
      × ((s' : Spool) × (initialize_schema none uncounted ≡ (ok tt, s')) × IsOpened uncounted s')
initialize_schema_lem_example = initialize_schema_lem uncounted refl (record {
  ids = Nodup-nil;
  dead_ids = Nodup-nil;
  sequences = Nodup-nil;
  dead_sequences = Nodup-nil;
  ordered = omega arith;
  issued = tt;
  checked = tt;
})
