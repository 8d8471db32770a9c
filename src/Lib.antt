-- ===== src/Lib.antt =====
-- The writer of custom_components/hass_questdb_writer: Home Assistant's state changes go through a
-- durable SQLite queue to QuestDB. This library models the listener that makes events of state
-- changes, the queue, the worker that fills and empties it, the guard on its filesystem, the line
-- protocol, the HTTP transport, and the schema of the table.
--
-- The parts, and the files that model them:
--
--   Spool      custom_components/hass_questdb_writer/spool.py
--     Types         exceptions, rows, tables, limits
--     Errors        classify_storage_error and the handlers of sqlite3.Error
--     Table         the SQL statements, with their constraints and triggers
--     Transaction   _transaction and the argument checks
--     Enqueue       enqueue, enqueue_many
--     Peek          peek_batch, peek_dead_letters, stats
--     Deliver       mark_delivered, record_attempt
--     DeadLetters   move_to_dead_letter, delete_dead_letters
--     Invariant     what holds of the database between calls
--     Open          _initialize_schema, _reconcile_stats
--     Survival      where a queued event is after a failed delivery
--   Event      custom_components/hass_questdb_writer/event.py
--     RoundTrip     payloads read back
--     Rows          rows of valid envelopes
--   Ilp        custom_components/hass_questdb_writer/ilp.py
--     Escapes       the escapes, as one pass, and a reader that undoes them
--     Reader        a reader of rows
--     Written, Pieces, Rows, Encoded   rows as they are written, and read back
--   AttributeFilter   custom_components/hass_questdb_writer/attribute_filter.py
--     Allowed       the attributes that pass
--     Patterns, Forms   what the form's patterns are, and what the form shows of them
--   Runtime    custom_components/hass_questdb_writer/runtime.py
--     Times, Conversion   the envelope of a state, and the attributes the filter lets pass
--     Listener      what _async_state_changed counts and queues
--     Auth          _sync_auth_issue, _request_reauth_once, _monitor_loop
--   Schema     custom_components/hass_questdb_writer/schema.py
--     Owned, Members, Columns, Validation   the tables that pass the validation
--     Manager       ensure, _read_ttl_days, _apply_retention, and what they have done
--   Guard      custom_components/hass_questdb_writer/storage_guard.py
--   Transport  custom_components/hass_questdb_writer/transport.py
--   Worker     custom_components/hass_questdb_writer/worker.py
--     Persist       _check_storage, _reclaim_spool, _persist_held
--     Deliver       _build_batch, _count_dead_letter_move, _deliver_once
--     Lifecycle     start, stop and _run, as interleaved steps
--     Batch         what _build_batch puts into a batch
--     Saving        the turns of _persist_loop
--     Loop          _ensure_schema and the turns of _delivery_loop
--     Accounting, Persisted, Reachable, Delivered   proofs about these
--   Prelude    lists, texts, integers, exceptions as values, UTF-8
--
-- How the parts interact: `state_changed` of the runtime filters a state's attributes, makes an
-- envelope of it and calls `submit` with its spool event; `submit` puts an event in the worker's
-- queue; `drain_ingress` and `persist_held` move it to `enqueue_many` of the spool, unless `check`
-- of the guard or the spool itself refuses, which opens a storage pause; `turn` of the delivery
-- loop calls `ensure` of the schema manager until it returns, and then, when a delivery is due,
-- `deliver_once`; that reads `peek_batch`, hands the encoded rows (`to_ilp` of the restored
-- envelope, through `encode_row`) to the transport and, by its answer, calls `mark_delivered`,
-- `record_attempt` or `move_to_dead_letter`.
--
-- State: the database is a record of its three tables, each the list of its rows in the order of
-- its primary key; the AUTOINCREMENT counters grow without bound. The worker is a record of the
-- fields that its operations change, with the list of held events of its persist loop and the
-- spool it owns. A method is a function from the state to its result and the new state; a `Result`
-- is `ok`, or `err` with the exception. Where the source nests handlers, the code after a call is
-- a function of its own, named after the call (`after_insert`, `after_move`).
--
-- SQLite's own failures: `fault` names the one statement failure of a transaction, if there is
-- one. SQLite rolls such a transaction back, wherever the failure falls, so the database is as it
-- was. The result codes are the documented ones.
--
-- Fuel: the eviction loop of `move_to_dead_letter` gets one round more than there are dead
-- letters. A round evicts one, so the loop ends within it. The reader of rows gets as many rounds
-- as the row has characters, and each round reads at least one. All other loops follow a list or a
-- number.
--
-- Numbers: sequence numbers, sizes and limits are natural numbers, with 0 for the values that
-- `_positive_integer` rejects; nanoseconds are integers, with the 64-bit check of
-- `_sqlite_integer`. A Text is a list of code points, Bytes a list of bytes. The text of an error
-- does not begin with NUL: `_error_text` of the worker replaces NUL, at which SQLite's `length`
-- would stop.
--
-- Arguments that stand for code outside the repository: the answers of the server, of the JSON
-- decoder, of the filesystem, of SQLite's vacuum and of the clock; the float product of the guard;
-- and `describe`, the texts of exceptions; `fnmatchcase`, `json.dumps` and `json.loads`, and Home
-- Assistant's entity filter and `json_dumps`. In the worker `encode` stands for the event codec:
-- the theorems about batches say where it is that of event.py. The answers of the transport are
-- arguments of the schema manager.
--
-- Not modelled: message texts and log lines; Python's checks of argument types, which the types
-- make; the creation of tables and the pragmas at opening, reclaiming and compacting a database;
-- the tasks, events and waits of the worker, the flush at a shutdown, and the backoff's floats,
-- whose delays are arguments; start and stop of the runtime and the checks of its configuration;
-- the constructor of the schema manager; and the glue to Home Assistant (config flow, sensors,
-- diagnostics).
pub mod AttributeFilter
pub mod Event
pub mod Guard
pub mod Ilp
pub mod Prelude
pub mod Runtime
pub mod Schema
pub mod Spool
pub mod Transport
pub mod Worker
