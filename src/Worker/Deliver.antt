-- ===== src/Worker/Deliver.antt =====
-- The delivery side of custom_components/hass_questdb_writer/worker.py: `_build_batch`,
-- `_count_dead_letter_move` and `_deliver_once`. `encode` is the event codec with the table name,
-- `EventEnvelope.from_bytes(payload).to_ilp(table)`, with the text of what it raises.
use hass_questdb_writer.Prelude.{
  ℕ, ◌+◌, Bool, true, false, ◌&&◌, Option, none, some, List, [], ◌∷◌, ◌++◌, length, ltb, ◌==◌,
  if◌then◌else◌, ℤ, Text, Bytes, is_empty, Result, ok, err,
}
use hass_questdb_writer.Spool.Types.{SqliteError, Error, Limits, Spool, Row}
use hass_questdb_writer.Spool.Peek.{peek_batch}
use hass_questdb_writer.Spool.Deliver.{mark_delivered, record_attempt}
use hass_questdb_writer.Spool.DeadLetters.{move_to_dead_letter}
use hass_questdb_writer.Transport.{TransportError, Kind, authentication, retryable, permanent}
use hass_questdb_writer.Worker.{
  Worker, running, retry_wait, blocked, Settings, Cause, spool_cause, transport_cause,
  move_failed_cause, block_auth, set_delivery_state, resume_after_storage_block,
}

-- `_BuiltBatch`
pub record BuiltBatch : Type 0 where
  pub payload : Bytes
  pub sequences : List ℕ
  pub uncertain_sequences : List ℕ

-- `_DeliveryOutcome`
pub data Outcome : Type 0 where
  success split dead_letter delivery_blocked : Outcome
  retry : ℕ → Outcome

-- What a call of `_deliver_once` meets: the failing statements of its spool calls, if any, the
-- wall clock, the next delay of the backoff, and the transport's answer to the batch.
pub record Conditions : Type 0 where
  pub peek_fault : Option SqliteError
  pub write_fault : Option SqliteError
  pub now_ns : ℤ
  pub delay : ℕ
  pub answer : Result TransportError (Unit {0})

-- What the loop of `_build_batch` finds.
pub data Collected : Type 0 where
  built : BuiltBatch → Collected
  unencodable : Row → Text → Collected
  too_large : Collected

abbrev pub no_batch : BuiltBatch
no_batch = record { payload = []; sequences = []; uncertain_sequences = [] }

abbrev pub prepend : Row → Bytes → Collected → Collected
prepend r encoded (built b) = built (record {
  payload = encoded ++ b.payload;
  sequences = r.sequence ∷ b.sequences;
  uncertain_sequences =
      if r.delivery_uncertain then r.sequence ∷ b.uncertain_sequences else b.uncertain_sequences;
})
prepend r encoded c = c

-- The loop: `first` holds while the batch is empty, which has `used` bytes.
unfoldable pub collect : ℕ → (Bytes → Result Text Bytes) → Bool → ℕ → List Row → Collected
collect limit encode first used [] = built no_batch
collect limit encode first used (r ∷ rs) = elim (encode r.payload) [
  | err error ↦ if first then unencodable r error else built no_batch
  | ok encoded ↦
      let rest = collect limit encode false (used + length encoded) rs in
      if ltb limit (used + length encoded)
      then (if first then too_large else built no_batch)
      else prepend r encoded rest
]

-- `_count_dead_letter_move`; its log line is not modelled.
unfoldable pub count_dead_letter_move : ℕ × ℕ → Worker → Worker
count_dead_letter_move counts w = record w {
  dead_lettered_events = w.dead_lettered_events + counts.0;
  dead_letter_evicted_events = w.dead_letter_evicted_events + counts.1;
}

-- `exc.status_code == 400`
abbrev pub is_bad_request : Option ℕ → Bool
is_bad_request none = false
is_bad_request (some status) = status == 400

-- What a `_deliver_once` raises: an exception of the spool, or WorkerConfigurationError.
pub data Raised : Type 0 where
  raised : Error → Raised
  configuration_error : Raised

-- `_MAX_SQLITE_BATCH_BYTES`
abbrev pub max_sqlite_batch_bytes : ℕ
max_sqlite_batch_bytes = 9223372036854775807

unfoldable pub retry_wait_on : ℕ → Text → Worker → Result Raised Outcome × Worker
unfolding set_delivery_state
retry_wait_on delay error w = (
  ok (retry delay),
  set_delivery_state retry_wait (some error) (some delay) none
      (record w { retry_attempts = w.retry_attempts + 1 }),
)

-- `except DeadLetterFullError`
abbrev pub is_dead_letter_full : Error → Bool
is_dead_letter_full Error.dead_letter_full = true
is_dead_letter_full _ = false

-- What follows `move_to_dead_letter`: `full` follows DeadLetterFullError.
unfoldable pub after_move :
    {A : Type 0}
    → Text
    → A
    → (Worker → Result Raised A × Worker)
    → Worker
    → Result Error (ℕ × ℕ) × Spool
    → Result Raised A × Worker
unfolding count_dead_letter_move set_delivery_state
after_move error done full w (ok counts, s) = (
  ok done,
  set_delivery_state running (some error) none none
      (count_dead_letter_move counts (record w { spool = s })),
)
after_move error done full w (err x, s) =
    if is_dead_letter_full x
    then full (record w { spool = s })
    else (err (raised x), record w { spool = s })

unfoldable pub bury :
    {A : Type 0}
    → Limits
    → Conditions
    → List ℕ
    → Text
    → Bool
    → A
    → (Worker → Result Raised A × Worker)
    → Worker
    → Result Raised A × Worker
unfolding move_to_dead_letter after_move
bury limits c sequences error delivery_uncertain done full w =
    after_move error done full w
      (move_to_dead_letter limits c.write_fault sequences error c.now_ns delivery_uncertain w.spool)

-- What follows a spool call whose exceptions all leave `_deliver_once`.
unfoldable pub after_call :
    {A B : Type 0}
    → (Worker → Result Raised B × Worker)
    → Worker
    → Result Error A × Spool
    → Result Raised B × Worker
after_call next w (err x, s) = (err (raised x), record w { spool = s })
after_call next w (ok a, s) = next (record w { spool = s })

unfoldable pub stop_on_full : (Cause → Text) → Worker → Result Raised (Option BuiltBatch) × Worker
unfolding set_delivery_state
stop_on_full describe w = (
  ok none,
  set_delivery_state blocked (some (describe (spool_cause Error.dead_letter_full))) none none w,
)

-- What `_build_batch` makes of what its loop finds.
unfoldable pub after_collect :
    Limits
    → (Cause → Text)
    → Conditions
    → Collected
    → Worker
    → Result Raised (Option BuiltBatch) × Worker
unfolding bury stop_on_full
after_collect limits describe c (built b) w = (ok (some b), w)
after_collect limits describe c too_large w = (err configuration_error, w)
after_collect limits describe c (unencodable r error) w =
    bury limits c (r.sequence ∷ []) error false (some no_batch) (stop_on_full describe) w

unfoldable pub after_peek :
    Settings
    → Limits
    → (Cause → Text)
    → (Bytes → Result Text Bytes)
    → Conditions
    → Result Error (List Row)
    → Worker
    → Result Raised (Option BuiltBatch) × Worker
unfolding collect after_collect
after_peek settings limits describe encode c (err x) w = (err (raised x), w)
after_peek settings limits describe encode c (ok records) w =
    if is_empty records
    then (ok none, w)
    else after_collect limits describe c
        (collect settings.delivery_batch_bytes encode true 0 records) w

-- `_build_batch`: `none` where there is nothing to send, or where a move failed.
unfoldable pub build_batch :
    Settings
    → Limits
    → (Cause → Text)
    → (Bytes → Result Text Bytes)
    → Conditions
    → Bool
    → Worker
    → Result Raised (Option BuiltBatch) × Worker
unfolding peek_batch after_peek
build_batch settings limits describe encode c isolate_next w =
    after_peek settings limits describe encode c
      (peek_batch c.peek_fault (if isolate_next then 1 else settings.delivery_batch_rows)
        max_sqlite_batch_bytes w.spool)
      w

-- `self._last_error or "dead-letter move failed"`
abbrev pub last_error_or : Option Text → Text → Text
last_error_or none t = t
last_error_or (some e) t = if is_empty e then t else e

-- After a confirmed batch, when its rows are gone.
unfoldable pub count_delivered : Conditions → BuiltBatch → Worker → Result Raised Outcome × Worker
unfolding resume_after_storage_block set_delivery_state
count_delivered c b w =
    let w' : Worker = resume_after_storage_block w in
    (
      ok success,
      set_delivery_state running none none none (record w' {
        delivered_events = w'.delivered_events + length b.sequences;
        uncertain_delivered_events = w'.uncertain_delivered_events + length b.uncertain_sequences;
        last_success_ns = some c.now_ns;
      }),
    )

unfoldable pub delivered : Conditions → BuiltBatch → Worker → Result Raised Outcome × Worker
unfolding mark_delivered after_call count_delivered
delivered c b w =
    after_call (count_delivered c b) w (mark_delivered c.write_fault b.sequences w.spool)

unfoldable pub split_on : Text → Worker → Result Raised Outcome × Worker
unfolding set_delivery_state
split_on error w = (ok split, set_delivery_state running (some error) none none w)

-- The handlers of the transport's exceptions.
unfoldable pub rejected_as :
    Kind
    → Limits
    → (Cause → Text)
    → Conditions
    → BuiltBatch
    → TransportError
    → Worker
    → Result Raised Outcome × Worker
unfolding set_delivery_state record_attempt retry_wait_on split_on after_call bury
rejected_as authentication limits describe c b e w = (
  ok delivery_blocked,
  set_delivery_state blocked (some (describe (transport_cause e))) none (some block_auth) w,
)
rejected_as retryable limits describe c b e w =
    after_call (retry_wait_on c.delay (describe (transport_cause e))) w (
      record_attempt c.write_fault b.sequences (describe (transport_cause e)) e.delivery_uncertain
        w.spool)
rejected_as permanent limits describe c b e w =
    if is_bad_request e.status_code && ltb 1 (length b.sequences)
    then after_call (split_on (describe (transport_cause e))) w (
        record_attempt c.write_fault b.sequences (describe (transport_cause e)) e.delivery_uncertain
          w.spool)
    else if is_bad_request e.status_code
    then bury limits c b.sequences (describe (transport_cause e)) e.delivery_uncertain dead_letter
        (retry_wait_on c.delay (describe (spool_cause Error.dead_letter_full))) w
    else (
      ok delivery_blocked,
      set_delivery_state blocked (some (describe (transport_cause e))) none none w,
    )

-- What follows the transport's answer.
unfoldable pub after_answer :
    Limits
    → (Cause → Text)
    → Conditions
    → BuiltBatch
    → Result TransportError (Unit {0})
    → Worker
    → Result Raised Outcome × Worker
unfolding delivered rejected_as
after_answer limits describe c b (ok _) w = delivered c b w
after_answer limits describe c b (err e) w = rejected_as e.kind limits describe c b e w

-- What follows `_build_batch`.
unfoldable pub after_build :
    Limits
    → (Cause → Text)
    → Conditions
    → Result Raised (Option BuiltBatch) × Worker
    → Result Raised Outcome × Worker
unfolding retry_wait_on after_answer
after_build limits describe c (err x, w) = (err x, w)
after_build limits describe c (ok none, w) =
    retry_wait_on c.delay (last_error_or w.last_error (describe move_failed_cause)) w
after_build limits describe c (ok (some b), w) =
    if is_empty b.sequences
    then (ok dead_letter, w)
    else after_answer limits describe c b c.answer w

-- `_deliver_once`; the backoff, which answers with `delay`, is not modelled.
unfoldable pub deliver_once :
    Settings
    → Limits
    → (Cause → Text)
    → (Bytes → Result Text Bytes)
    → Conditions
    → Bool
    → Worker
    → Result Raised Outcome × Worker
unfolding build_batch after_build
deliver_once settings limits describe encode c isolate_next w =
    after_build limits describe c (build_batch settings limits describe encode c isolate_next w)
