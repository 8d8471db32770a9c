-- ===== src/Worker/Delivered.antt =====
-- `_deliver_once` and the queued events.
use mathlib.Core.Path.{subst}
use hass_questdb_writer.Prelude.{
  none, ap, ◌∙◌, keep, ℕ, ◌≡◌, refl, sym, Bool, true, false, ◌&&◌, Option, some, List, [], ◌∷◌,
  length, ltb, arith, Member, if◌then◌else◌, Text, Bytes, is_empty, Result, ok, err,
}
use hass_questdb_writer.Spool.Types.{spool_state, Error, Row, Db, Limits, Spool}
use hass_questdb_writer.Spool.Deliver.{mark_delivered}
use hass_questdb_writer.Spool.Deliver.Marks.{outside, without, all_present, mark_delivered_lem}
use hass_questdb_writer.Spool.Transaction.{sequence_tuple}
use hass_questdb_writer.Worker.{set_delivery_state, resume_after_storage_block}
use hass_questdb_writer.Worker.Accounting.{resume-Same}
use hass_questdb_writer.Worker.Deliver.{Outcome, success, delivered, count_delivered}
use hass_questdb_writer.Spool.Peek.{peek_batch}
use hass_questdb_writer.Spool.Deliver.{record_attempt}
use hass_questdb_writer.Spool.DeadLetters.{move_to_dead_letter}
use hass_questdb_writer.Spool.Survival.{
  Survives, Survives-refl, record_attempt-Survives, move_to_dead_letter-Survives,
}
use hass_questdb_writer.Spool.Invariant.{IsConsistent}
use hass_questdb_writer.Transport.{TransportError, Kind, authentication, retryable, permanent}
use hass_questdb_writer.Worker.{Worker, Cause, spool_cause, transport_cause, Settings}
use hass_questdb_writer.Worker.Accounting.{if_both, if_cases}
use hass_questdb_writer.Worker.Deliver.{
  BuiltBatch, dead_letter, Raised, Conditions, Collected, built, unencodable, too_large, no_batch,
  collect, is_dead_letter_full, after_move, bury, after_call, after_collect, after_peek,
  build_batch, rejected_as, after_answer, after_build, deliver_once, retry_wait_on, split_on,
  stop_on_full, is_bad_request, max_sqlite_batch_bytes,
}

-- A spool call that keeps a property of the database, with what follows it.
module _ (P : Db → Type 0) where
  -- The database that a call leaves has the property.
  abbrev Leaves : {A : Type 0} → Result Raised A × Worker → Type 0
  Leaves p = P p.1.spool.db

  after_call-Leaves :
      {A B : Type 0} (next : Worker → Result Raised B × Worker) (w : Worker)
      (res : Result Error A × Spool)
      → ((w' : Worker) → P w'.spool.db → Leaves (next w'))
      → P res.1.db
      → Leaves (after_call next w res)
  unfolding after_call
  after_call-Leaves next w (err x, s) f h = h
  after_call-Leaves next w (ok a, s) f h = f (record w { spool = s }) h

  after_move-Leaves :
      {A : Type 0} (error : Text) (done : A) (full : Worker → Result Raised A × Worker) (w : Worker)
      (res : Result Error (ℕ × ℕ) × Spool)
      → ((w' : Worker) → P w'.spool.db → Leaves (full w'))
      → P res.1.db
      → Leaves (after_move error done full w res)
  unfolding after_move
  after_move-Leaves error done full w (ok counts, s) f h = h
  after_move-Leaves error done full w (err x, s) f h =
      if_both Leaves (is_dead_letter_full x) _ _ (f (record w { spool = s }) h) h

  -- After a batch that could not be encoded nothing is sent.
  after_build-unsent :
      (limits : Limits) (describe : Cause → Text) (c : Conditions) (error : Text)
      (full : Worker → Result Raised (Option BuiltBatch) × Worker) (w : Worker)
      (res : Result Error (ℕ × ℕ) × Spool)
      → ((w' : Worker) → P w'.spool.db → Leaves (after_build limits describe c (full w')))
      → P res.1.db
      → Leaves (after_build limits describe c (after_move error (some no_batch) full w res))
  unfolding after_move after_build
  after_build-unsent limits describe c error full w (ok counts, s) f h = h
  after_build-unsent limits describe c error full w (err x, s) f h =
      if_both (λ p. Leaves (after_build limits describe c p)) (is_dead_letter_full x) _ _
        (f (record w { spool = s }) h) h

module _ (limits : Limits) (describe : Cause → Text) (c : Conditions) (r : Row) (w : Worker)
    (sound : IsConsistent w.spool.db) (queued : Member r w.spool.db.pending) where
  abbrev Kept : {A : Type 0} → Result Raised A × Worker → Type 0
  Kept p = Survives r p.1.spool.db

  abbrev attempt : BuiltBatch → TransportError → Result Error ℕ × Spool
  attempt b e =
      record_attempt c.write_fault b.sequences (describe (transport_cause e)) e.delivery_uncertain
        w.spool

  retried :
      (b : BuiltBatch) (e : TransportError)
      → Survives r
          (record_attempt c.write_fault b.sequences
            (describe (transport_cause e))
            e.delivery_uncertain
            w.spool).1.db
  retried b e =
      record_attempt-Survives c.write_fault b.sequences (describe (transport_cause e))
        e.delivery_uncertain r w.spool sound queued

  buried :
      (qs : List ℕ) (error : Text) (uncertain : Bool)
      → is_empty qs ≡ false
      → ltb 1 (length qs) ≡ false
      → Survives r
          (move_to_dead_letter limits c.write_fault qs error c.now_ns uncertain w.spool).1.db
  buried [] error uncertain more one = absurd (cc more)
  buried (q ∷ []) error uncertain more one =
      move_to_dead_letter-Survives c.now_ns error uncertain limits c.write_fault q r w.spool sound
        queued
  buried (q ∷ p ∷ qs) error uncertain more one = absurd (ground (arith, one))

  rejected_as-Kept :
      (kind : Kind) (b : BuiltBatch) (e : TransportError)
      → is_empty b.sequences ≡ false
      → Kept (rejected_as kind limits describe c b e w)
  unfolding rejected_as retry_wait_on split_on bury
  rejected_as-Kept authentication b e more = Survives-refl r w.spool.db queued
  rejected_as-Kept retryable b e more =
      after_call-Leaves (Survives r) (retry_wait_on c.delay (describe (transport_cause e))) w
        (attempt b e) (λ w' h. h) (retried b e)
  rejected_as-Kept permanent b e more =
      if_cases Kept (is_bad_request e.status_code && ltb 1 (length b.sequences)) _ _
        (λ several.
          after_call-Leaves (Survives r) (split_on (describe (transport_cause e))) w (attempt b e)
            (λ w' h. h) (retried b e))
        (λ not_several.
          if_cases Kept (is_bad_request e.status_code) _ _
            (λ bad.
              after_move-Leaves (Survives r) (describe (transport_cause e)) dead_letter
                (retry_wait_on c.delay (describe (spool_cause Error.dead_letter_full))) w
                (move_to_dead_letter limits c.write_fault b.sequences (describe (transport_cause e))
                  c.now_ns e.delivery_uncertain w.spool)
                (λ w' h. h)
                (buried b.sequences (describe (transport_cause e)) e.delivery_uncertain more
                  (ground (arith, bad, not_several))))
            (λ other. Survives-refl r w.spool.db queued))

  after_collect-Kept :
      (e : TransportError) (found : Collected)
      → c.answer ≡ err e
      → Kept (after_build limits describe c (after_collect limits describe c found w))
  unfolding after_collect bury after_build after_answer retry_wait_on stop_on_full
  after_collect-Kept e (built b) a =
      if_cases Kept (is_empty b.sequences) _ _ (λ none_. Survives-refl r w.spool.db queued)
        (λ more.
          subst (λ x. Kept (after_answer limits describe c b x w)) (sym a)
            (rejected_as-Kept e.kind b e more))
  after_collect-Kept e too_large a = Survives-refl r w.spool.db queued
  after_collect-Kept e (unencodable z error) a =
      after_build-unsent (Survives r) limits describe c error (stop_on_full describe) w
        (move_to_dead_letter limits c.write_fault (z.sequence ∷ []) error c.now_ns false w.spool)
        (λ w' h. h) (buried (z.sequence ∷ []) error false refl refl)

  after_peek-Kept :
      (settings : Settings) (encode : Bytes → Result Text Bytes) (e : TransportError)
      (res : Result Error (List Row))
      → c.answer ≡ err e
      → Kept (after_build limits describe c (after_peek settings limits describe encode c res w))
  unfolding after_peek after_build retry_wait_on
  after_peek-Kept settings encode e (err x) a = Survives-refl r w.spool.db queued
  after_peek-Kept settings encode e (ok records) a =
      if_both (λ p. Kept (after_build limits describe c p)) (is_empty records) _ _
        (Survives-refl r w.spool.db queued)
        (after_collect-Kept e (collect settings.delivery_batch_bytes encode true 0 records) a)

-- Whatever fails, a delivery that the transport does not confirm keeps every queued event in the
-- spool, in the queue or in the dead letters, with its ID and its payload.
pub deliver_once-Survives :
    (settings : Settings) (limits : Limits) (describe : Cause → Text)
    (encode : Bytes → Result Text Bytes) (c : Conditions) (isolate_next : Bool) (w : Worker)
    (e : TransportError) (r : Row)
    → IsConsistent w.spool.db
    → c.answer ≡ err e
    → Member r w.spool.db.pending
    → Survives r (deliver_once settings limits describe encode c isolate_next w).1.spool.db
unfolding deliver_once build_batch
deliver_once-Survives settings limits describe encode c isolate_next w e r sound a queued =
    after_peek-Kept limits describe c r w sound queued settings encode e
      (peek_batch c.peek_fault (if isolate_next then 1 else settings.delivery_batch_rows)
        max_sqlite_batch_bytes w.spool)
      a

-- A batch that the transport confirms leaves the queue, and its rows are counted.
pub record Delivers (b : BuiltBatch) (w : Worker) (p : Result Raised Outcome × Worker)
    : Type 0 where
  pub outcome : p.0 ≡ ok success
  pub pending : p.1.spool.db.pending ≡ keep (outside b.sequences) w.spool.db.pending
  pub dead_letter_rows : p.1.spool.db.dead_letter ≡ w.spool.db.dead_letter
  pub state_error : p.1.last_error ≡ none

count_delivered-Delivers :
    (c : Conditions) (b : BuiltBatch) (w w1 : Worker)
    → w1.spool ≡ record w.spool { db = without b.sequences w.spool.db }
    → Delivers b w (count_delivered c b w1)
unfolding count_delivered set_delivery_state
count_delivered-Delivers c b w w1 e =
    let same : (resume_after_storage_block w1).spool
        ≡ record w.spool { db = without b.sequences w.spool.db } =
      (resume-Same w1).spool ∙ e in
    record {
      outcome = refl;
      pending = ap (λ (s : Spool). s.db.pending) same;
      dead_letter_rows = ap (λ (s : Spool). s.db.dead_letter) same;
      state_error = refl;
    }

-- On a consistent, open spool whose storage works, a batch that `_build_batch` built without a
-- change of the worker, of positive, distinct and pending sequence numbers, that the transport
-- confirms ends in success: exactly its rows leave the queue,
-- the dead letters stay, and no error is shown.
pub deliver_once-Delivers :
    (settings : Settings) (limits : Limits) (describe : Cause → Text)
    (encode : Bytes → Result Text Bytes) (c : Conditions) (isolate_next : Bool) (w : Worker)
    (b : BuiltBatch)
    → IsConsistent w.spool.db
    → w.spool.is_open ≡ true
    → c.write_fault ≡ none
    → c.answer ≡ ok tt
    → build_batch settings limits describe encode c isolate_next w ≡ (ok (some b), w)
    → is_empty b.sequences ≡ false
    → sequence_tuple b.sequences ≡ ok b.sequences
    → all_present b.sequences w.spool.db.pending ≡ true
    → Delivers b w (deliver_once settings limits describe encode c isolate_next w)
unfolding deliver_once after_build after_answer delivered after_call
deliver_once-Delivers settings limits describe encode c isolate_next w b sound open_ works a ready
      more valid here_ =
    let run : mark_delivered none b.sequences w.spool
        ≡ (ok (length b.sequences), record w.spool { db = without b.sequences w.spool.db }) =
      subst
        (λ v. mark_delivered none b.sequences w.spool ≡ (
          if v
          then (ok (length b.sequences), record w.spool { db = without b.sequences w.spool.db })
          else (err spool_state, w.spool)))
        here_ (mark_delivered_lem b.sequences w.spool sound open_ valid) in
    subst (λ p. Delivers b w (after_build limits describe c p)) (sym ready)
      (subst
        (λ v.
          Delivers b w
            (if v then (ok dead_letter, w) else after_answer limits describe c b c.answer w))
        (sym more)
        (subst (λ x. Delivers b w (after_answer limits describe c b x w)) (sym a)
          (subst
            (λ f.
              Delivers b w
                (after_call (count_delivered c b) w (mark_delivered f b.sequences w.spool)))
            (sym works)
            (subst (λ p. Delivers b w (after_call (count_delivered c b) w p)) (sym run)
              (count_delivered-Delivers c b w
                (record w { spool = record w.spool { db = without b.sequences w.spool.db } })
                refl)))))
