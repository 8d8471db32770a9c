-- ===== src/Worker/Reachable.antt =====
-- The accounts of the worker along every sequence of its calls.
use hass_questdb_writer.Prelude.{
  ℕ, ◌+◌, refl, inl, inr, Bool, Option, Option-cases, Result-cases, [], length, arith, Text,
  is_empty, Result, ok, err,
}
use hass_questdb_writer.Spool.Types.{Error, NewEvent, Limits, Spool, SqliteError}
use hass_questdb_writer.Spool.Peek.{stats}
use hass_questdb_writer.Spool.Enqueue.{enqueue_many}
use hass_questdb_writer.Guard.{is_blocked}
use hass_questdb_writer.Worker.{
  Worker, Cause, spool_cause, storage_cause, block_disk_space, Settings, submit, drain_ingress,
}
use hass_questdb_writer.Worker.Persist.{
  Surroundings, check_space, persist_reason, persist_failed, persist_done, after_insert,
  persist_write, persist_held,
}
use hass_questdb_writer.Worker.Accounting.{
  IsAccounted, if_both, check_space-Same, block_on_storage-Same, resume-Same, submit-IsAccounted,
  drain_ingress-IsAccounted,
}

module _ (settings : Settings) where
  persist_failed-IsAccounted :
      (describe : Cause → Text) (x : Error) (w : Worker)
      → IsAccounted settings w
      → IsAccounted settings (persist_failed describe x w).1
  unfolding persist_failed
  persist_failed-IsAccounted describe x w a = elim (Option-cases (persist_reason x)) [
    | inl fatal ↦ rw (fatal, persist_failed) a
    | inr (reason, waits) ↦
        rw (waits, persist_failed)
          ((block_on_storage-Same reason (describe (spool_cause x)) w).accounts settings a)
  ]

  persist_done-IsAccounted :
      (fault : Option SqliteError) (w : Worker)
      → IsAccounted settings w
      → IsAccounted settings (persist_done fault w).1
  unfolding persist_done
  persist_done-IsAccounted fault w a =
      let w1 : Worker = record w {
        persisted_events = w.persisted_events + length w.held;
        held = [];
        held_unpersisted = 0;
      } in
      let b : IsAccounted settings w1 = record {
        accepted = omega (arith, a.accepted);
        queue = a.queue;
        capacity = a.capacity;
        held = refl;
        pauses = a.pauses;
        attempts = a.attempts;
      } in
      elim (Result-cases (stats fault w.spool)) [
        | inr (x, e) ↦ rw (e, persist_done) b
        | inl (s, e) ↦
            rw (e, persist_done)
              ((resume-Same (record w1 { spool_stats = s })).accounts settings (record {
                accepted = b.accepted;
                queue = b.queue;
                capacity = b.capacity;
                held = b.held;
                pauses = b.pauses;
                attempts = b.attempts;
              }))
      ]

  after_insert-IsAccounted :
      (describe : Cause → Text) (env : Surroundings) (w : Worker) (p : Result Error ℕ × Spool)
      → IsAccounted settings w
      → IsAccounted settings (after_insert describe env w p).1
  unfolding after_insert
  after_insert-IsAccounted describe env w (err x, s) a =
      persist_failed-IsAccounted describe x (record w { spool = s })
        (record {
          accepted = a.accepted;
          queue = a.queue;
          capacity = a.capacity;
          held = a.held;
          pauses = a.pauses;
          attempts = a.attempts;
        })
  after_insert-IsAccounted describe env w (ok n, s) a =
      persist_done-IsAccounted env.stats_fault (record w { spool = s })
        (record {
          accepted = a.accepted;
          queue = a.queue;
          capacity = a.capacity;
          held = a.held;
          pauses = a.pauses;
          attempts = a.attempts;
        })

  persist_held-IsAccounted :
      (limits : Limits) (describe : Cause → Text) (env : Surroundings) (w : Worker)
      → IsAccounted settings w
      → IsAccounted settings (persist_held limits describe env w).1
  unfolding persist_held persist_write
  persist_held-IsAccounted limits describe env w a =
      let b = (check_space-Same env w).accounts settings a in
      let P : Result Error Bool × Worker → Type 0 = λ p. IsAccounted settings p.1 in
      if_both P (is_empty w.held) _ _ a (
        if_both P (is_blocked (check_space env w).0) _ _
          ((block_on_storage-Same block_disk_space (describe (storage_cause (check_space env w).0))
              (check_space env w).1).accounts
            settings b)
          (after_insert-IsAccounted describe env (check_space env w).1
            (enqueue_many limits env.enqueue_fault (check_space env w).1.held
              (check_space env w).1.spool)
            b))

-- One call of another thread or of the persist loop.
pub data Step (settings : Settings) (limits : Limits) (describe : Cause → Text)
    : Worker → Worker → Type 0 where
  submits :
      (event : NewEvent) (w : Worker)
      → Step settings limits describe w (submit settings describe event w).1
  drains : (w : Worker) → Step settings limits describe w (drain_ingress settings w)
  persists :
      (env : Surroundings) (w : Worker)
      → Step settings limits describe w (persist_held limits describe env w).1

-- Any sequence of calls, in any order.
pub data Steps (settings : Settings) (limits : Limits) (describe : Cause → Text)
    : Worker → Worker → Type 0 where
  stays : (w : Worker) → Steps settings limits describe w w
  goes :
      {a b c : Worker}
      → Step settings limits describe a b
      → Steps settings limits describe b c
      → Steps settings limits describe a c

Step-IsAccounted :
    (settings : Settings) (limits : Limits) (describe : Cause → Text) {w w' : Worker}
    → Step settings limits describe w w'
    → IsAccounted settings w
    → IsAccounted settings w'
Step-IsAccounted settings limits describe (submits event w) a =
    submit-IsAccounted settings describe event w a
Step-IsAccounted settings limits describe (drains w) a = drain_ingress-IsAccounted settings w a
Step-IsAccounted settings limits describe (persists env w) a =
    persist_held-IsAccounted settings limits describe env w a

-- After any sequence of submissions, drains and persist attempts, each in any surroundings, every
-- accepted event is in the queue, held or persisted, the queue is within its capacity, and every
-- counted storage pause has ended but for the open one.
pub Steps-IsAccounted :
    (settings : Settings) (limits : Limits) (describe : Cause → Text) {w w' : Worker}
    → Steps settings limits describe w w'
    → IsAccounted settings w
    → IsAccounted settings w'
Steps-IsAccounted settings limits describe (stays w) a = a
Steps-IsAccounted settings limits describe (goes s t) a =
    Steps-IsAccounted settings limits describe t (Step-IsAccounted settings limits describe s a)
