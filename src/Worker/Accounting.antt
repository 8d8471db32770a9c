-- ===== src/Worker/Accounting.antt =====
-- The counters of the worker: accepted events and storage pauses.
use mathlib.Core.List.{append_assoc}
use hass_questdb_writer.Prelude.{
  ℕ, zero, suc, ◌+◌, ◌-◌, ◌≤◌, ◌≡◌, refl, ◌∙◌, inl, inr, Bool, true, false, not, ◌&&◌, Option, none,
  some, List, [], ◌∷◌, ◌++◌, length, length-append, arith, Bool-cases, if◌then◌else◌, Text, ltb,
  ◌==◌,
}
use hass_questdb_writer.Spool.Types.{NewEvent}
use hass_questdb_writer.Guard.{StorageStatus, is_blocked}
use hass_questdb_writer.Worker.{
  Worker, Cause, Reason, Settings, WorkerState, running, blocked, end_pause, count_block,
  set_delivery_state, block_on_storage, resume_after_storage_block, submit, drain, drain_ingress,
}
use hass_questdb_writer.Worker.Persist.{
  Surroundings, SpoolReclaim, is_too_soon, after_reclaim, reclaim_spool, check_space, measured,
}

-- How many storage pauses are open: at most one.
abbrev pub open_pauses : Option Reason → ℕ
open_pauses none = 0
open_pauses (some _) = 1

-- Every accepted event is in the queue, held, or persisted; the queue never exceeds its capacity;
-- and every storage pause that was counted has ended, but for the open one.
pub record IsAccounted (settings : Settings) (w : Worker) : Type 0 where
  pub accepted : w.submitted_events ≡ length w.ingress + length w.held + w.persisted_events
  pub queue : length w.ingress ≤ w.ingress_high_watermark
  pub capacity : w.ingress_high_watermark ≤ settings.ingress_queue_capacity
  pub held : w.held_unpersisted ≡ length w.held
  pub pauses : w.storage_blocks ≡ w.storage_recoveries + open_pauses w.storage_episode
  pub attempts : w.storage_blocks ≤ w.storage_block_attempts

pub submit-IsAccounted :
    (settings : Settings) (describe : Cause → Text) (event : NewEvent) (w : Worker)
    → IsAccounted settings w
    → IsAccounted settings (submit settings describe event w).1
unfolding submit
submit-IsAccounted settings describe event w a =
    elim (Bool-cases (ltb settings.max_serialized_event_bytes (length event.payload))) [
      | inl large ↦ simp large (record {
        accepted = a.accepted;
        queue = a.queue;
        capacity = a.capacity;
        held = a.held;
        pauses = a.pauses;
        attempts = a.attempts;
      })
      | inr small ↦ elim (Bool-cases w.accepting) [
        | inr closed ↦ simp (small, closed) a
        | inl accepting ↦
            elim (Bool-cases (ltb (length w.ingress) settings.ingress_queue_capacity)) [
              | inr full ↦
                  simp (small, accepting, full)
                    (record {
                      accepted = a.accepted;
                      queue = a.queue;
                      capacity = a.capacity;
                      held = a.held;
                      pauses = a.pauses;
                      attempts = a.attempts;
                    })
              | inl room ↦
                  simp (small, accepting, room)
                    (record {
                      accepted = omega (arith, a.accepted, length-append w.ingress (event ∷ []));
                      queue = ground (arith, a.queue, length-append w.ingress (event ∷ []));
                      capacity = ground (arith, a.capacity, room);
                      held = a.held;
                      pauses = a.pauses;
                      attempts = a.attempts;
                    })
            ]
      ]
    ]

drain_lem :
    (room : ℕ) (held queue : List NewEvent)
    → ((drain room held queue).0 ++ (drain room held queue).1 ≡ held ++ queue)
      × (length (drain room held queue).0 + length (drain room held queue).1
          ≡ length held + length queue)
      × (length (drain room held queue).1 ≤ length queue)
unfolding drain
drain_lem zero held queue = (refl, refl, omega arith)
drain_lem (suc room) held [] = (refl, omega arith, omega arith)
drain_lem (suc room) held (e ∷ queue) =
    let (same, count, rest) = drain_lem room (held ++ e ∷ []) queue in
    (
      same ∙ append_assoc held (e ∷ []) queue,
      omega (arith, count, length-append held (e ∷ [])),
      omega (arith, rest),
    )

set_delivery_state-IsAccounted :
    (settings : Settings) (state : WorkerState) (last_error : Option Text) (delay : Option ℕ)
    (reason : Option Reason) (w : Worker)
    → IsAccounted settings w
    → IsAccounted settings (set_delivery_state state last_error delay reason w)
unfolding set_delivery_state
set_delivery_state-IsAccounted settings state last_error delay reason w a = record {
  accepted = a.accepted;
  queue = a.queue;
  capacity = a.capacity;
  held = a.held;
  pauses = a.pauses;
  attempts = a.attempts;
}

end_pause-IsAccounted :
    (settings : Settings) (o : Option Reason) (w : Worker)
    → w.storage_episode ≡ o
    → IsAccounted settings w
    → IsAccounted settings (end_pause o w)
unfolding end_pause
end_pause-IsAccounted settings none w e a = record {
  accepted = a.accepted;
  queue = a.queue;
  capacity = a.capacity;
  held = a.held;
  pauses = a.pauses;
  attempts = a.attempts;
}
end_pause-IsAccounted settings (some old) w e a = record {
  accepted = a.accepted;
  queue = a.queue;
  capacity = a.capacity;
  held = a.held;
  pauses = ground (arith, a.pauses, e);
  attempts = a.attempts;
}

pub if_both :
    {A : Type 0} (P : A → Type 0) (b : Bool) (x y : A) → P x → P y → P (if b then x else y)
if_both P true x y p q = p
if_both P false x y p q = q

pub drain_ingress-IsAccounted :
    (settings : Settings) (w : Worker)
    → IsAccounted settings w
    → IsAccounted settings (drain_ingress settings w)
unfolding drain_ingress
drain_ingress-IsAccounted settings w a =
    let (_, count, rest) =
      drain_lem (settings.persist_batch_rows - length w.held) w.held w.ingress in
    record {
      accepted = omega (arith, a.accepted, count);
      queue = omega (arith, a.queue, rest);
      capacity = a.capacity;
      held = refl;
      pauses = a.pauses;
      attempts = a.attempts;
    }

pub if_cases :
    {A : Type 0} (P : A → Type 0) (b : Bool) (x y : A)
    → (b ≡ true → P x)
    → (b ≡ false → P y)
    → P (if b then x else y)
if_cases P true x y p q = p refl
if_cases P false x y p q = q refl

-- What the steps about the storage leave as it was.
pub record Same (w w' : Worker) : Type 0 where
  pub ingress : w'.ingress ≡ w.ingress
  pub held : w'.held ≡ w.held
  pub spool : w'.spool ≡ w.spool
  pub persisted : w'.persisted_events ≡ w.persisted_events
  pub accounts : (settings : Settings) → IsAccounted settings w → IsAccounted settings w'

Same-refl : (w : Worker) → Same w w
Same-refl w = record {
  ingress = refl;
  held = refl;
  spool = refl;
  persisted = refl;
  accounts = λ settings a. a;
}

looked-Same :
    (w : Worker) (last : Option ℕ) (attempted : Bool) (status : Option StorageStatus)
    → Same w (record w { last_reclaim = last; rewrite_attempted = attempted; disk_status = status })
looked-Same w last attempted status = record {
  ingress = refl;
  held = refl;
  spool = refl;
  persisted = refl;
  accounts = λ settings a. record {
    accepted = a.accepted;
    queue = a.queue;
    capacity = a.capacity;
    held = a.held;
    pauses = a.pauses;
    attempts = a.attempts;
  };
}

after_reclaim-Same :
    (reclaimed compacted : Option SpoolReclaim) (w : Worker) (last : Option ℕ)
    → Same w (after_reclaim reclaimed compacted (record w { last_reclaim = last })).1
unfolding after_reclaim
after_reclaim-Same none compacted w last = looked-Same w last w.rewrite_attempted w.disk_status
after_reclaim-Same (some r) compacted w last =
    let only = looked-Same w last w.rewrite_attempted w.disk_status in
    if_both (λ (p : Bool × Worker). Same w p.1) r.failed _ _ only
      (if_both (λ (p : Bool × Worker). Same w p.1)
        (not (r.auto_vacuum == 2) && not w.rewrite_attempted) _ _
        (looked-Same w last true w.disk_status) only)

reclaim_spool-Same : (env : Surroundings) (w : Worker) → Same w (reclaim_spool env w).1
unfolding reclaim_spool
reclaim_spool-Same env w =
    if_both (λ (p : Bool × Worker). Same w p.1) (is_too_soon env.now w.last_reclaim) _ _
      (Same-refl w) (after_reclaim-Same env.reclaimed env.compacted w (some env.now))

Same-trans : (a b c : Worker) → Same a b → Same b c → Same a c
Same-trans a b c p q = record {
  ingress = q.ingress ∙ p.ingress;
  held = q.held ∙ p.held;
  spool = q.spool ∙ p.spool;
  persisted = q.persisted ∙ p.persisted;
  accounts = λ settings h. q.accounts settings (p.accounts settings h);
}

measured-Same : (status : StorageStatus) (w : Worker) → Same w (measured status w)
measured-Same status w = looked-Same w w.last_reclaim w.rewrite_attempted (some status)

pub check_space-Same : (env : Surroundings) (w : Worker) → Same w (check_space env w).1
unfolding check_space
check_space-Same env w =
    let first = measured-Same env.status w in
    let second = Same-trans _ _ _ first (reclaim_spool-Same env (measured env.status w)) in
    if_both (λ (p : StorageStatus × Worker). Same w p.1) (is_blocked env.status) _ _
      (if_both (λ (p : StorageStatus × Worker). Same w p.1) _ _ _
        (Same-trans _ _ _ second (measured-Same env.status_after _)) second)
      first

count_block-Same :
    (o : Option Reason) (reason : Reason) (w : Worker)
    → w.storage_episode ≡ o
    → Same w (count_block o reason w)
unfolding count_block
count_block-Same none reason w e = record {
  ingress = refl;
  held = refl;
  spool = refl;
  persisted = refl;
  accounts = λ settings a. record {
    accepted = a.accepted;
    queue = a.queue;
    capacity = a.capacity;
    held = a.held;
    pauses = ground (arith, a.pauses, e);
    attempts = omega (arith, a.attempts);
  };
}
count_block-Same (some old) reason w e = record {
  ingress = refl;
  held = refl;
  spool = refl;
  persisted = refl;
  accounts = λ settings a. record {
    accepted = a.accepted;
    queue = a.queue;
    capacity = a.capacity;
    held = a.held;
    pauses = a.pauses;
    attempts = omega (arith, a.attempts);
  };
}

set_delivery_state-Same :
    (state : WorkerState) (last_error : Option Text) (delay : Option ℕ) (reason : Option Reason)
    (w : Worker)
    → Same w (set_delivery_state state last_error delay reason w)
unfolding set_delivery_state
set_delivery_state-Same state last_error delay reason w = record {
  ingress = refl;
  held = refl;
  spool = refl;
  persisted = refl;
  accounts =
      λ settings a. set_delivery_state-IsAccounted settings state last_error delay reason w a;
}

pub block_on_storage-Same :
    (reason : Reason) (error : Text) (w : Worker) → Same w (block_on_storage reason error w)
unfolding block_on_storage
block_on_storage-Same reason error w =
    Same-trans _ _ _ (count_block-Same w.storage_episode reason w refl) (
      set_delivery_state-Same blocked (some error) none (some reason)
        (count_block w.storage_episode reason w))

end_pause-Same : (o : Option Reason) (w : Worker) → w.storage_episode ≡ o → Same w (end_pause o w)
unfolding end_pause
end_pause-Same none w e = record {
  ingress = refl;
  held = refl;
  spool = refl;
  persisted = refl;
  accounts = λ settings a. end_pause-IsAccounted settings none w e a;
}
end_pause-Same (some old) w e = record {
  ingress = refl;
  held = refl;
  spool = refl;
  persisted = refl;
  accounts = λ settings a. end_pause-IsAccounted settings (some old) w e a;
}

pub resume-Same : (w : Worker) → Same w (resume_after_storage_block w)
unfolding resume_after_storage_block
resume-Same w =
    let ended = end_pause-Same w.storage_episode w refl in
    if_both (Same w) _ _ _
      (Same-trans _ _ _ ended (set_delivery_state-Same running none none none _)) ended
