-- ===== src/Worker/Lifecycle/Reached.antt =====
-- What holds of the thread of `WriterService` of custom_components/hass_questdb_writer/worker.py,
-- however its calls and the thread interleave.
use hass_questdb_writer.Prelude.{◌≡◌, refl, ap, ◌⊎◌, inl, inr, Bool, true, false, not, Result}
use hass_questdb_writer.Worker.{WorkerState, running, retry_wait, blocked, stopped, ends}
use hass_questdb_writer.Worker.Accounting.{if_both, if_cases}
use hass_questdb_writer.Worker.Lifecycle.{
  Thread, absent, serving, over, StartError, Service, is_new, is_alive, is_failing, start_thread,
  time_out, request_stop, begin_stop, open_thread, fail_thread, end_thread, show_state, Step,
  starts, times_out, requests_stop, stops, opens, fails_opening, fails_serving, ends_serving,
  ends_failing, shows_running, shows_waiting, shows_blocked, Steps, stays, goes,
}

abbrev pub is_serving : Thread → Bool
is_serving serving = true
is_serving _ = false

abbrev pub is_absent : Thread → Bool
is_absent absent = true
is_absent _ = false

abbrev pub is_stopped : WorkerState → Bool
is_stopped stopped = true
is_stopped _ = false

-- Events are accepted only while the thread is in its loops, and the state is new only before there
-- is a thread.
pub record IsSound (s : Service) : Type 0 where
  pub accepts : (s.accepting ≡ false) ⊎ (s.thread ≡ serving)
  pub unused : (is_new s.state ≡ false) ⊎ (s.thread ≡ absent)

-- Before the thread is made nothing is accepted.
new_rejects : (s : Service) → IsSound s → is_new s.state ≡ true → s.accepting ≡ false
new_rejects s h e = elim h.accepts [
  | inl a ↦ a
  | inr t ↦ elim h.unused [ inl u ↦ absurd (cc (e, u)) | inr u ↦ absurd (cc (t, u)) ]
]

start_thread-IsSound : (s : Service) → IsSound s → IsSound (start_thread s).1
unfolding start_thread
start_thread-IsSound s h =
    if_cases (λ (p : Result StartError (Unit {0}) × Service). IsSound p.1) (is_new s.state) _ _
      (λ e. record { accepts = inl (new_rejects s h e); unused = inl refl }) (λ _. h)

begin_stop-IsSound : (s : Service) → IsSound s → IsSound (begin_stop s).1
unfolding begin_stop
begin_stop-IsSound s h =
    if_both (λ (p : Bool × Service). IsSound p.1) (is_new s.state) _ _
      (record { accepts = inl refl; unused = inl refl })
      (if_both (λ (p : Bool × Service). IsSound p.1) (not (is_alive s.thread)) _ _
        (record { accepts = inl refl; unused = h.unused })
        (record { accepts = inl refl; unused = inl refl }))

open_thread-IsSound : (s : Service) → IsSound (open_thread s)
unfolding open_thread
open_thread-IsSound s =
    if_both IsSound s.stop_requested _ _ (record { accepts = inr refl; unused = inl refl })
      (record { accepts = inr refl; unused = inl refl })

-- A thread that was made is not absent, so the state is not new.
made : (s : Service) → IsSound s → is_absent s.thread ≡ false → is_new s.state ≡ false
made s h t = elim h.unused [ inl u ↦ u | inr u ↦ absurd (cc (t, ap is_absent u)) ]

end_thread-IsSound :
    (b : Bool) (s : Service) → IsSound s → is_absent s.thread ≡ false → IsSound (end_thread b s)
unfolding end_thread
end_thread-IsSound b s h t =
    if_both IsSound (is_failing s.thread) _ _
      (record { accepts = inl refl; unused = inl (made s h t) })
      (record {
        accepts = inl refl;
        unused = inl (if_both (λ x. is_new x ≡ false) b _ _ refl refl);
      })

show_state-IsSound :
    (state : WorkerState) (s : Service)
    → is_new state ≡ false
    → IsSound s
    → IsSound (show_state state s)
unfolding show_state
show_state-IsSound state s e h =
    if_both IsSound (ends s.state) _ _ h (record { accepts = h.accepts; unused = inl e })

Step-IsSound : {s s' : Service} → Step s s' → IsSound s → IsSound s'
unfolding time_out request_stop fail_thread
Step-IsSound (starts s) h = start_thread-IsSound s h
Step-IsSound (times_out s) h = record { accepts = inl refl; unused = h.unused }
Step-IsSound (requests_stop s) h = record { accepts = h.accepts; unused = h.unused }
Step-IsSound (stops s) h = begin_stop-IsSound s h
Step-IsSound (opens s t) h = open_thread-IsSound s
Step-IsSound (fails_opening s t) h = record { accepts = inl refl; unused = inl refl }
Step-IsSound (fails_serving s t) h = record { accepts = inl refl; unused = inl refl }
Step-IsSound (ends_serving s b t) h = end_thread-IsSound b s h (ap is_absent t)
Step-IsSound (ends_failing s b t) h = end_thread-IsSound b s h (ap is_absent t)
Step-IsSound (shows_running s t) h = show_state-IsSound running s refl h
Step-IsSound (shows_waiting s t) h = show_state-IsSound retry_wait s refl h
Step-IsSound (shows_blocked s t) h = show_state-IsSound blocked s refl h

-- However the calls of `start` and `stop` and the thread interleave, events are accepted only while
-- the thread is in its loops, and the state is new only before there is a thread.
pub Steps-IsSound : {s s' : Service} → Steps s s' → IsSound s → IsSound s'
Steps-IsSound (stays s) h = h
Steps-IsSound (goes st rest) h = Steps-IsSound rest (Step-IsSound st h)

abbrev pub IsOver : Service → Type 0
IsOver s = (s.accepting ≡ false) × (s.thread ≡ over)

Step-IsOver : {s s' : Service} → Step s s' → IsSound s → IsOver s → IsOver s'
unfolding time_out request_stop start_thread begin_stop show_state
Step-IsOver (starts s) h (a, o) =
    if_cases (λ (p : Result StartError (Unit {0}) × Service). IsOver p.1) (is_new s.state) _ _
      (λ e. absurd (cc (e, made s h (ap is_absent o)))) (λ _. (a, o))
Step-IsOver (times_out s) h (a, o) = (refl, o)
Step-IsOver (requests_stop s) h (a, o) = (a, o)
Step-IsOver (stops s) h (a, o) =
    if_both (λ (p : Bool × Service). IsOver p.1) (is_new s.state) _ _ (refl, o)
      (if_both (λ (p : Bool × Service). IsOver p.1) (not (is_alive s.thread)) _ _ (refl, o)
        (refl, o))
Step-IsOver (opens s t) h (a, o) = absurd (cc (t, o))
Step-IsOver (fails_opening s t) h (a, o) = absurd (cc (t, o))
Step-IsOver (fails_serving s t) h (a, o) = absurd (cc (t, o))
Step-IsOver (ends_serving s b t) h (a, o) = absurd (cc (t, o))
Step-IsOver (ends_failing s b t) h (a, o) = absurd (cc (t, o))
Step-IsOver (shows_running s t) h (a, o) = absurd (cc (t, o))
Step-IsOver (shows_waiting s t) h (a, o) = absurd (cc (t, o))
Step-IsOver (shows_blocked s t) h (a, o) = absurd (cc (t, o))

-- Once the thread of a sound service is over, no call starts one again and no event is accepted.
pub Steps-IsOver : {s s' : Service} → Steps s s' → IsSound s → IsOver s → IsOver s'
Steps-IsOver (stays s) h o = o
Steps-IsOver (goes st rest) h o = Steps-IsOver rest (Step-IsSound st h) (Step-IsOver st h o)
