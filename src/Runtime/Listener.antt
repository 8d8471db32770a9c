-- ===== src/Runtime/Listener.antt =====
-- What `_async_state_changed` of custom_components/hass_questdb_writer/runtime.py counts and queues.
use hass_questdb_writer.Prelude.{
  ℕ, ◌<◌, ◌≤◌, ◌≢◌, Bytes, codes, text_eq_iff, ◌+◌, ◌≡◌, refl, ◌⊎◌, inl, inr, Bool, true, false,
  not, Option, none, some, List, [], ◌∷◌, ◌++◌, length, ltb, Text, text_eq, Result, ok, err, arith,
  Result-cases,
}
use hass_questdb_writer.Spool.Types.{NewEvent}
use hass_questdb_writer.Event.{Envelope, EnvelopeError, post_init, to_bytes, to_spool_event}
use hass_questdb_writer.Runtime.Conversion.{
  IsEnvelopeOf, convert-IsEnvelopeOf, IsEnvelopeOf-convert,
}
use hass_questdb_writer.Worker.{Worker, Settings, Cause, submit}
use hass_questdb_writer.Worker.Accounting.{if_both, if_cases}
use hass_questdb_writer.Runtime.{
  State, Surroundings, Runtime, is_excluded, state_unknown, convert, after_submit,
  after_spool_event, after_convert, seen, count_removed, state_changed,
}

-- The calls that ended in a counted outcome.
abbrev pub outcomes : Runtime → ℕ
outcomes r =
    r.events_accepted + r.events_without_new_state + r.events_skipped_unknown + r.events_excluded
    + r.conversion_errors + r.submission_rejections

abbrev raises : Result EnvelopeError (Unit {0}) → ℕ
raises (ok _) = 0
raises (err _) = 1

-- One more outcome, or a raise.
abbrev Counts : Runtime → Result EnvelopeError (Unit {0}) × Runtime → Type 0
Counts r p =
    (p.1.events_seen ≡ r.events_seen)
    × (outcomes p.1 + raises p.0 ≡ outcomes r + 1)
    × (p.1.events_accepted + r.worker.submitted_events
        ≡ r.events_accepted + p.1.worker.submitted_events)

-- The worker takes no event of this size now.
abbrev pub IsRefused : Settings → ℕ → Worker → Type 0
IsRefused settings size w =
    (settings.max_serialized_event_bytes < size)
    ⊎ (w.accepting ≡ false)
    ⊎ (settings.ingress_queue_capacity ≤ length w.ingress)

-- `submit` counts what it accepts, at the end of its queue.
abbrev Offers : Settings → NewEvent → Worker → Bool × Worker → Type 0
Offers settings event w (true, w') =
    (w'.submitted_events ≡ w.submitted_events + 1)
    × (w'.ingress ≡ w.ingress ++ event ∷ [])
    × (¬ IsRefused settings (length event.payload) w)
Offers settings event w (false, w') =
    (w'.submitted_events ≡ w.submitted_events)
    × (w'.ingress ≡ w.ingress)
    × IsRefused settings (length event.payload) w

submit-Offers :
    (settings : Settings) (describe : Cause → Text) (event : NewEvent) (w : Worker)
    → Offers settings event w (submit settings describe event w)
unfolding submit
submit-Offers settings describe event w =
    if_cases (Offers settings event w)
      (ltb settings.max_serialized_event_bytes (length event.payload)) _ _
      (λ h. (refl, refl, inl (ground (arith, h))))
      (λ h.
        if_cases (Offers settings event w) (not w.accepting) _ _
          (λ k. (refl, refl, inr (inl (ground (arith, k)))))
          (λ k.
            if_cases (Offers settings event w)
              (ltb (length w.ingress) settings.ingress_queue_capacity) _ _
              (λ l. (refl, refl, ground (arith, h, k, l)))
              (λ l. (refl, refl, inr (inr (ground (arith, l)))))))

module _ {V : Type 0} (env : Surroundings V) where
  after_submit-Counts :
      (event : NewEvent) (p : Bool × Worker) (r : Runtime)
      → Offers env.settings event r.worker p
      → Counts r (ok tt, after_submit p r)
  unfolding after_submit
  after_submit-Counts event (true, w) r h = (refl, omega arith, omega (arith, h.0))
  after_submit-Counts event (false, w) r h = (refl, omega arith, omega (arith, h.0))

  after_convert-Counts : (o : Option Envelope) (r : Runtime) → Counts r (after_convert env o r)
  unfolding after_convert after_spool_event
  after_convert-Counts none r = (refl, omega arith, refl)
  after_convert-Counts (some e) r = elim (Result-cases (to_spool_event env.json e)) [
    | inl (event, f) ↦ rw f (
        after_submit-Counts event (submit env.settings env.describe event r.worker) r
          (submit-Offers env.settings env.describe event r.worker))
    | inr (x, f) ↦ rw f (refl, omega arith, refl)
  ]

  state_changed-Counts :
      (s : Option (State V)) (r : Runtime) → Counts (seen r) (state_changed env s r)
  unfolding state_changed count_removed
  state_changed-Counts none r = (refl, omega arith, refl)
  state_changed-Counts (some s) r =
      if_both (Counts (seen r)) (is_excluded env.entity_filter s.entity_id) _ _
        (refl, omega arith, refl)
        (if_both (Counts (seen r)) (text_eq s.state state_unknown) _ _ (refl, omega arith, refl)
          (after_convert-Counts (convert env s) (count_removed env s (seen r))))

-- The calls of the listener one after the other, and how many of them raised.
unfoldable pub run : {V : Type 0} → List (Surroundings V × Option (State V)) → Runtime → ℕ × Runtime
unfolding state_changed
run [] r = (0, r)
run ((env, s) ∷ calls) r =
    let (result, r') = state_changed env s r in
    let (raised, r'') = run calls r' in (raises result + raised, r'')

abbrev IsCounted : ℕ → Runtime → Type 0
IsCounted k r = (r.events_seen ≡ outcomes r + k) × (r.events_accepted ≡ r.worker.submitted_events)

run-IsCounted :
    {V : Type 0} (calls : List (Surroundings V × Option (State V))) (k : ℕ) (r : Runtime)
    → IsCounted k r
    → IsCounted (k + (run calls r).0) (run calls r).1
unfolding run
run-IsCounted [] k r h = (omega (arith, h.0), h.1)
run-IsCounted ((env, s) ∷ calls) k r h =
    let p = state_changed env s r in
    let (a, b, c) = state_changed-Counts env s r in
    let w =
      run-IsCounted calls (k + raises p.0) p.1 (omega (arith, a, b, h.0), omega (arith, c, h.1)) in
    (omega (arith, w.0), w.1)

-- After any sequence of state changes, from a listener whose counters are sound, every event seen
-- has exactly one outcome (accepted, without a new state, unknown, excluded, not converted or
-- rejected) unless the call raised, and the worker counts as submitted what the listener counts as
-- accepted.
pub run_counts :
    {V : Type 0} (calls : List (Surroundings V × Option (State V))) (r : Runtime)
    → r.events_seen ≡ outcomes r
    → r.events_accepted ≡ r.worker.submitted_events
    → ((run calls r).1.events_seen ≡ outcomes (run calls r).1 + (run calls r).0)
      × ((run calls r).1.events_accepted ≡ (run calls r).1.worker.submitted_events)
run_counts calls r h h' =
    let w = run-IsCounted calls 0 r (omega (arith, h), h') in (omega (arith, w.0), w.1)

-- The entity filter stops the entity.
abbrev pub IsExcluded : Option (Text → Bool) → Text → Type 0
IsExcluded none entity_id = ⊥
IsExcluded (some entity_filter) entity_id = entity_filter entity_id ≡ false

-- The valid envelope of the state.
abbrev pub IsConverted : {V : Type 0} → Surroundings V → State V → Envelope → Type 0
IsConverted env s e = IsEnvelopeOf env s e × (post_init env.json e ≡ ok e)

-- Why a state is not queued, with what the call returns or raises.
abbrev pub IsDropped :
    {V : Type 0} → Surroundings V → State V → Runtime → Result EnvelopeError (Unit {0}) → Type 0
IsDropped env s r result =
    (result ≡ ok tt)
      × (IsExcluded env.entity_filter s.entity_id
          ⊎ (s.state ≡ codes "unknown")
          ⊎ (¬ ((e : Envelope) × IsConverted env s e))
          ⊎ ((e : Envelope) × (payload : Bytes) × IsConverted env s e
              × (to_bytes env.json e ≡ ok payload)
              × IsRefused env.settings (length payload) r.worker))
    ⊎ ((e : Envelope) × (x : EnvelopeError) × IsConverted env s e
        × (to_bytes env.json e ≡ err x)
        × (result ≡ err x))

-- The envelope of the state is at the end of the queue, and nothing spoke against it.
abbrev pub IsQueued : {V : Type 0} → Surroundings V → State V → Runtime → Runtime → Type 0
IsQueued env s r r' =
    (¬ IsExcluded env.entity_filter s.entity_id)
    × (s.state ≢ codes "unknown")
    × ((e : Envelope) × (payload : Bytes) × IsConverted env s e
        × (to_bytes env.json e ≡ ok payload)
        × (¬ IsRefused env.settings (length payload) r.worker)
        × (r'.worker.ingress
            ≡ r.worker.ingress
              ++ record { event_id = e.event_id; payload = payload; created_ns = e.ingested_at_ns }
                ∷ []))

-- The same queue, or an accepted event at its end.
abbrev pub Changes :
    {V : Type 0}
    → Surroundings V
    → State V
    → Runtime
    → Result EnvelopeError (Unit {0}) × Runtime
    → Type 0
Changes env s r p =
    (p.1.events_accepted ≡ r.events_accepted)
      × (p.1.worker.ingress ≡ r.worker.ingress)
      × IsDropped env s r p.0
    ⊎ (p.1.events_accepted ≡ r.events_accepted + 1) × (p.0 ≡ ok tt) × IsQueued env s r p.1

module _ {V : Type 0} (env : Surroundings V) (s : State V) where
  abbrev spool_event : Envelope → Bytes → NewEvent
  spool_event e payload = record {
    event_id = e.event_id;
    payload = payload;
    created_ns = e.ingested_at_ns;
  }

  module _ (included : ¬ IsExcluded env.entity_filter s.entity_id)
      (known : s.state ≢ codes "unknown") (r : Runtime) where
    after_submit-Changes :
        (e : Envelope) (payload : Bytes) (p : Bool × Worker)
        → IsConverted env s e
        → to_bytes env.json e ≡ ok payload
        → Offers env.settings (spool_event e payload) r.worker p
        → Changes env s r (ok tt, after_submit p (count_removed env s (seen r)))
    unfolding after_submit count_removed
    after_submit-Changes e payload (true, w) c b (_, i, taken) =
        inr (refl, refl, (included, known, (e, payload, c, b, taken, i)))
    after_submit-Changes e payload (false, w) c b (_, i, refused) =
        inl (refl, i, inl (refl, inr (inr (inr (e, payload, c, b, refused)))))

    after_spool_event-Changes :
        (e : Envelope) (b : Result EnvelopeError Bytes)
        → IsConverted env s e
        → to_bytes env.json e ≡ b
        → Changes env s r (after_convert env (some e) (count_removed env s (seen r)))
    unfolding after_convert after_spool_event to_spool_event count_removed
    after_spool_event-Changes e (ok payload) c b = rw b (
        after_submit-Changes e payload
          (submit env.settings env.describe (spool_event e payload) r.worker) c b
          (submit-Offers env.settings env.describe (spool_event e payload) r.worker))
    after_spool_event-Changes e (err x) c b = rw b (inl (refl, refl, inr (e, x, c, b, refl)))

    after_convert-Changes :
        (o : Option Envelope)
        → convert env s ≡ o
        → Changes env s r (after_convert env o (count_removed env s (seen r)))
    unfolding after_convert count_removed
    after_convert-Changes none c = inl (
      refl,
      refl,
      inl (
        refl,
        inr (inr (inl (λ (e, (v, p)). absurd (cc (c, IsEnvelopeOf-convert env s e v p))))),
      ),
    )
    after_convert-Changes (some e) c =
        after_spool_event-Changes e (to_bytes env.json e) (convert-IsEnvelopeOf env s e c) refl

  is_excluded-IsExcluded :
      (o : Option (Text → Bool)) → is_excluded o s.entity_id ≡ true → IsExcluded o s.entity_id
  is_excluded-IsExcluded none h = absurd (cc (h))
  is_excluded-IsExcluded (some f) h = ground (arith, h)

  included_entity :
      (o : Option (Text → Bool)) → is_excluded o s.entity_id ≡ false → ¬ IsExcluded o s.entity_id
  included_entity none h x = x
  included_entity (some f) h x = absurd (ground (arith, h, x))

  -- A call for a new state queues an event, and counts it as accepted, exactly where the entity filter
  -- lets the entity pass, the state is not unknown, there is a valid envelope of it that can be
  -- written, and the worker accepts events, has room and takes one of that size. The event is that
  -- envelope's, with the state's fields, times in nanoseconds and the JSON of the attributes that the
  -- filter lets pass, in order. Else the queue and the number of accepted events stay as they were,
  -- and the call raises only where the envelope could not be written.
  pub state_changed_lem : (r : Runtime) → Changes env s r (state_changed env (some s) r)
  unfolding state_changed
  state_changed_lem r =
      if_cases (Changes env s r) (is_excluded env.entity_filter s.entity_id) _ _
        (λ h. inl (refl, refl, inl (refl, inl (is_excluded-IsExcluded env.entity_filter h))))
        (λ h.
          if_cases (Changes env s r) (text_eq s.state state_unknown) _ _
            (λ k. inl (refl, refl, inl (refl, inr (inl ((text_eq_iff s.state state_unknown).0 k)))))
            (λ k.
              after_convert-Changes (included_entity env.entity_filter h)
                (λ e. absurd (cc (k, (text_eq_iff s.state state_unknown).1 e))) r (convert env s)
                refl))
