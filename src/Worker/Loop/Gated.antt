-- ===== src/Worker/Loop/Gated.antt =====
-- The gate of `_delivery_loop` of custom_components/hass_questdb_writer/worker.py: what a run of the
-- loop leaves alone.
use hass_questdb_writer.Prelude.{
  ◌≡◌, refl, ◌∙◌, ◌⊎◌, inl, inr, Bool, true, false, Option, none, some, List, [], ◌∷◌, ℕ, Result,
  ok, err, arith,
}
use hass_questdb_writer.Spool.Types.{Error, Stats}
use hass_questdb_writer.Spool.Peek.{stats}
use hass_questdb_writer.Schema.Manager
use hass_questdb_writer.Schema.Manager.{ensure}
use hass_questdb_writer.Schema.Manager.Ensured.{IsValidated, ensure-IsValidated}
use hass_questdb_writer.Worker.{Worker}
use hass_questdb_writer.Worker.Accounting.{if_cases}
use hass_questdb_writer.Worker.Loop.{
  Setup, Turn, Delivery, Ending, is_lasting, is_retryable, after_ensure, count_stats, pending_from,
  is_due, after_stats, after_read, ready_turn, after_gate, gate, turn, goes_on, run,
}

-- The spool and the count of delivered events are the same.
pub record IsUnsent (w w' : Worker) : Type 0 where
  pub spool : w'.spool ≡ w.spool
  pub delivered : w'.delivered_events ≡ w.delivered_events

chain : {a b c : Worker} → IsUnsent a b → IsUnsent b c → IsUnsent a c
chain p q = record {
  spool = IsUnsent.spool q ∙ IsUnsent.spool p;
  delivered = IsUnsent.delivered q ∙ IsUnsent.delivered p;
}

abbrev Unsent : Worker → Result Manager.Raised Bool × Worker → Type 0
Unsent w p = IsUnsent w p.1

-- A turn in the list met a server that confirmed the DDL and showed the owned columns.
pub HasValidated : List Turn → Type 0
HasValidated [] = ⊥
HasValidated (t ∷ ts) = IsValidated t.answers ⊎ HasValidated ts

-- The gate is closed, and a schema manager is there to open it.
abbrev pub IsGated : Delivery → Type 0
IsGated d = (d.is_schema_ready ≡ false) × ((m : Manager.Manager) × (d.manager ≡ some m))

abbrev Held : Turn → Worker → Ending × Delivery → Type 0
Held t w p = (IsUnsent w p.1.worker × IsGated p.1) ⊎ IsValidated t.answers

after_ensure-IsUnsent :
    (s : Setup) (delay : ℕ) (r : Result Manager.Raised (Unit {0})) (w : Worker)
    → IsUnsent w (after_ensure s delay r w).1
unfolding after_ensure
after_ensure-IsUnsent s delay (ok x) w = record { spool = refl; delivered = refl }
after_ensure-IsUnsent s delay (err x) w =
    if_cases (Unsent w) (is_lasting x) _ _ (λ _. record { spool = refl; delivered = refl })
      (λ _.
        if_cases (Unsent w) (is_retryable x) _ _ (λ _. record { spool = refl; delivered = refl })
          (λ _. record { spool = refl; delivered = refl }))

after_ensure-ok :
    (s : Setup) (delay : ℕ) (r : Result Manager.Raised (Unit {0})) (w : Worker)
    → (after_ensure s delay r w).0 ≡ ok true
    → r ≡ ok tt
unfolding after_ensure
after_ensure-ok s delay (ok x) w h = refl
after_ensure-ok s delay (err x) w h = absurd (ground (arith, h))

module _ (s : Setup) (t : Turn) where
  after_gate-IsGated :
      (p : Result Manager.Raised Bool × Worker) (w : Worker) (d : Delivery)
      → IsUnsent w p.1
      → IsGated d
      → (IsUnsent w (after_gate s t p d).1.worker × IsGated (after_gate s t p d).1)
        ⊎ (p.0 ≡ ok true)
  unfolding after_gate
  after_gate-IsGated (err x, w') w d u g = inl (u, g)
  after_gate-IsGated (ok false, w') w d u g = inl (u, g)
  after_gate-IsGated (ok true, w') w d u g = inr refl

  gate-IsGated :
      (o : Option Manager.Manager) (m : Manager.Manager) (d : Delivery)
      → o ≡ some m
      → d.is_schema_ready ≡ false
      → Held t d.worker (gate s t o d)
  unfolding gate
  gate-IsGated none m d e h = absurd (cc (e))
  gate-IsGated (some n) m d e h =
      let r : Result Manager.Raised (Unit {0}) = (ensure s.table t.answers n).0 in
      elim (after_gate-IsGated (after_ensure s t.delay r d.worker) d.worker
        (record d { manager = some (ensure s.table t.answers n).1 })
        (after_ensure-IsUnsent s t.delay r d.worker) (h, ((ensure s.table t.answers n).1, refl))) [
          | inl c ↦ inl c
          | inr q ↦
              inr (ensure-IsValidated s.table t.answers n (after_ensure-ok s t.delay r d.worker q))
        ]

  turn-IsGated : (d : Delivery) → IsGated d → Held t d.worker (turn s t d)
  unfolding turn
  turn-IsGated d (h, (m, e)) =
      if_cases (Held t d.worker) t.stop _ _
        (λ _. inl (record { spool = refl; delivered = refl }, (h, (m, e))))
        (λ _.
          if_cases (Held t d.worker) d.is_schema_ready _ _ (λ r. absurd (cc (r, h)))
            (λ _. gate-IsGated d.manager m d e h))

-- While the gate is closed, a run of the loop leaves the spool and the count of delivered events as
-- they are, unless one of its turns met a server that confirmed the DDL and showed the owned columns.
pub run-HasValidated :
    (s : Setup) (ts : List Turn) (d : Delivery)
    → IsGated d
    → IsUnsent d.worker (run s ts d).worker ⊎ HasValidated ts
unfolding run HasValidated
run-HasValidated s [] d g = inl (record { spool = refl; delivered = refl })
run-HasValidated s (t ∷ ts) d g = elim (turn-IsGated s t d g) [
  | inr v ↦ inr (inl v)
  | inl (u, g') ↦
      if_cases (λ (r : Delivery). IsUnsent d.worker r.worker ⊎ HasValidated (t ∷ ts))
        (goes_on (turn s t d).0) _ _
        (λ _. elim (run-HasValidated s ts (turn s t d).1 g') [
          | inl u' ↦ inl (chain u u')
          | inr v ↦ inr (inr v)
        ])
        (λ _. inl u)
]

-- Nothing is sent, and the loop stays blocked.
abbrev Stuck : Worker → Delivery → Type 0
Stuck w d = IsUnsent w d.worker × (d.is_blocked ≡ true)

abbrev Ends : Worker → Ending × Delivery → Type 0
Ends w p = Stuck w p.1

blocked-is_due :
    (s : Setup) (now : ℕ) (st : Stats) (d : Delivery)
    → d.is_blocked ≡ true
    → is_due s now st d ≡ false
unfolding is_due
blocked-is_due s now st d h = ground (arith, h)

module _ (s : Setup) (t : Turn) where
  after_stats-Stuck :
      (st : Stats) (w : Worker) (d : Delivery) → Stuck w d → Stuck w (after_stats s t st d).1
  unfolding after_stats
  after_stats-Stuck st w d h =
      if_cases (Ends w) (is_due s t.now st d) _ _
        (λ e. absurd (cc (e, blocked-is_due s t.now st d h.1))) (λ _. h)

  after_read-Stuck :
      (r : Result Error Stats) (w : Worker) (d : Delivery)
      → Stuck w d
      → Stuck w (after_read s t r d).1
  unfolding after_read
  after_read-Stuck (err x) w d h = h
  after_read-Stuck (ok st) w d (u, b) =
      after_stats-Stuck st w
        (count_stats st (record d { flush_at = pending_from s t.now st d.flush_at }))
        (record { spool = u.spool; delivered = u.delivered }, b)

  ready_turn-Stuck : (w : Worker) (d : Delivery) → Stuck w d → Stuck w (ready_turn s t d).1
  unfolding ready_turn
  ready_turn-Stuck w d h = after_read-Stuck (stats t.stats_fault d.worker.spool) w d h

  after_gate-Stuck :
      (p : Result Manager.Raised Bool × Worker) (w : Worker) (d : Delivery)
      → IsUnsent w p.1
      → d.is_blocked ≡ true
      → Stuck w (after_gate s t p d).1
  unfolding after_gate
  after_gate-Stuck (err x, w') w d u b = (u, b)
  after_gate-Stuck (ok false, w') w d u b = (u, b)
  after_gate-Stuck (ok true, w') w d u b =
      ready_turn-Stuck w (record d { worker = w'; is_schema_ready = true }) (u, b)

  gate-Stuck :
      (o : Option Manager.Manager) (w : Worker) (d : Delivery)
      → Stuck w d
      → Stuck w (gate s t o d).1
  unfolding gate
  gate-Stuck none w d h = ready_turn-Stuck w (record d { is_schema_ready = true }) h
  gate-Stuck (some m) w d (u, b) =
      let r : Result Manager.Raised (Unit {0}) = (ensure s.table t.answers m).0 in
      after_gate-Stuck (after_ensure s t.delay r d.worker) w
        (record d { manager = some (ensure s.table t.answers m).1 })
        (chain u (after_ensure-IsUnsent s t.delay r d.worker)) b

  turn-Stuck : (w : Worker) (d : Delivery) → Stuck w d → Stuck w (turn s t d).1
  unfolding turn
  turn-Stuck w d h =
      if_cases (Ends w) t.stop _ _ (λ _. h)
        (λ _.
          if_cases (Ends w) d.is_schema_ready _ _ (λ _. ready_turn-Stuck w d h)
            (λ _. gate-Stuck d.manager w d h))

run-Stuck :
    (s : Setup) (ts : List Turn) (w : Worker) (d : Delivery) → Stuck w d → Stuck w (run s ts d)
unfolding run
run-Stuck s [] w d h = h
run-Stuck s (t ∷ ts) w d h =
    if_cases (Stuck w) (goes_on (turn s t d).0) _ _
      (λ _. run-Stuck s ts w (turn s t d).1 (turn-Stuck s t w d h)) (λ _. turn-Stuck s t w d h)

-- A blocked loop stays blocked, and no run of it delivers an event or changes the spool.
pub run_blocked :
    (s : Setup) (ts : List Turn) (d : Delivery)
    → d.is_blocked ≡ true
    → IsUnsent d.worker (run s ts d).worker × ((run s ts d).is_blocked ≡ true)
run_blocked s ts d b = run-Stuck s ts d.worker d (record { spool = refl; delivered = refl }, b)
